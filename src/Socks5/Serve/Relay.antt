-- ===== src/Socks5/Serve/Relay.antt =====
-- A session from its first byte to the end of the relayed bytes.
use qtun.Base.{
  append_assoc, ap, ◌∙◌, Bool, true, false, List, Bool-cases, inl, inr, ℕ, ◌^◌, ◌<◌, ◌≡◌, refl,
  some, [], ◌∷◌, ◌++◌, append-nil, arith, Bytes, ℕ_key, bytes_key, ok,
}
use qtun.Stream.{Stream, eof, write}
use qtun.Socks5.Wire.{success_reply, AddrSpec, DialAddress, Request}
use qtun.Socks5.Address.{send_reply}
use qtun.Socks5.Serve.{
  Side, Event, closed_write, target_side, client_side, Target, Env, dialed, relayed, Session, log,
  reply, copied, copy, relay, dial_target,
}
use qtun.Socks5.Address.Read.{Host, IsHost, encode, spec}
use qtun.Socks5.Address.Reply.{IsPlain, reply_of-spec}
use qtun.Socks5.Serve.Laws.{told}

pub write-fine :
    (bytes : Bytes) (s : Stream)
    → s.faults ≡ []
    → write bytes s ≡ (ok tt, record s { output = s.output ++ bytes })
unfolding write
write-fine bytes s fine = ground arith

copy_of :
    (dst src : Stream) (input : Bytes)
    → src.input ≡ input
    → dst.faults ≡ []
    → copy dst src
      ≡ (copied src.ending, record dst { output = dst.output ++ input }, record src { input = [] })
unfolding copy
copy_of dst src [] e fine = ground (arith, append-nil dst.output)
copy_of dst src (b ∷ bs) e fine = ground (arith, write-fine (b ∷ bs) dst fine)

-- The target after a relay: it was sent what the client had still to say, and has nothing more to
-- say itself.
abbrev pub relayed_target : Stream → Stream → Stream
relayed_target target client = record target { input = []; output = target.output ++ client.input }

-- The destination of the copy that ends first, and of the other one.
abbrev pub first_side : Bool → Side
first_side true = target_side
first_side false = client_side

abbrev pub second_side : Bool → Side
second_side true = client_side
second_side false = target_side

-- The ends of both copies, in their order.
abbrev pub ends : Bool → List Event
ends up_first = closed_write (first_side up_first) ∷ closed_write (second_side up_first) ∷ []

-- The same, as `relay` logs them one after the other.
abbrev logged : Bool → List Event → List Event
logged up_first es =
    (es ++ (closed_write (first_side up_first) ∷ [])) ++ (closed_write (second_side up_first) ∷ [])

logged-ends :
    (up_first : Bool) (es : List Event) (z : Event)
    → logged up_first es ++ (z ∷ []) ≡ es ++ ends up_first ++ (z ∷ [])
logged-ends up_first es z =
    ap (λ (l : List Event). l ++ (z ∷ []))
      (append_assoc es (closed_write (first_side up_first) ∷ [])
        (closed_write (second_side up_first) ∷ []))

-- Both copies, where no write fails and both sides end with EOF.
relay-logged :
    (env : Env) (target : Stream) (s : Session)
    → s.conn.faults ≡ []
    → target.faults ≡ []
    → s.conn.ending ≡ eof
    → target.ending ≡ eof
    → relay env target s ≡ (
      ok tt,
      record s {
        conn = record s.conn { input = []; output = s.conn.output ++ target.input };
        events = logged env.up_first s.events ++ (relayed (relayed_target target s.conn) ∷ []);
      },
    )
unfolding relay
relay-logged env target s fine tfine e te =
    let target1 : Stream = record target { output = target.output ++ s.conn.input } in
    let conn1 : Stream = record s.conn { output = s.conn.output ++ target.input } in
    elim (Bool-cases env.up_first) [
      | inl first ↦ ground (
        arith,
        first,
        copy_of target s.conn s.conn.input refl tfine,
        copy_of (record s.conn { input = [] }) target1 target.input refl fine,
      )
      | inr last ↦ ground (
        arith,
        last,
        copy_of s.conn target target.input refl fine,
        copy_of (record target { input = [] }) conn1 s.conn.input refl tfine,
      )
    ]

relay-fine :
    (env : Env) (target : Stream) (s : Session)
    → s.conn.faults ≡ []
    → target.faults ≡ []
    → s.conn.ending ≡ eof
    → target.ending ≡ eof
    → relay env target s ≡ (
      ok tt,
      record s {
        conn = record s.conn { input = []; output = s.conn.output ++ target.input };
        events = s.events ++ ends env.up_first ++ (relayed (relayed_target target s.conn) ∷ []);
      },
    )
relay-fine env target s fine tfine e te =
    relay-logged env target s fine tfine e te
    ∙ ap
        (λ (es : List Event). (
          ok tt,
          record s {
            conn = record s.conn { input = []; output = s.conn.output ++ target.input };
            events = es;
          },
        ))
        (logged-ends env.up_first s.events (relayed (relayed_target target s.conn)))

-- A target whose local address has the four or sixteen bytes of an IP.
abbrev pub IsLocal : Host → ℕ → Target → Type 0
IsLocal h port t =
    IsHost h
    × IsPlain h
    × (port < 2 ^ 16)
    × (record { fqdn = []; ip = t.local_ip; port = t.local_port } ≡ spec h port)

reply-spec :
    (code : ℕ) (a : AddrSpec) (h : Host) (port : ℕ) (s : Session)
    → IsHost h
    → IsPlain h
    → port < 2 ^ 16
    → a ≡ spec h port
    → s.conn.faults ≡ []
    → reply code (some a) s ≡ (ok tt, told s (5 ∷ code ∷ 0 ∷ encode h port))
unfolding send_reply
reply-spec code a h port s fits plain small e fine = ground (
  arith,
  reply_of-spec code h port fits plain small,
  write-fine (5 ∷ code ∷ 0 ∷ encode h port) s.conn fine,
)

-- The whole of a connect that succeeds: the client is told 5, 0, 0 and the local address of the
-- target's connection, then what the target says; the target is sent what the client says behind
-- its request; and each side is told that no more comes, in the order in which the copies end.
pub dial_target-relays :
    (env : Env) (req : Request) (addr : DialAddress) (t : Target) (h : Host) (port : ℕ)
    (s : Session)
    → env.dial addr ≡ ok t
    → IsLocal h port t
    → s.conn.faults ≡ []
    → t.stream.faults ≡ []
    → s.conn.ending ≡ eof
    → t.stream.ending ≡ eof
    → dial_target env req addr s ≡ (
      ok tt,
      record s {
        conn = record s.conn {
          input = [];
          output = s.conn.output ++ (5 ∷ 0 ∷ 0 ∷ encode h port) ++ t.stream.input;
        };
        events =
            s.events
            ++ (dialed addr ∷ [])
            ++ ends env.up_first
            ++ (relayed (relayed_target t.stream s.conn) ∷ []);
      },
    )
unfolding dial_target
dial_target-relays env req addr t h port s e local fine tfine end tend =
    let s1 : Session = log (dialed addr) s in
    ground (
      arith,
      reply-spec success_reply (record { fqdn = []; ip = t.local_ip; port = t.local_port }) h port
          s1 local.0 local.1 local.2 local.3 fine,
      relay-fine env t.stream (told s1 (5 ∷ 0 ∷ 0 ∷ encode h port)) fine tfine end tend,
    )
