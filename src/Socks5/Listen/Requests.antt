-- ===== src/Socks5/Listen/Requests.antt =====
-- Reading a request, resolving, dialing and relaying come back.
use qtun.Base.{
  length, [], ◌≡◌, refl, ◌⊎◌, inl, inr, Bool-cases, Option, none, some, ◌∷◌, ◌==◌, arith, Bytes, ℕ,
  Result, ok, err, panic, ◌>>◌, ◌%◌, ◌^◌, Option-cases, List-cases, ℕ_key, bytes_key,
}
use qtun.Stream.{Stream, IoError, eof, unexpected_eof, failed, write}
use qtun.Socks5.Wire.{AddrSpec, DialAddress, Request, io}
use qtun.Socks5.Address.{
  port_of, read_host, read_addr_spec, request_from, new_request, format_host, reply_message,
  reply_of, send_reply,
}
use qtun.Socks5.Serve.{Env, Session, Serving, reply, copied, pass_on, as_io, copy, relay, rewritten}
use qtun.Socks5.Listen.Returns.{
  IsReturn, and_then-IsReturn, wrapped-IsReturn, if-IsReturn, read_byte-wrapped, read_full-wrapped,
  read-then, write-wrapped, write-IsReturn,
}

-- The head of a request.
read_host-IsReturn : (addr_type : ℕ) (s : Stream) → IsReturn (read_host addr_type s).0
unfolding read_host
read_host-IsReturn addr_type s =
    if-IsReturn (addr_type == 1) _ _ s
      (and_then-IsReturn _ _ (read_full-wrapped io 4 s) (λ a t. tt))
      (if-IsReturn (addr_type == 4) _ _ s
        (and_then-IsReturn _ _ (read_full-wrapped io 16 s) (λ a t. tt))
        (if-IsReturn (addr_type == 3) _ _ s
          (and_then-IsReturn _ _ (read_byte-wrapped io s)
            (λ n t. and_then-IsReturn _ _ (read_full-wrapped io n t) (λ a u. tt)))
          tt))

port_of-IsReturn : (port : Bytes) (s : Stream) → length port ≡ 2 → IsReturn (port_of port s).0
unfolding port_of
port_of-IsReturn [] s two = absurd (omega arith)
port_of-IsReturn (hi ∷ []) s two = absurd (omega arith)
port_of-IsReturn (hi ∷ lo ∷ more) s two = tt

read_addr_spec-IsReturn : (s : Stream) → IsReturn (read_addr_spec s).0
unfolding read_addr_spec
read_addr_spec-IsReturn s = and_then-IsReturn _ _ (read_byte-wrapped io s) (λ t s1.
    and_then-IsReturn _ _ (read_host-IsReturn t s1) (λ d s2.
      read-then io 2 s2 _
        (λ port s3 two. and_then-IsReturn _ _ (port_of-IsReturn port s3 two) (λ p s4. tt))))

-- The three bytes are there, so that no index is out of range.
request_from-IsReturn :
    (header : Bytes) (s : Stream) → length header ≡ 3 → IsReturn (request_from header s).0
unfolding request_from
request_from-IsReturn [] s three = absurd (omega arith)
request_from-IsReturn (a ∷ []) s three = absurd (omega arith)
request_from-IsReturn (a ∷ b ∷ more) s three =
    if-IsReturn {A = Request} (a == 5) _ _ s
      (and_then-IsReturn _ _ (read_addr_spec-IsReturn s) (λ d t. tt)) tt

pub new_request-IsReturn : (s : Stream) → IsReturn (new_request s).0
unfolding new_request
new_request-IsReturn s = read-then _ 3 s _ (λ header t three. request_from-IsReturn header t three)

-- Replies.
send_reply-IsReturn :
    (code : ℕ) (addr : Option AddrSpec) (s : Stream) → IsReturn (send_reply code addr s).0
unfolding send_reply reply_of
send_reply-IsReturn code none s = write-wrapped io _ s
send_reply-IsReturn code (some a) s = elim (Option-cases (format_host a)) [
  | inl e ↦ ground arith
  | inr ((t, body), e) ↦
      ground (arith, write-wrapped io (reply_message code t body (a.port % 2 ^ 16)) s)
]

pub reply-IsReturn :
    (code : ℕ) (addr : Option AddrSpec) (s : Session) → IsReturn (reply code addr s).0
reply-IsReturn code addr s =
    wrapped-IsReturn _ (send_reply code addr s.conn) (send_reply-IsReturn code addr s.conn)

pub reply-then :
    {A : Type 0} (code : ℕ) (addr : Option AddrSpec) (k : Serving A) (s : Session)
    → ((t : Session) → IsReturn (k t).0)
    → IsReturn ((reply code addr >> k) s).0
reply-then code addr k s after =
    and_then-IsReturn (reply code addr s) _ (reply-IsReturn code addr s) (λ _ t. after t)

-- An environment whose resolver and dialer come back.
pub record Answering (env : Env) : Type 0 where
  pub resolves : (name : Bytes) → IsReturn (env.resolve name)
  pub dials : (a : DialAddress) → IsReturn (env.dial a)

copied-IsReturn : (e : IoError) → IsReturn (copied e)
copied-IsReturn eof = tt
copied-IsReturn unexpected_eof = tt
copied-IsReturn (failed m) = tt

pass_on-IsReturn :
    (r : Result IoError (Unit {0})) (e : IoError) → IsReturn r → IsReturn (pass_on r e)
pass_on-IsReturn (ok a) e h = copied-IsReturn e
pass_on-IsReturn (err x) e h = tt
pass_on-IsReturn (panic p) e h = h

copy-IsReturn : (dst src : Stream) → IsReturn (copy dst src).0
unfolding copy
copy-IsReturn dst src = elim (List-cases src.input) [
  | inl e ↦ ground (arith, copied-IsReturn src.ending)
  | inr (b, bs, e) ↦
      ground
        (arith, pass_on-IsReturn (write (b ∷ bs) dst).0 src.ending (write-IsReturn (b ∷ bs) dst))
]

pub IsReturn-cases {ℓ κ} :
    {E : Type ℓ} {A : Type κ} (r : Result E A)
    → IsReturn r
    → ((a : A) × (r ≡ ok a)) ⊎ ((e : E) × (r ≡ err e))
IsReturn-cases (ok a) h = inl (a, refl)
IsReturn-cases (err e) h = inr (e, refl)
IsReturn-cases (panic p) h = absurd h

as_io-IsReturn : (r : Result IoError (Unit {0})) → IsReturn r → IsReturn (as_io r)
as_io-IsReturn (ok a) h = tt
as_io-IsReturn (err e) h = tt
as_io-IsReturn (panic p) h = h

pub relay-IsReturn : (env : Env) (target : Stream) (s : Session) → IsReturn (relay env target s).0
unfolding relay
relay-IsReturn env target s =
    let up = copy target s.conn in
    let down = copy s.conn target in
    elim (Bool-cases env.up_first) [
      | inl first ↦ elim (IsReturn-cases up.0 (copy-IsReturn target s.conn)) [
        | inl (a, e) ↦ ground (arith, as_io-IsReturn _ (copy-IsReturn up.2 up.1))
        | inr (x, e) ↦ ground arith
      ]
      | inr last ↦ elim (IsReturn-cases down.0 (copy-IsReturn s.conn target)) [
        | inl (a, e) ↦ ground (arith, as_io-IsReturn _ (copy-IsReturn down.2 down.1))
        | inr (x, e) ↦ ground arith
      ]
    ]

pub rewritten_dest :
    (env : Env) (req : Request) → (a : AddrSpec) × ((rewritten env req).real_dest_addr ≡ some a)
rewritten_dest env req = elim (Option-cases env.rewrite) [
  | inl e ↦ (req.dest_addr, ground arith)
  | inr (f, e) ↦ (f (record req { real_dest_addr = some req.dest_addr }), ground arith)
]
