-- ===== src/Transport/ServerConn/Life/Sealed.antt =====
-- What the other end reads of what `writeProcess` has written.
use qtun.Base.{
  All, Bool-cases, append-nil, sym, ℕ, ◌≡◌, refl, ◌⊎◌, inl, inr, Bool, true, none, some, List, [],
  ◌++◌, arith, length, Bytes, ok,
}
use qtun.Stream.{Stream}
use qtun.Transport.Crypto.{Crypto, crypto}
use qtun.Transport.Frame.{ReadError}
use qtun.Transport.ServerConn.{new_server_conn, enqueue}
use qtun.Transport.ServerConn.Life.{
  Life, start, Step, Reach, reads, written, offer, own, offers, here, next,
}
use qtun.Transport.ServerConn.Life.Stages.{IsStaged, Step-IsStaged, start-IsStaged}
use qtun.Transport.Frame.RoundTrip.{payloads, frames, IsReady, read_all, read_all-frames}
use qtun.Transport.ServerConn.Life.Order.{IsQueue, in_hand, Step-IsQueue, quiet_sent, start-IsQueue}
use qtun.Transport.ServerConn.Life.Written.{
  IsKeyed, HasWritten, ReaderStep-IsKeyed, WriterStep-IsKeyed, ReaderStep-HasWritten,
  WriterStep-HasWritten,
}

-- What holds at once of every state that can be reached.
record IsKept (lib : Crypto) (key initial : Bytes) (s : Life) : Type 0 where
  staged : IsStaged s
  queue : IsQueue s
  key_kept : IsKeyed lib key s
  output : HasWritten initial s

offer-IsKeyed :
    {lib : Crypto} {key : Bytes} (payload : Bytes) (s : Life)
    → s.known ≡ true
    → IsKeyed lib key s
    → IsKeyed lib key (offer payload s)
unfolding offer enqueue
offer-IsKeyed payload s known v = ground arith

offer-HasWritten :
    (initial payload : Bytes) (s : Life)
    → HasWritten initial s
    → HasWritten initial (offer payload s)
unfolding offer enqueue
offer-HasWritten initial payload s (st, there, out) = (st, ground arith, ground arith)

Step-IsKept :
    {lib : Crypto} {key initial : Bytes} {s t : Life}
    → Step lib s t
    → IsKept lib key initial s
    → IsKept lib key initial t
Step-IsKept {key} {initial} (own (reads r)) v = record {
  staged = Step-IsStaged (own (reads r)) v.staged;
  queue = Step-IsQueue (own (reads r)) v.staged v.queue;
  key_kept = ReaderStep-IsKeyed r v.key_kept;
  output = ReaderStep-HasWritten key initial r v.key_kept v.queue v.output;
}
Step-IsKept {lib} {initial} (own (written w)) v = record {
  staged = Step-IsStaged {lib = lib} (own (written w)) v.staged;
  queue = Step-IsQueue {lib = lib} (own (written w)) v.staged v.queue;
  key_kept = WriterStep-IsKeyed initial w v.output v.key_kept;
  output = WriterStep-HasWritten initial w v.staged v.output;
}
Step-IsKept {lib} {initial} {s} (offers payload known) v = record {
  staged = Step-IsStaged {lib = lib} (offers payload known) v.staged;
  queue = Step-IsQueue {lib = lib} (offers payload known) v.staged v.queue;
  key_kept = offer-IsKeyed payload s known v.key_kept;
  output = offer-HasWritten initial payload s v.output;
}

Reach-IsKept :
    {lib : Crypto} {key initial : Bytes} {s t : Life}
    → IsKept lib key initial s
    → Reach lib s t
    → IsKept lib key initial t
Reach-IsKept v here = v
Reach-IsKept v (next r st) = Step-IsKept st (Reach-IsKept v r)

start-IsKept :
    (lib : Crypto) (stream : Stream) (key : Bytes) (no_delay : Bool)
    → IsKept lib key stream.output (start stream key no_delay)
unfolding start new_server_conn
start-IsKept lib stream key no_delay = record {
  staged = start-IsStaged stream key no_delay;
  queue = start-IsQueue stream key no_delay;
  key_kept = ground arith;
  output = (stream, refl, sym (append-nil stream.output));
}

-- The connection has its stream all along.
pub Reach-conn :
    {lib : Crypto} (stream : Stream) (key : Bytes) (no_delay : Bool) {s : Life}
    → Reach lib (start stream key no_delay) s
    → (st : Stream) × (s.conn.conn ≡ some st)
Reach-conn {lib} stream key no_delay {s} reached =
    let v : IsKept lib key stream.output s =
      Reach-IsKept (start-IsKept lib stream key no_delay) reached in
    let (st, there, out) = v.output in (st, there)

-- However the goroutines and the senders of a connection interleave: what `writeProcess` has
-- written is a prefix of what was offered to `Write`, in the order of the offers; it was written
-- under the cipher that `crypto` makes of the server's key; and an end with that cipher reads
-- exactly these payloads back from what was put on the stream. The messages fit their frames, and
-- the cipher keeps its contract.
pub sends_in_order :
    {lib : Crypto} (stream : Stream) (key : Bytes) (no_delay : Bool) {s : Life} (overhead : ℕ)
    (refused : ReadError) (r : Stream) (more_input : Bytes)
    → Reach lib (start stream key no_delay) s
    → All (IsReady s.aesgcm overhead) s.sent
    → (rest : List Bytes) × (on_stream : Bytes) × (st : Stream) × (s.offered
        ≡ payloads s.sent ++ rest)
      × ((s.sent ≡ []) ⊎ (crypto lib key none ≡ ok s.aesgcm))
      × (s.conn.conn ≡ some st)
      × (st.output ≡ stream.output ++ on_stream)
      × (read_all (length s.sent) s.aesgcm refused (record r { input = on_stream ++ more_input })
          ≡ (ok (payloads s.sent), record r { input = more_input }))
sends_in_order {lib} stream key no_delay {s} overhead refused r more_input reached ready =
    let v : IsKept lib key stream.output s =
      Reach-IsKept (start-IsKept lib stream key no_delay) reached in
    let (st, there, out) = v.output in
    (
      s.failed_on ++ (in_hand s.writer ++ (s.chan_write ++ s.lost)),
      frames s.aesgcm s.sent,
      st,
      sym v.queue.fifo,
      elim (Bool-cases s.known) [
        | inl known ↦ inr (v.key_kept.keyed known)
        | inr unknown ↦ inl (quiet_sent s v.queue (v.key_kept.quiet unknown))
      ],
      there,
      out,
      read_all-frames s.aesgcm overhead s.sent more_input refused r ready,
    )
