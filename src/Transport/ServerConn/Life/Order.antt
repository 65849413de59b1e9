-- ===== src/Transport/ServerConn/Life/Order.antt =====
-- What `writeProcess` has written: the payloads in the order in which they were offered, under the key.
use qtun.Base.{
  Bool-cases, append-nil, append_assoc, take-append-drop, ◌≡◌, refl, inl, inr, Bool, false, List,
  [], ◌∷◌, ◌++◌, arith, Bytes, ap,
}
use qtun.Stream.{Stream}
use qtun.Transport.Crypto.{Crypto}
use qtun.Transport.ServerConn.{send_close, close_write, enqueue}
use qtun.Transport.ServerConn.Life.{
  Writer, selecting, writing, writing_nil, Life, start, ReaderStep, WriterStep, Step, keys, no_key,
  handles, handler_panics, read_fails, breaks, cleans_up, closes_stream, marks, signals,
  closes_chan, chan_panics, takes, takes_nil, told_to_stop, writes, writes_nil, write_fails,
  nil_fails, ends, finishes, reads, written, offer, own, offers,
}
use qtun.Transport.ServerConn.Life.Stages.{
  IsStaged, nil-refused, read_conn-SameChannels, write_open-SameChannels,
}
use qtun.Transport.Frame.RoundTrip.{Message, payloads}

abbrev pub in_hand : Writer → List Bytes
in_hand (writing b) = b ∷ []
in_hand _ = []

abbrev pub IsAlive : Writer → Type 0
IsAlive selecting = Unit {0}
IsAlive (writing b) = Unit {0}
IsAlive writing_nil = Unit {0}
IsAlive _ = ⊥

-- Everything that was offered is written, in hand, in the channel, or lost, in that order.
pub record IsQueue (s : Life) : Type 0 where
  pub fifo :
      payloads s.sent ++ (s.failed_on ++ (in_hand s.writer ++ (s.chan_write ++ s.lost))) ≡ s.offered
  pub no_loss : s.write_closed ≡ false → s.lost ≡ []
  pub alive : IsAlive s.writer → s.failed_on ≡ []

payloads-snoc :
    (ms : List Message) (m : Message) (rest : List Bytes)
    → payloads (ms ++ (m ∷ [])) ++ rest ≡ payloads ms ++ (m.payload ∷ rest)
payloads-snoc [] m rest = refl
payloads-snoc (x ∷ ms) m rest = ap (◌∷◌ x.payload) (payloads-snoc ms m rest)

ReaderStep-IsQueue :
    {lib : Crypto} {s t : Life} → ReaderStep lib s t → IsStaged s → IsQueue s → IsQueue t
unfolding send_close close_write
ReaderStep-IsQueue (keys at made) v q = ground arith
ReaderStep-IsQueue (no_key at failed) v q = ground arith
ReaderStep-IsQueue {s} (handles ping at got) v q = ground (arith, read_conn-SameChannels s.conn)
ReaderStep-IsQueue {s} (handler_panics ping at got) v q =
    ground (arith, read_conn-SameChannels s.conn)
ReaderStep-IsQueue {s} (read_fails at failed) v q = ground (arith, read_conn-SameChannels s.conn)
ReaderStep-IsQueue (breaks at) v q = ground arith
ReaderStep-IsQueue (cleans_up at) v q = ground arith
ReaderStep-IsQueue (closes_stream at) v q = ground arith
ReaderStep-IsQueue (marks at) v q = ground arith
ReaderStep-IsQueue (signals at done) v q = ground arith
ReaderStep-IsQueue {s} (closes_chan at done) v q =
    ground (arith, v, take-append-drop 2 s.chan_write, append-nil s.chan_write)
ReaderStep-IsQueue (chan_panics at done) v q = ground arith

WriterStep-IsQueue : {s t : Life} → WriterStep s t → IsStaged s → IsQueue s → IsQueue t
WriterStep-IsQueue (takes at got) v q = ground arith
WriterStep-IsQueue (takes_nil at empty shut) v q = ground arith
WriterStep-IsQueue (told_to_stop at got) v q = ground arith
WriterStep-IsQueue {s} (writes m at drawn done) v q = ground (
  arith,
  write_open-SameChannels s.stream_closed m.random m.payload s.conn,
  payloads-snoc s.sent m (s.chan_write ++ s.lost),
)
WriterStep-IsQueue {s} (writes_nil {c} m at nil drawn done) v q =
    absurd (nil-refused s v m.random c at done)
WriterStep-IsQueue {s} (write_fails {b} random at failed) v q =
    ground (arith, write_open-SameChannels s.stream_closed random b s.conn)
WriterStep-IsQueue {s} (nil_fails random at failed) v q =
    ground (arith, write_open-SameChannels s.stream_closed random [] s.conn)
WriterStep-IsQueue (ends at) v q = ground arith
WriterStep-IsQueue (finishes at) v q = ground arith

snoc_fifo :
    (s : Life) (payload : Bytes)
    → s.lost ≡ []
    → payloads s.sent ++ (s.failed_on ++ (in_hand s.writer ++ (s.chan_write ++ s.lost))) ≡ s.offered
    → payloads s.sent
        ++ (s.failed_on ++ (in_hand s.writer ++ ((s.chan_write ++ (payload ∷ [])) ++ s.lost)))
      ≡ s.offered ++ (payload ∷ [])
snoc_fifo s payload kept fifo = simp (kept, append-nil, ← fifo, append_assoc)

offer-IsQueue : (payload : Bytes) (s : Life) → IsQueue s → IsQueue (offer payload s)
unfolding offer enqueue
offer-IsQueue payload s q = elim (Bool-cases s.write_closed) [
  | inl shut ↦ ground (arith, q)
  | inr open_chan ↦
      let kept : s.lost ≡ [] = q.no_loss open_chan in
      record {
        fifo = ground (arith, snoc_fifo s payload kept q.fifo);
        no_loss = λ e. kept;
        alive = q.alive;
      }
]

pub Step-IsQueue : {lib : Crypto} {s t : Life} → Step lib s t → IsStaged s → IsQueue s → IsQueue t
Step-IsQueue (own (reads r)) v q = ReaderStep-IsQueue r v q
Step-IsQueue (own (written w)) v q = WriterStep-IsQueue w v q
Step-IsQueue {s} (offers payload known) v q = offer-IsQueue payload s q

pub start-IsQueue :
    (stream : Stream) (key : Bytes) (no_delay : Bool) → IsQueue (start stream key no_delay)
unfolding start
start-IsQueue stream key no_delay = record { fifo = refl; no_loss = λ e. refl; alive = λ e. refl }

-- Nothing has been written while nothing was offered.
pub quiet_sent : (s : Life) → IsQueue s → s.offered ≡ [] → s.sent ≡ []
quiet_sent s q none_offered = empty s.sent refl
  where
    empty : (ms : List Message) → s.sent ≡ ms → s.sent ≡ []
    empty [] e = e
    empty (m ∷ ms) e = absurd (ground (arith, q.fifo))
