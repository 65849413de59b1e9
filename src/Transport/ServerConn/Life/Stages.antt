-- ===== src/Transport/ServerConn/Life/Stages.antt =====
-- In which order a connection is taken down, and that neither goroutine stands in the other's way.
use qtun.Base.{◌≤◌, ◌≡◌, refl, ◌≢◌, Bool, true, false, [], arith, length, Bytes, ok}
use qtun.Stream.{Stream}
use qtun.Transport.Crypto.{Crypto}
use qtun.Transport.Frame.{Random}
use qtun.Transport.ServerConn.{
  ServerConn, send_close, close_write, enqueue, write_conn, read_conn, read_conn_from,
}
use qtun.Transport.ServerConn.Life.{
  Reader, keying, serving, leaving, cleaned, closed, marked, signalled, gone, crashed, Writer,
  selecting, writing, writing_nil, ending, closed_stream, finished, Life, start, write_open,
  ReaderStep, WriterStep, Step, Reach, keys, no_key, handles, handler_panics, read_fails, breaks,
  cleans_up, closes_stream, marks, signals, closes_chan, chan_panics, takes, takes_nil,
  told_to_stop, writes, writes_nil, write_fails, nil_fails, ends, finishes, reads, written, offer,
  own, offers, here, next,
}

-- What the goroutines' channels and flags are, by where `readProcess` stands.
abbrev pub At : Reader → Life → Type 0
At signalled s =
    (s.removed ≡ true) × (s.stream_closed ≡ true) × (s.is_closed ≡ true) × (s.write_closed ≡ false)
At gone s =
    (s.removed ≡ true)
    × (s.stream_closed ≡ true)
    × (s.is_closed ≡ true)
    × (s.write_closed ≡ true)
    × (length s.chan_write ≤ 2)
At crashed s = ⊥
At marked s =
    (s.chan_close ≡ [])
    × (s.write_closed ≡ false)
    × (s.removed ≡ true)
    × (s.stream_closed ≡ true)
    × (s.is_closed ≡ true)
At closed s =
    (s.chan_close ≡ []) × (s.write_closed ≡ false) × (s.removed ≡ true) × (s.stream_closed ≡ true)
At cleaned s = (s.chan_close ≡ []) × (s.write_closed ≡ false) × (s.removed ≡ true)
At _ s = (s.chan_close ≡ []) × (s.write_closed ≡ false)

-- The same for `writeProcess`.
abbrev pub WriterAt : Writer → Life → Type 0
WriterAt writing_nil s = s.write_closed ≡ true
WriterAt closed_stream s = s.stream_closed ≡ true
WriterAt finished s = (s.stream_closed ≡ true) × (s.is_closed ≡ true)
WriterAt _ s = Unit {0}

pub record IsStaged (s : Life) : Type 0 where
  pub reader_at : At s.reader s
  pub writer_at : WriterAt s.writer s

-- What `read` and `write` leave alone.
abbrev pub SameChannels : ServerConn → ServerConn → Type 0
SameChannels c d =
    (d.write_closed ≡ c.write_closed)
    × (d.chan_write ≡ c.chan_write)
    × (d.chan_close ≡ c.chan_close)
    × (d.is_closed ≡ c.is_closed)

pub read_conn-SameChannels : (c : ServerConn) → SameChannels c (read_conn c).1
unfolding read_conn read_conn_from
read_conn-SameChannels c = ground arith

pub write_open-SameChannels :
    (b : Bool) (random : Random) (payload : Bytes) (c : ServerConn)
    → SameChannels c (write_open b random payload c).1
unfolding write_open write_conn
write_open-SameChannels b random payload c = ground arith

pub start-IsStaged :
    (stream : Stream) (key : Bytes) (no_delay : Bool) → IsStaged (start stream key no_delay)
unfolding start
start-IsStaged stream key no_delay = record { reader_at = (refl, refl); writer_at = tt }

ReaderStep-IsStaged : {lib : Crypto} {s t : Life} → ReaderStep lib s t → IsStaged s → IsStaged t
unfolding send_close close_write
ReaderStep-IsStaged (keys at made) v = ground arith
ReaderStep-IsStaged (no_key at failed) v = ground arith
ReaderStep-IsStaged {s} (handles ping at got) v = ground (arith, read_conn-SameChannels s.conn)
ReaderStep-IsStaged {s} (handler_panics ping at got) v =
    ground (arith, read_conn-SameChannels s.conn)
ReaderStep-IsStaged {s} (read_fails at failed) v = ground (arith, read_conn-SameChannels s.conn)
ReaderStep-IsStaged (breaks at) v = ground arith
ReaderStep-IsStaged (cleans_up at) v = ground arith
ReaderStep-IsStaged (closes_stream at) v = ground arith
ReaderStep-IsStaged (marks at) v = ground arith
ReaderStep-IsStaged (signals at done) v = ground arith
ReaderStep-IsStaged (closes_chan at done) v = ground arith
ReaderStep-IsStaged (chan_panics at done) v = ground arith

WriterStep-IsStaged : {s t : Life} → WriterStep s t → IsStaged s → IsStaged t
WriterStep-IsStaged (takes at got) v = ground arith
WriterStep-IsStaged (takes_nil at empty shut) v = ground arith
WriterStep-IsStaged (told_to_stop at got) v = ground arith
WriterStep-IsStaged {s} (writes m at drawn done) v =
    ground (arith, write_open-SameChannels s.stream_closed m.random m.payload s.conn)
WriterStep-IsStaged {s} (writes_nil m at nil drawn done) v =
    ground (arith, write_open-SameChannels s.stream_closed m.random [] s.conn)
WriterStep-IsStaged {s} (write_fails {b} random at failed) v =
    ground (arith, write_open-SameChannels s.stream_closed random b s.conn)
WriterStep-IsStaged {s} (nil_fails random at failed) v =
    ground (arith, write_open-SameChannels s.stream_closed random [] s.conn)
WriterStep-IsStaged (ends at) v = ground arith
WriterStep-IsStaged (finishes at) v = ground arith

pub Step-IsStaged : {lib : Crypto} {s t : Life} → Step lib s t → IsStaged s → IsStaged t
unfolding offer enqueue
Step-IsStaged (own (reads r)) v = ReaderStep-IsStaged r v
Step-IsStaged (own (written w)) v = WriterStep-IsStaged w v
Step-IsStaged {s} (offers payload known) v = offered_to s.reader refl
  where
    offered_to : (r : Reader) → s.reader ≡ r → IsStaged (offer payload s)
    offered_to r e = ground arith

pub Reach-IsStaged : {lib : Crypto} {s t : Life} → IsStaged s → Reach lib s t → IsStaged t
Reach-IsStaged v here = v
Reach-IsStaged v (next r st) = Step-IsStaged st (Reach-IsStaged v r)

-- What holds where `readProcess` stands: the two parts of `Stop` succeed when their turn comes, and
-- the channel is closed only at the end, when `cleanup` has run, the stream is closed and the flag
-- set.
abbrev pub Stops : Reader → Life → Type 0
Stops marked s = ((send_close s.conn).0 ≡ ok tt) × (s.write_closed ≡ false)
Stops signalled s = ((close_write s.conn).0 ≡ ok tt) × (s.write_closed ≡ false)
Stops gone s =
    (s.write_closed ≡ true) × (s.removed ≡ true) × (s.stream_closed ≡ true) × (s.is_closed ≡ true)
Stops crashed s = ⊥
Stops _ s = s.write_closed ≡ false

-- What holds where `writeProcess` stands.
abbrev pub Finishes : Writer → Life → Type 0
Finishes finished s = (s.stream_closed ≡ true) × (s.is_closed ≡ true)
Finishes _ s = Unit {0}

IsStaged-Stops : (r : Reader) (s : Life) → s.reader ≡ r → IsStaged s → Stops r s
unfolding send_close close_write
IsStaged-Stops keying s at v = ground (arith, v)
IsStaged-Stops serving s at v = ground (arith, v)
IsStaged-Stops leaving s at v = ground (arith, v)
IsStaged-Stops cleaned s at v = ground (arith, v)
IsStaged-Stops closed s at v = ground (arith, v)
IsStaged-Stops marked s at v = (ground (arith, v), ground (arith, v))
IsStaged-Stops signalled s at v = (ground (arith, v), ground (arith, v))
IsStaged-Stops gone s at v = ground (arith, v)
IsStaged-Stops crashed s at v = ground (arith, v)

IsStaged-Finishes : (w : Writer) (s : Life) → s.writer ≡ w → IsStaged s → Finishes w s
IsStaged-Finishes finished s at v = ground (arith, v)
IsStaged-Finishes selecting s at v = tt
IsStaged-Finishes (writing b) s at v = tt
IsStaged-Finishes writing_nil s at v = tt
IsStaged-Finishes ending s at v = tt
IsStaged-Finishes closed_stream s at v = tt

-- However the two goroutines and the senders of a connection interleave: `Stop` never panics and
-- never waits; the channel is open until `readProcess` returns, and then its `cleanup` has
-- run, the stream is closed, and the connection's flag says so; and a `writeProcess` that has returned
-- has closed the stream and set the flag.
pub stop_once :
    {lib : Crypto} (stream : Stream) (key : Bytes) (no_delay : Bool) {s : Life}
    → Reach lib (start stream key no_delay) s
    → Stops s.reader s × Finishes s.writer s
stop_once stream key no_delay {s} r =
    let v : IsStaged s = Reach-IsStaged (start-IsStaged stream key no_delay) r in
    (IsStaged-Stops s.reader s refl v, IsStaged-Finishes s.writer s refl v)

-- The nil that a receive from the closed channel yields is never written: the stream is closed.
pub nil-refused :
    (s : Life)
    → IsStaged s
    → (random : Random) (c : ServerConn) → s.writer ≡ writing_nil
    → write_open s.stream_closed random [] s.conn ≢ (ok tt, c)
unfolding write_open
nil-refused s v random c at = λ done. ground (arith, v)
