-- ===== src/Transport/ServerConn/Life/Remaining.antt =====
-- How many steps the goroutines can still take, and that each step is one less.
use qtun.Base.{
  ℕ, ◌+◌, ◌*◌, ◌≤◌, ◌<◌, ◌≡◌, inl, inr, Bool, true, false, Option, none, some, [], arith, length,
  Bytes, ok, length-take_le, Option-cases, ap,
}
use qtun.Stream.{Stream}
use qtun.Transport.Crypto.{Crypto}
use qtun.Transport.Frame.{Random, Endpoint, cipher_not_match, read_frame, write_frame}
use qtun.Transport.ServerConn.{
  ServerConn, send_close, close_write, write_conn, read_conn, read_conn_from,
}
use qtun.Transport.ReadLoop.Laws.{read_frame-shorter}
use qtun.Transport.Frame.Reads.{read_frame-IsRead, write_frame-IsWritten}
use qtun.Transport.ServerConn.Life.{
  Reader, keying, serving, leaving, cleaned, closed, marked, signalled, gone, crashed, Writer,
  selecting, writing, writing_nil, ending, closed_stream, finished, Life, write_open, ReaderStep,
  WriterStep, keys, no_key, handles, handler_panics, read_fails, breaks, cleans_up, closes_stream,
  marks, signals, closes_chan, chan_panics, takes, takes_nil, told_to_stop, writes, writes_nil,
  write_fails, nil_fails, ends, finishes,
}
use qtun.Transport.ServerConn.Life.Stages.{
  IsStaged, nil-refused, read_conn-SameChannels, write_open-SameChannels,
}

-- The connection has its stream; what is left of its input.
abbrev pub input_length : Option Stream → ℕ
input_length none = 0
input_length (some s) = length s.input

abbrev reader_rank : Reader → ℕ
reader_rank keying = 8
reader_rank serving = 7
reader_rank leaving = 6
reader_rank cleaned = 5
reader_rank closed = 4
reader_rank marked = 3
reader_rank signalled = 1
reader_rank gone = 0
reader_rank crashed = 0

abbrev writer_rank : Writer → ℕ
writer_rank selecting = 4
writer_rank (writing b) = 5
writer_rank writing_nil = 3
writer_rank ending = 2
writer_rank closed_stream = 1
writer_rank finished = 0

-- How many steps the connection's goroutines have left at most, if nothing more is offered: the
-- phases to go, the input still to be read, and the payloads still to be written.
abbrev pub remaining : Life → ℕ
remaining s =
    reader_rank s.reader
    + writer_rank s.writer
    + input_length s.conn.conn
    + 2 * length s.chan_write
    + length s.chan_close

read_conn_shorter :
    (c c' : ServerConn) (payload : Bytes)
    → read_conn c ≡ (ok payload, c')
    → input_length c'.conn + 3 ≤ input_length c.conn
unfolding read_conn read_conn_from
read_conn_shorter c c' payload h = elim (Option-cases c.conn) [
  | inl e ↦ absurd (ground arith)
  | inr (s, e) ↦ ground (
    arith,
    read_frame-shorter c.aesgcm cipher_not_match s (read_frame c.aesgcm cipher_not_match s).1
        payload,
  )
]

read_conn_le : (c : ServerConn) → input_length (read_conn c).1.conn ≤ input_length c.conn
unfolding read_conn read_conn_from
read_conn_le c = elim (Option-cases c.conn) [
  | inl e ↦ ground arith
  | inr (s, e) ↦ ground (arith, (read_frame-IsRead c.aesgcm cipher_not_match s).no_longer)
]

write_frame-none :
    (random : Random) (payload : Bytes) (e : Endpoint)
    → e.conn ≡ none
    → (write_frame random payload e).1 ≡ e
unfolding write_frame
write_frame-none random payload e at = ground arith

write_open_le :
    (b : Bool) (random : Random) (payload : Bytes) (c : ServerConn)
    → input_length (write_open b random payload c).1.conn ≤ input_length c.conn
unfolding write_open write_conn
write_open_le true random payload c = ground arith
write_open_le false random payload c = elim (Option-cases c.conn) [
  | inl e ↦ ground (arith, write_frame-none random payload c.endpoint e)
  | inr (s, e) ↦
      let (s', at, same, k) = write_frame-IsWritten random payload c.endpoint s e in
      ground (arith, at, ap (λ (t : Bytes). length t) same)
]

pub ReaderStep-remaining :
    {lib : Crypto} {s t : Life} → ReaderStep lib s t → IsStaged s → remaining t < remaining s
unfolding send_close close_write
ReaderStep-remaining (keys at made) v = ground arith
ReaderStep-remaining (no_key at failed) v = ground arith
ReaderStep-remaining {s} (handles {payload} {c} ping at got) v =
    ground (arith, read_conn-SameChannels s.conn, read_conn_shorter s.conn c payload got)
ReaderStep-remaining {s} (handler_panics {payload} {c} ping at got) v =
    ground (arith, read_conn-SameChannels s.conn, read_conn_shorter s.conn c payload got)
ReaderStep-remaining {s} (read_fails at failed) v =
    ground (arith, read_conn-SameChannels s.conn, read_conn_le s.conn)
ReaderStep-remaining (breaks at) v = ground arith
ReaderStep-remaining (cleans_up at) v = ground arith
ReaderStep-remaining (closes_stream at) v = ground arith
ReaderStep-remaining (marks at) v = ground arith
ReaderStep-remaining (signals at done) v = ground arith
ReaderStep-remaining {s} (closes_chan at done) v = ground (arith, length-take_le 2 s.chan_write)
ReaderStep-remaining (chan_panics at done) v = ground arith

pub WriterStep-remaining : {s t : Life} → WriterStep s t → IsStaged s → remaining t < remaining s
WriterStep-remaining (takes at got) v = ground arith
WriterStep-remaining (takes_nil at empty shut) v = ground arith
WriterStep-remaining (told_to_stop at got) v = ground arith
WriterStep-remaining {s} (writes m at drawn done) v = ground (
  arith,
  write_open-SameChannels s.stream_closed m.random m.payload s.conn,
  write_open_le s.stream_closed m.random m.payload s.conn,
)
WriterStep-remaining {s} (writes_nil {c} m at nil drawn done) v =
    absurd (nil-refused s v m.random c at done)
WriterStep-remaining {s} (write_fails {b} random at failed) v = ground (
  arith,
  write_open-SameChannels s.stream_closed random b s.conn,
  write_open_le s.stream_closed random b s.conn,
)
WriterStep-remaining {s} (nil_fails random at failed) v = ground (
  arith,
  write_open-SameChannels s.stream_closed random [] s.conn,
  write_open_le s.stream_closed random [] s.conn,
)
WriterStep-remaining (ends at) v = ground arith
WriterStep-remaining (finishes at) v = ground arith
