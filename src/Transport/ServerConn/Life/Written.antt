-- ===== src/Transport/ServerConn/Life/Written.antt =====
-- Under which cipher `writeProcess` writes, and what that leaves on the stream, step by step.
use qtun.Base.{
  Fails, append-nil, append_assoc, sym, ◌≡◌, refl, Bool, true, false, Option, none, some, List, [],
  ◌∷◌, ◌++◌, arith, Bytes, ok,
}
use qtun.Stream.{Stream}
use qtun.Transport.Aead.{Aead}
use qtun.Transport.Crypto.{Crypto, crypto}
use qtun.Transport.Frame.{Random, cipher_not_match, read_frame}
use qtun.Transport.ServerConn.{
  ServerConn, send_close, close_write, write_conn, read_conn, read_conn_from,
}
use qtun.Transport.Frame.Reads.{read_frame-IsRead, IsWritten, write_frame-IsWritten}
use qtun.Transport.ServerConn.Life.{
  keying, serving, Life, write_open, ReaderStep, WriterStep, keys, no_key, handles, handler_panics,
  read_fails, breaks, cleans_up, closes_stream, marks, signals, closes_chan, chan_panics, takes,
  takes_nil, told_to_stop, writes, writes_nil, write_fails, nil_fails, ends, finishes,
}
use qtun.Transport.ServerConn.Life.Stages.{IsStaged, nil-refused}
use qtun.Transport.Frame.RoundTrip.{Message, Draws, frame, frames}
use qtun.Transport.Frame.Reads.{write_frame-eq-ok, write_frame-Fails}
use qtun.Transport.ServerConn.Life.Order.{IsQueue, quiet_sent}

-- The cipher that `crypto` makes of the key is there before anything is offered.
pub record IsKeyed (lib : Crypto) (key : Bytes) (s : Life) : Type 0 where
  pub same_key : s.key ≡ key
  pub fresh : s.reader ≡ keying → (s.aesgcm ≡ none) × (s.known ≡ false)
  pub serves : s.reader ≡ serving → crypto lib key none ≡ ok s.aesgcm
  pub keyed : s.known ≡ true → crypto lib key none ≡ ok s.aesgcm
  pub quiet : s.known ≡ false → s.offered ≡ []

-- The stream's output is what it was, and the frames of the messages under the cipher.
abbrev pub HasWritten : Bytes → Life → Type 0
HasWritten initial s =
    (st : Stream) × (s.conn.conn ≡ some st) × (st.output ≡ initial ++ frames s.aesgcm s.sent)

read_conn-there :
    (c : ServerConn) (s : Stream)
    → c.conn ≡ some s
    → (s' : Stream) × ((read_conn c).1.conn ≡ some s')
      × (s'.output ≡ s.output)
      × ((read_conn c).1.aesgcm ≡ c.aesgcm)
      × ((read_conn c).1.key ≡ c.key)
unfolding read_conn read_conn_from
read_conn-there c s at = (
  (read_frame c.aesgcm cipher_not_match s).1,
  ground arith,
  (read_frame-IsRead c.aesgcm cipher_not_match s).same_output,
  ground arith,
  ground arith,
)

keys-none :
    (k : Option Aead) (initial : Bytes) (s : Life)
    → s.sent ≡ []
    → HasWritten initial s
    → (st : Stream) × (s.conn.conn ≡ some st) × (st.output ≡ initial ++ frames k s.sent)
keys-none k initial s none_sent (st, at, out) = (st, at, ground arith)

-- So a read leaves the output.
after_read :
    (initial : Bytes) (s : Life) (c : ServerConn) (payload : Bytes)
    → read_conn s.conn ≡ (ok payload, c)
    → HasWritten initial s
    → (st : Stream) × (c.conn ≡ some st) × (st.output ≡ initial ++ frames c.aesgcm s.sent)
after_read initial s c payload got (st, there, out) =
    let (st', at', same, k, y) = read_conn-there s.conn st there in
    (st', ground arith, ground arith)

-- The key and the cipher stay.
read_conn-key :
    (c : ServerConn) → ((read_conn c).1.key ≡ c.key) × ((read_conn c).1.aesgcm ≡ c.aesgcm)
unfolding read_conn read_conn_from
read_conn-key c = ground arith

pub ReaderStep-IsKeyed :
    {lib : Crypto} {key : Bytes} {s t : Life}
    → ReaderStep lib s t
    → IsKeyed lib key s
    → IsKeyed lib key t
unfolding send_close close_write
ReaderStep-IsKeyed (keys at made) v = ground arith
ReaderStep-IsKeyed (no_key at failed) v = ground arith
ReaderStep-IsKeyed {s} (handles ping at got) v = ground (arith, read_conn-key s.conn)
ReaderStep-IsKeyed {s} (handler_panics ping at got) v = ground (arith, read_conn-key s.conn)
ReaderStep-IsKeyed {s} (read_fails at failed) v = ground (arith, read_conn-key s.conn)
ReaderStep-IsKeyed (breaks at) v = ground arith
ReaderStep-IsKeyed (cleans_up at) v = ground arith
ReaderStep-IsKeyed (closes_stream at) v = ground arith
ReaderStep-IsKeyed (marks at) v = ground arith
ReaderStep-IsKeyed (signals at done) v = ground arith
ReaderStep-IsKeyed (closes_chan at done) v = ground arith
ReaderStep-IsKeyed (chan_panics at done) v = ground arith

write_open-there :
    (b : Bool) (random : Random) (payload : Bytes) (c : ServerConn) (s : Stream)
    → c.conn ≡ some s
    → IsWritten s c.endpoint (write_open b random payload c).1.endpoint
      × ((write_open b random payload c).1.key ≡ c.key)
unfolding write_open write_conn
write_open-there true random payload c s at = ((s, at, refl, refl), refl)
write_open-there false random payload c s at =
    (write_frame-IsWritten random payload c.endpoint s at, refl)

frames-snoc :
    (k : Option Aead) (ms : List Message) (m : Message)
    → frames k (ms ++ (m ∷ [])) ≡ frames k ms ++ frame k m.nonce m.payload
frames-snoc k [] m = append-nil (frame k m.nonce m.payload)
frames-snoc k (x ∷ ms) m =
    rw (frames-snoc k ms m)
      (sym (append_assoc (frame k x.nonce x.payload) (frames k ms) (frame k m.nonce m.payload)))

write_open-eq-ok :
    (b : Bool) (m : Message) (c c' : ServerConn) (s : Stream)
    → c.conn ≡ some s
    → Draws c.aesgcm m.random m.nonce
    → write_open b m.random m.payload c ≡ (ok tt, c')
    → (s' : Stream) × (c'.conn ≡ some s')
      × (s'.output ≡ s.output ++ frame c.aesgcm m.nonce m.payload)
      × (c'.aesgcm ≡ c.aesgcm)
unfolding write_open write_conn
write_open-eq-ok true m c c' s at drawn done = absurd (cc)
write_open-eq-ok false m c c' s at drawn done =
    write_frame-eq-ok m.random m.nonce m.payload c.endpoint c'.endpoint s at drawn (ground arith)

pub WriterStep-IsKeyed :
    {lib : Crypto} {key : Bytes} (initial : Bytes) {s t : Life}
    → WriterStep s t
    → HasWritten initial s
    → IsKeyed lib key s
    → IsKeyed lib key t
WriterStep-IsKeyed initial (takes at got) w v = ground arith
WriterStep-IsKeyed initial (takes_nil at empty shut) w v = ground arith
WriterStep-IsKeyed initial (told_to_stop at got) w v = ground arith
WriterStep-IsKeyed initial {s} (writes m at drawn done) (st, there, out) v =
    ground (arith, write_open-there s.stream_closed m.random m.payload s.conn st there)
WriterStep-IsKeyed initial {s} (writes_nil m at nil drawn done) (st, there, out) v =
    ground (arith, write_open-there s.stream_closed m.random [] s.conn st there)
WriterStep-IsKeyed initial {s} (write_fails {b} random at failed) (st, there, out) v =
    ground (arith, write_open-there s.stream_closed random b s.conn st there)
WriterStep-IsKeyed initial {s} (nil_fails random at failed) (st, there, out) v =
    ground (arith, write_open-there s.stream_closed random [] s.conn st there)
WriterStep-IsKeyed initial (ends at) w v = ground arith
WriterStep-IsKeyed initial (finishes at) w v = ground arith

-- A write that did not succeed leaves the output as it was.
write_open-Fails :
    (b : Bool) (random : Random) (payload : Bytes) (c : ServerConn) (s : Stream)
    → c.conn ≡ some s
    → Fails (write_open b random payload c).0
    → (s' : Stream) × ((write_open b random payload c).1.conn ≡ some s') × (s'.output ≡ s.output)
unfolding write_open write_conn
write_open-Fails true random payload c s at failed = (s, at, refl)
write_open-Fails false random payload c s at failed =
    write_frame-Fails random payload c.endpoint s at failed

pub ReaderStep-HasWritten :
    {lib : Crypto} (key initial : Bytes) {s t : Life}
    → ReaderStep lib s t
    → IsKeyed lib key s
    → IsQueue s
    → HasWritten initial s
    → HasWritten initial t
unfolding send_close close_write
ReaderStep-HasWritten key initial {s} (keys {k} at made) v q w =
    keys-none k initial s (quiet_sent s q (v.quiet (v.fresh at).1)) w
ReaderStep-HasWritten key initial (no_key at failed) v q w = w
ReaderStep-HasWritten key initial {s} (handles {payload} {c} ping at got) v q w =
    after_read initial s c payload got w
ReaderStep-HasWritten key initial {s} (handler_panics {payload} {c} ping at got) v q w =
    after_read initial s c payload got w
ReaderStep-HasWritten key initial {s} (read_fails at failed) v q (st, there, out) =
    let (st', at', same, k, y) = read_conn-there s.conn st there in (st', at', ground arith)
ReaderStep-HasWritten key initial (breaks at) v q w = w
ReaderStep-HasWritten key initial (cleans_up at) v q w = w
ReaderStep-HasWritten key initial (closes_stream at) v q w = w
ReaderStep-HasWritten key initial (marks at) v q w = w
ReaderStep-HasWritten key initial (signals at done) v q (st, there, out) =
    (st, ground arith, ground arith)
ReaderStep-HasWritten key initial (closes_chan at done) v q (st, there, out) =
    (st, ground arith, ground arith)
ReaderStep-HasWritten key initial (chan_panics at done) v q w = w

pub WriterStep-HasWritten :
    (initial : Bytes) {s t : Life}
    → WriterStep s t
    → IsStaged s
    → HasWritten initial s
    → HasWritten initial t
WriterStep-HasWritten initial (takes at got) v w = w
WriterStep-HasWritten initial (takes_nil at empty shut) v w = w
WriterStep-HasWritten initial (told_to_stop at got) v w = w
WriterStep-HasWritten initial {s} (writes {c} m at drawn done) v (st, there, out) =
    let (st', at', more_out, k) = write_open-eq-ok s.stream_closed m s.conn c st there drawn done in
    (
      st',
      at',
      ground (
        arith,
        frames-snoc s.aesgcm s.sent m,
        append_assoc initial (frames s.aesgcm s.sent) (frame s.aesgcm m.nonce m.payload),
      ),
    )
WriterStep-HasWritten initial {s} (writes_nil {c} m at nil drawn done) v w =
    absurd (nil-refused s v m.random c at done)
WriterStep-HasWritten initial {s} (write_fails {b} random at failed) v (st, there, out) =
    let (st', at', same) = write_open-Fails s.stream_closed random b s.conn st there failed in
    (st', at', ground (arith, write_open-there s.stream_closed random b s.conn st there))
WriterStep-HasWritten initial {s} (nil_fails random at failed) v (st, there, out) =
    let (st', at', same) = write_open-Fails s.stream_closed random [] s.conn st there failed in
    (st', at', ground (arith, write_open-there s.stream_closed random [] s.conn st there))
WriterStep-HasWritten initial (ends at) v w = w
WriterStep-HasWritten initial (finishes at) v w = w
