-- ===== src/Transport/ServerConn/Life.antt =====
-- transport/server_conn.go: `readProcess`, `writeProcess` and the senders of one connection, which run
-- at the same time. Each step is one access to what they share.
pub mod Stages
pub mod Ends
pub mod Order
pub mod Sealed
pub mod Written
pub mod Remaining
use qtun.Base.{
  ◌≡◌, Bool, true, false, ◌||◌, Option, some, List, [], ◌∷◌, ◌++◌, drop, if◌then◌else◌, Bytes, text,
  Panic, ok, err, panic, Action, Fails,
}
use qtun.Stream.{Stream, failed}
use qtun.Transport.Aead.{Aead}
use qtun.Transport.Crypto.{Crypto, crypto}
use qtun.Transport.Frame.{Random, WriteError, write_io}
use qtun.Transport.Frame.RoundTrip.{Message, Draws}
use qtun.Transport.ServerConn.{
  ServerConn, new_server_conn, send_close, close_write, enqueue, write_conn, read_conn,
}

-- Where `readProcess` stands. From `leaving` on it is in its deferred function.
pub data Reader : Type 0 where
  keying serving leaving cleaned closed marked signalled gone : Reader
  -- A panic in the deferred function, which nothing recovers.
  crashed : Reader

-- Where `writeProcess` stands.
pub data Writer : Type 0 where
  selecting : Writer
  writing : Bytes → Writer
  -- With the nil that a receive from the closed and empty channel yields.
  writing_nil : Writer
  ending closed_stream finished : Writer

pub record Life : Type 0 where
  pub conn : ServerConn
  pub open conn use {write_closed, chan_write, chan_close, is_closed, aesgcm, key}
  pub reader : Reader
  pub writer : Writer
  -- `conn.Close()` and `sess.CloseWithError(…)` have been called.
  pub stream_closed : Bool
  -- A ping has come over the connection, so that senders can find it in the registry.
  pub known : Bool
  -- `cleanup()` has run, the call of `RemoveConnByConnPointer`.
  pub removed : Bool
  -- The history: what was offered to `Write` while the channel was open, what `writeProcess` has
  -- written, what it had in hand when a write failed, and what senders lost when it was closed.
  pub offered : List Bytes
  pub sent : List Message
  pub failed_on : List Bytes
  pub lost : List Bytes

-- `NewServerConn` on an accepted stream, and the two goroutines that `listen` starts.
unfoldable pub start : Stream → Bytes → Bool → Life
unfolding new_server_conn
start stream key no_delay = record {
  conn = new_server_conn (some stream) key no_delay;
  reader = keying;
  writer = selecting;
  stream_closed = false;
  known = false;
  removed = false;
  offered = [];
  sent = [];
  failed_on = [];
  lost = [];
}

-- `write` of `writeProcess`: a QUIC stream refuses what comes after its `Close`.
unfoldable pub write_open : Bool → Random → Bytes → Action ServerConn WriteError (Unit {0})
write_open true random payload c = (err (write_io (failed (text "write on closed stream"))), c)
write_open false random payload c = write_conn random payload c

abbrev pub with_cipher : Option Aead → ServerConn → ServerConn
with_cipher k c = record c { endpoint = record c.endpoint { aesgcm = k } }

abbrev pub set_is_closed : ServerConn → ServerConn
set_is_closed c = record c { is_closed = true }

-- A step of `readProcess`.
pub data ReaderStep (lib : Crypto) (s : Life) : Life → Type 0 where
  keys :
      {k : Option Aead}
      → s.reader ≡ keying
      → crypto lib s.key s.aesgcm ≡ ok k
      → ReaderStep lib s (record s { conn = with_cipher k s.conn; reader = serving })
  no_key :
      s.reader ≡ keying
      → Fails (crypto lib s.key s.aesgcm)
      → ReaderStep lib s (record s { reader = leaving })
  -- A frame was read, and the handler returns; it may have been a ping.
  handles :
      {payload : Bytes} {c : ServerConn} (ping : Bool)
      → s.reader ≡ serving
      → read_conn s.conn ≡ (ok payload, c)
      → ReaderStep lib s (record s { conn = c; known = s.known || ping })
  handler_panics :
      {payload : Bytes} {c : ServerConn} (ping : Bool)
      → s.reader ≡ serving
      → read_conn s.conn ≡ (ok payload, c)
      → ReaderStep lib s (record s { conn = c; reader = leaving; known = s.known || ping })
  read_fails :
      s.reader ≡ serving
      → Fails (read_conn s.conn).0
      → ReaderStep lib s (record s { conn = (read_conn s.conn).1; reader = leaving })
  -- The session failed, or was closed at either end, with input still to come.
  breaks : s.reader ≡ serving → ReaderStep lib s (record s { reader = leaving })
  cleans_up : s.reader ≡ leaving → ReaderStep lib s (record s { reader = cleaned; removed = true })
  closes_stream :
      s.reader ≡ cleaned → ReaderStep lib s (record s { reader = closed; stream_closed = true })
  marks :
      s.reader ≡ closed
      → ReaderStep lib s (record s { reader = marked; conn = set_is_closed s.conn })
  -- `Stop`. While `send_close` would block, there is no step.
  signals :
      {c : ServerConn}
      → s.reader ≡ marked
      → send_close s.conn ≡ (ok tt, c)
      → ReaderStep lib s (record s { reader = signalled; conn = c })
  closes_chan :
      {c : ServerConn}
      → s.reader ≡ signalled
      → close_write s.conn ≡ (ok tt, c)
      → ReaderStep lib s (record s { reader = gone; conn = c; lost = drop 2 s.chan_write })
  chan_panics :
      {p : Panic} {c : ServerConn}
      → s.reader ≡ signalled
      → close_write s.conn ≡ (panic p, c)
      → ReaderStep lib s (record s { reader = crashed })

-- A step of `writeProcess`. Where both channels of the `select` are ready, either may be taken.
pub data WriterStep (s : Life) : Life → Type 0 where
  takes :
      {b : Bytes} {bs : List Bytes}
      → s.writer ≡ selecting
      → s.chan_write ≡ b ∷ bs
      → WriterStep s (record s { writer = writing b; conn = record s.conn { chan_write = bs } })
  takes_nil :
      s.writer ≡ selecting
      → s.chan_write ≡ []
      → s.write_closed ≡ true
      → WriterStep s (record s { writer = writing_nil })
  told_to_stop :
      {stop : Bool} {bs : List Bool}
      → s.writer ≡ selecting
      → s.chan_close ≡ stop ∷ bs
      → WriterStep s (record s {
        writer = if stop then ending else selecting;
        conn = record s.conn { chan_close = bs };
      })
  -- The message names the nonce that was drawn.
  writes :
      {c : ServerConn} (m : Message)
      → s.writer ≡ writing m.payload
      → Draws s.aesgcm m.random m.nonce
      → write_open s.stream_closed m.random m.payload s.conn ≡ (ok tt, c)
      → WriterStep s (record s { writer = selecting; conn = c; sent = s.sent ++ (m ∷ []) })
  writes_nil :
      {c : ServerConn} (m : Message)
      → s.writer ≡ writing_nil
      → m.payload ≡ []
      → Draws s.aesgcm m.random m.nonce
      → write_open s.stream_closed m.random [] s.conn ≡ (ok tt, c)
      → WriterStep s (record s { writer = selecting; conn = c; sent = s.sent ++ (m ∷ []) })
  write_fails :
      {b : Bytes} (random : Random)
      → s.writer ≡ writing b
      → Fails (write_open s.stream_closed random b s.conn).0
      → WriterStep s (record s {
        writer = ending;
        conn = (write_open s.stream_closed random b s.conn).1;
        failed_on = b ∷ [];
      })
  nil_fails :
      (random : Random)
      → s.writer ≡ writing_nil
      → Fails (write_open s.stream_closed random [] s.conn).0
      → WriterStep s
          (record s { writer = ending; conn = (write_open s.stream_closed random [] s.conn).1 })
  ends :
      s.writer ≡ ending → WriterStep s (record s { writer = closed_stream; stream_closed = true })
  finishes :
      s.writer ≡ closed_stream
      → WriterStep s (record s { writer = finished; conn = set_is_closed s.conn })

-- A step of the connection's own goroutines.
pub data Own (lib : Crypto) (s t : Life) : Type 0 where
  reads : ReaderStep lib s t → Own lib s t
  written : WriterStep s t → Own lib s t

-- A sender that has the connection from the registry offers a payload, at any time after a ping.
unfoldable pub offer : Bytes → Life → Life
unfolding enqueue
offer payload s = record s {
  conn = enqueue payload s.conn;
  offered = if s.write_closed then s.offered else s.offered ++ (payload ∷ []);
}

pub data Step (lib : Crypto) (s : Life) : Life → Type 0 where
  own : {t : Life} → Own lib s t → Step lib s t
  offers : (payload : Bytes) → s.known ≡ true → Step lib s (offer payload s)

pub data Reach (lib : Crypto) (s : Life) : Life → Type 0 where
  here : Reach lib s s
  next : {t u : Life} → Reach lib s t → Step lib t u → Reach lib s u
