-- ===== src/Transport/ServerConn.antt =====
-- transport/server_conn.go: the server's end of a connection, an object that the registry, the
-- application and its two goroutines share.
pub mod Life
use qtun.Base.{
  Bool, true, false, Option, none, some, List, [], ◌∷◌, ◌++◌, if◌then◌else◌, Bytes, nil_dereference,
  raised, ok, err, panic, Action, take, ◌>>◌,
}
use qtun.Stream.{Stream}
use qtun.Transport.Frame.{
  ReadError, cipher_not_match, read_frame, Random, Endpoint, WriteError, write_frame,
}

pub record ServerConn : Type 0 where
  -- `conn`, `aesgcm` and `writeBuf`
  pub endpoint : Endpoint
  pub open endpoint use *
  pub key : Bytes
  -- `chanWrite`: what senders have handed over and `writeProcess` has not taken, in order. The
  -- channel's two places and the senders that wait for one are one queue here.
  pub chan_write : List Bytes
  pub write_closed : Bool
  -- `chanClose`, a channel of one place.
  pub chan_close : List Bool
  pub is_closed : Bool
  pub no_delay : Bool

unfoldable pub new_server_conn : Option Stream → Bytes → Bool → ServerConn
new_server_conn conn key no_delay = record {
  endpoint = record { conn = conn; aesgcm = none; buf = [] };
  key = key;
  chan_write = [];
  write_closed = false;
  chan_close = [];
  is_closed = false;
  no_delay = no_delay;
}

-- A send that finds its channel full waits for a receiver.
pub data Wait : Type 0 where
  would_block : Wait

unfoldable pub send_close_from : List Bool → Action ServerConn Wait (Unit {0})
send_close_from [] c = (ok tt, record c { chan_close = true ∷ [] })
send_close_from (b ∷ bs) c = (err would_block, c)

-- `this.chanClose <- true`
unfoldable pub send_close : Action ServerConn Wait (Unit {0})
unfolding send_close_from
send_close c = send_close_from c.chan_close c

-- `close(this.chanWrite)`: closing a closed channel panics. What is in the channel's two places can
-- still be received; the senders that wait panic, and their payloads are gone.
unfoldable pub close_write : Action ServerConn Wait (Unit {0})
close_write c =
    if c.write_closed
    then (panic raised, c)
    else (ok tt, record c { write_closed = true; chan_write = take 2 c.chan_write })

-- `Stop`
unfoldable pub stop : Action ServerConn Wait (Unit {0})
unfolding send_close close_write
stop = send_close >> close_write

-- `Write`: a send on the closed channel panics, which is recovered and logged.
unfoldable pub enqueue : Bytes → ServerConn → ServerConn
enqueue payload c =
    if c.write_closed then c else record c { chan_write = c.chan_write ++ (payload ∷ []) }

-- `write` and `read`, over the object's endpoint.
unfoldable pub write_conn : Random → Bytes → Action ServerConn WriteError (Unit {0})
write_conn random payload c =
    let (r, e) = write_frame random payload c.endpoint in (r, record c { endpoint = e })

unfoldable pub read_conn_from : Option Stream → Action ServerConn ReadError Bytes
read_conn_from none c = (panic nil_dereference, c)
read_conn_from (some s) c =
    let (r, s') = read_frame c.aesgcm cipher_not_match s in
    (r, record c { endpoint = record c.endpoint { conn = some s' } })

unfoldable pub read_conn : Action ServerConn ReadError Bytes
unfolding read_conn_from
read_conn c = read_conn_from c.conn c
