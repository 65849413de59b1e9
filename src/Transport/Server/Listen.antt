-- ===== src/Transport/Server/Listen.antt =====
-- transport/server.go: `StartListen` and `listen`, from which the connections' objects come. What
-- the goroutines of a connection do then is not looked at here.
pub mod Accepted
use qtun.Base.{◌+◌, Bool, some, List, [], ◌∷◌}
use qtun.Stream.{Stream}
use qtun.Transport.ServerConn.{new_server_conn}
use qtun.Transport.Server.{ConnId, Server, update}

-- What the QUIC library gives to one turn of the loop of `listen`, as long as `Accept` succeeds: a
-- session on which `AcceptStream` fails, with a timeout or otherwise, or one with a stream.
pub data Arrival : Type 0 where
  stream_fails : Arrival
  arrives : Stream → Arrival

-- One call of `listen`: `ListenAddr` fails, or sessions come until `Accept` fails.
pub data Round : Type 0 where
  no_listener : Round
  listens : List Arrival → Round

-- The server, and the number that the next object gets.
pub record Listening : Type 0 where
  pub server : Server
  pub fresh : ConnId

-- `NewServerConn` on the stream that came.
unfoldable pub accept : Bool → Stream → Listening → Listening
accept no_delay stream l =
    let s : Server = l.server in
    record {
      server = record s {
        heap = update s.heap l.fresh (new_server_conn (some stream) s.key no_delay);
      };
      fresh = l.fresh + 1;
    }

-- The loop of `listen`.
unfoldable pub accept_all : Bool → List Arrival → Listening → Listening
accept_all no_delay [] l = l
accept_all no_delay (stream_fails ∷ more) l = accept_all no_delay more l
accept_all no_delay (arrives stream ∷ more) l = accept_all no_delay more (accept no_delay stream l)

-- `listen`, which always comes back with an error.
unfoldable pub listen : Bool → Round → Listening → Listening
listen no_delay no_listener l = l
listen no_delay (listens arrivals) l = accept_all no_delay arrivals l

-- `StartListen` calls it again and again.
unfoldable pub start_listen : Bool → List Round → Listening → Listening
start_listen no_delay [] l = l
start_listen no_delay (round ∷ more) l = start_listen no_delay more (listen no_delay round l)
