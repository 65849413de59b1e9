-- ===== src/App/Shared/Connections.antt =====
-- The goroutines of one connection, as the application sees them.
use qtun.Base.{◌≡◌, ◌⊎◌, inl, inr, refl, sym, ap, ◌∙◌, Bool, true, [], arith, Bytes}
use qtun.Stream.{Stream}
use qtun.Transport.Crypto.{Crypto}
use qtun.Transport.ServerConn.{ServerConn, send_close, send_close_from, close_write, enqueue}
use qtun.Transport.Server.{ConnId, update}
use qtun.Transport.ServerConn.Life as Conn
use qtun.Transport.ServerConn.Life.Stages.{read_conn-SameChannels, write_open-SameChannels}
use qtun.Transport.ServerConn.Life.Sealed.{Reach-conn}
use qtun.App.Shared.{Shared, with_server, Other, moves}

-- A flag that is not taken back.
abbrev IsKeptShut : ServerConn → ServerConn → Type 0
IsKeptShut c d = (d.is_closed ≡ true) ⊎ (d.is_closed ≡ c.is_closed)

ReaderStep-IsKeptShut :
    {lib : Crypto} {s t : Conn.Life} → Conn.ReaderStep lib s t → IsKeptShut s.conn t.conn
unfolding send_close send_close_from close_write
ReaderStep-IsKeptShut (Conn.keys at made) = inr refl
ReaderStep-IsKeptShut (Conn.no_key at failed) = inr refl
ReaderStep-IsKeptShut {s} (Conn.handles ping at got) =
    inr (ground (arith, read_conn-SameChannels s.conn))
ReaderStep-IsKeptShut {s} (Conn.handler_panics ping at got) =
    inr (ground (arith, read_conn-SameChannels s.conn))
ReaderStep-IsKeptShut {s} (Conn.read_fails at failed) =
    inr (ground (arith, read_conn-SameChannels s.conn))
ReaderStep-IsKeptShut (Conn.breaks at) = inr refl
ReaderStep-IsKeptShut (Conn.cleans_up at) = inr refl
ReaderStep-IsKeptShut (Conn.closes_stream at) = inr refl
ReaderStep-IsKeptShut (Conn.marks at) = inl refl
ReaderStep-IsKeptShut {s} (Conn.signals at done) = inr (ground arith)
ReaderStep-IsKeptShut {s} (Conn.closes_chan at done) = inr (ground arith)
ReaderStep-IsKeptShut (Conn.chan_panics at done) = inr refl

WriterStep-IsKeptShut : {s t : Conn.Life} → Conn.WriterStep s t → IsKeptShut s.conn t.conn
WriterStep-IsKeptShut (Conn.takes at got) = inr refl
WriterStep-IsKeptShut (Conn.takes_nil at empty shut) = inr refl
WriterStep-IsKeptShut (Conn.told_to_stop at got) = inr refl
WriterStep-IsKeptShut {s} (Conn.writes m at drawn done) =
    inr (ground (arith, write_open-SameChannels s.stream_closed m.random m.payload s.conn))
WriterStep-IsKeptShut {s} (Conn.writes_nil m at nil drawn done) =
    inr (ground (arith, write_open-SameChannels s.stream_closed m.random [] s.conn))
WriterStep-IsKeptShut {s} (Conn.write_fails {b} random at failed) =
    inr (ground (arith, write_open-SameChannels s.stream_closed random b s.conn))
WriterStep-IsKeptShut {s} (Conn.nil_fails random at failed) =
    inr (ground (arith, write_open-SameChannels s.stream_closed random [] s.conn))
WriterStep-IsKeptShut (Conn.ends at) = inr refl
WriterStep-IsKeptShut (Conn.finishes at) = inl refl

Step-IsKeptShut : {lib : Crypto} {s t : Conn.Life} → Conn.Step lib s t → IsKeptShut s.conn t.conn
unfolding Conn.offer enqueue
Step-IsKeptShut (Conn.own (Conn.reads r)) = ReaderStep-IsKeptShut r
Step-IsKeptShut (Conn.own (Conn.written w)) = WriterStep-IsKeptShut w
Step-IsKeptShut {s} (Conn.offers payload known) = inr (ground arith)

-- Whatever the two goroutines of a connection and its senders do, from its start on, is a change of
-- its object that the application allows for: seen from the application, it is a step of `moves`, so
-- the object keeps its stream, and its flag is not taken back.
pub Step-moves :
    {lib : Crypto} (stream : Stream) (key : Bytes) (no_delay : Bool) {s t : Conn.Life} (c : ConnId)
    (shared : Shared)
    → Conn.Reach lib (Conn.start stream key no_delay) s
    → Conn.Step lib s t
    → shared.app.server.heap c ≡ s.conn
    → Other shared (record shared {
      app =
          with_server
            (record shared.app.server { heap = update shared.app.server.heap c t.conn })
            shared.app;
    })
Step-moves stream key no_delay {s} {t} c shared reached step at =
    let (st, there) = Reach-conn stream key no_delay (Conn.next reached step) in
    moves c t.conn (λ e. cc)
      (elim (Step-IsKeptShut step) [
        | inl shut ↦ inl shut
        | inr same ↦ inr (same ∙ ap (λ (o : ServerConn). o.is_closed) (sym at))
      ])
