-- ===== src/App/Tests.antt =====
-- Runs of the application on small inputs, and its theorems at such inputs.
use qtun.Base.{
  zero, suc, ◌≡◌, refl, ite, false, Option, none, some, [], ◌∷◌, ◌++◌, arith, bytes_discrete,
  if◌then◌else◌, replicate, Bytes, ℕ_key, bytes_key, ok,
}
use qtun.Stream.{Stream, eof}
use qtun.Transport.Frame.{io, cipher_not_match}
use qtun.Base.Map.{lookup, insert, delete}
use qtun.Stream.{Stream, eof}
use qtun.Transport.ServerConn.{ServerConn, new_server_conn}
use qtun.Transport.Server.{ConnId, new_server, get_conns_by_addr, register, set_conns}
use qtun.Transport.Server.Registry.{IsRegistry}
use qtun.Iface.{PacketIp}
use qtun.Protocol.{
  MessagePing, EnvelopeType, envelope_ping, envelope_packet, Envelope, Codec, IsCodec,
}
use qtun.App.{
  App, new_app, add_route, server_on_data, client_on_data, is_dead, send_packet, sent, forward,
  route_fuel, clean_conns, clean_routes, clean_route,
}
use qtun.Transport.Frame.RoundTrip.{Message, frames}
use qtun.Transport.ReadLoop.{read_failed, read_process}
use qtun.Transport.Server.Registry.{new_server-IsRegistry, set_conns-IsRegistry}
use qtun.App.Routes.{any_live}
use qtun.App.Forward.{Answers, route_addrs, forward-Answers, IsSent, forward-IsSent}
use qtun.App.Clean.{in_route, clean_route_lem}
use qtun.App.Receive.{
  ping_envelope, packet_envelope, packet_answer, server_on_data-ping, on_data-packet,
}
use qtun.App.Tunnel.{read_process-packets}

-- A codec for the tests: a tag, and the payload or the announced address, for the IP `1`.
abbrev toy_marshal : Option EnvelopeType → Bytes
toy_marshal none = []
toy_marshal (some (envelope_ping p)) = 0 ∷ p.local_addr
toy_marshal (some (envelope_packet p)) = 1 ∷ p.payload.bytes

abbrev hello : Bytes → MessagePing
hello addr = record {
  timestamp = 0;
  local_addr = addr;
  local_private_addr = [];
  ip = 1 ∷ [];
  dc = [];
}

abbrev packet : Bytes → PacketIp
packet bytes = record { bytes = bytes; spare = [] }

abbrev toy_unmarshal : Bytes → Option Envelope
toy_unmarshal [] = none
toy_unmarshal (zero ∷ bs) = some (ping_envelope (hello bs))
toy_unmarshal (suc _ ∷ bs) = some (packet_envelope (packet bs))

abbrev pub toy_codec : Codec
toy_codec = record { marshal = λ e. toy_marshal e.type; unmarshal = toy_unmarshal; spare = λ n. [] }

pub toy_codec-IsCodec : IsCodec toy_codec
toy_codec-IsCodec = record { packets = λ p. refl }

abbrev quiet : Bytes → Stream
quiet input = record { input = input; ending = eof; output = []; faults = [] }

abbrev pub accepted : ConnId → ServerConn
accepted c = new_server_conn (some (quiet [])) [] false

abbrev pub start : App
start = new_app (new_server [] [] accepted)

pub start-IsRegistry : IsRegistry start.server
unfolding new_app
start-IsRegistry = new_server-IsRegistry [] [] accepted

abbrev pub twenty : PacketIp
twenty = packet (replicate 20 7)

abbrev pub twenty_sent : Message
twenty_sent = record { random = λ n. ok (replicate n 9); nonce = []; payload = 1 ∷ replicate 20 7 }

read_process-packets_example :
    (read_process none cipher_not_match
        (λ buf. server_on_data toy_codec buf 3)
        (quiet (frames none (twenty_sent ∷ [])))
        start
      ≡ record {
        exit = read_failed (io eof);
        conn = quiet [];
        state = record start { written = start.written ++ (replicate 20 7 ∷ []) };
      })
    × (read_process none cipher_not_match
          (client_on_data toy_codec)
          (quiet (frames none (twenty_sent ∷ [])))
          start
        ≡ record {
          exit = read_failed (io eof);
          conn = quiet [];
          state = record start { written = start.written ++ (replicate 20 7 ∷ []) };
        })
read_process-packets_example =
    read_process-packets toy_codec none 0 cipher_not_match 3 (twenty ∷ []) (twenty_sent ∷ [])
      (quiet []) start toy_codec-IsCodec (omega arith, tt) refl (omega arith, tt)

-- The server after a ping from `[5]` for the IP `[1]`.
abbrev pinged : App
pinged = (server_on_data toy_codec (0 ∷ 5 ∷ []) 3 start).1

forward-Answers_example :
    Answers
      (any_live pinged.server (route_addrs (1 ∷ []) pinged))
      (forward (route_fuel (1 ∷ []) pinged) (λ n. n) toy_codec twenty (1 ∷ []) pinged).0
forward-Answers_example = forward-Answers (λ n. n) toy_codec twenty (1 ∷ []) pinged

abbrev after_send : App
after_send = record pinged { server = send_packet toy_codec twenty 3 pinged.server }

pinged_sends : forward 2 (λ n. n) toy_codec twenty (1 ∷ []) pinged ≡ (sent 3, after_send)
unfolding forward server_on_data new_app new_server add_route set_conns new_server_conn is_dead
    lookup insert bytes_discrete
pinged_sends = refl

forward-IsSent_example : IsSent toy_codec twenty (1 ∷ []) pinged after_send 3
forward-IsSent_example =
    forward-IsSent 2 (λ n. n) toy_codec twenty (1 ∷ []) pinged after_send 3 pinged_sends

server_on_data-ping_example :
    (in_route (lookup (1 ∷ []) pinged.routes) (5 ∷ [])
      ≡ ite
          (bytes_discrete (1 ∷ []) (1 ∷ []))
          (ite
            (bytes_discrete (5 ∷ []) (5 ∷ []))
            (some tt)
            (in_route (lookup (1 ∷ []) start.routes) (5 ∷ [])))
          (in_route (lookup (1 ∷ []) start.routes) (5 ∷ [])))
    × (get_conns_by_addr pinged.server (5 ∷ []) ≡ elim (get_conns_by_addr start.server (5 ∷ [])) [
      | some o ↦ some o
      | none ↦ ite (bytes_discrete (5 ∷ []) (5 ∷ [])) (some 3) none
    ])
    × (pinged.written ≡ start.written)
server_on_data-ping_example =
    server_on_data-ping toy_codec (0 ∷ 5 ∷ []) (hello (5 ∷ [])) 3 start (1 ∷ []) (5 ∷ [])
      start-IsRegistry refl

on_data-packet_example :
    (server_on_data toy_codec (1 ∷ 8 ∷ []) 3 start ≡ packet_answer (packet (8 ∷ [])) start)
    × (client_on_data toy_codec (1 ∷ 8 ∷ []) start ≡ packet_answer (packet (8 ∷ [])) start)
on_data-packet_example = on_data-packet toy_codec (1 ∷ 8 ∷ []) 3 (packet (8 ∷ [])) start refl

-- A route with an address that is registered and one that is not.
abbrev pub mixed : App
mixed = record {
  routes = (1 ∷ [], (5 ∷ [], tt) ∷ (6 ∷ [], tt) ∷ []) ∷ [];
  server = (set_conns (5 ∷ []) (some 3) (new_server [] [] accepted)).1;
  written = [];
}

pub mixed-IsRegistry : IsRegistry mixed.server
unfolding new_server new_server_conn
mixed-IsRegistry =
    set_conns-IsRegistry (new_server [] [] accepted) (5 ∷ []) 3
      (new_server-IsRegistry [] [] accepted) (λ e. cc)

clean_route_lem_example :
    (in_route (lookup (1 ∷ []) (clean_route mixed).routes) (6 ∷ []) ≡ (
      if is_dead mixed.server (6 ∷ [])
      then none
      else in_route (lookup (1 ∷ []) mixed.routes) (6 ∷ [])))
    × (is_dead (clean_route mixed).server (6 ∷ []) ≡ is_dead mixed.server (6 ∷ []))
    × IsRegistry (clean_route mixed).server
clean_route_lem_example = clean_route_lem mixed (1 ∷ []) (6 ∷ []) mixed-IsRegistry

mixed_cleaned : (clean_route mixed).routes ≡ (1 ∷ [], (5 ∷ [], tt) ∷ []) ∷ []
unfolding clean_route clean_routes clean_conns is_dead set_conns new_server new_server_conn lookup
    insert delete bytes_discrete get_conns_by_addr register
mixed_cleaned = refl
