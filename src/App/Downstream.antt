-- ===== src/App/Downstream.antt =====
-- From the server's interface to a client's.
use qtun.Base.{
  zero, suc, ◌+◌, ◌<◌, take, ltb, if◌then◌else◌, length-append, ℕ, ◌%◌, ◌≤◌, ◌≡◌, refl, sym, ap,
  ◌∙◌, ite, false, Option, some, List, [], ◌∷◌, ◌++◌, append-nil, append_assoc, arith, All, length,
  length-replicate, get_elem?, ℕ_discrete, ℕ_key, bytes_key, Bytes, ok,
}
use qtun.Base.Map.{lookup}
use qtun.Stream.{Stream}
use qtun.Transport.Aead.{Aead}
use qtun.Transport.Frame.{ReadError, io}
use qtun.Transport.Frame.RoundTrip.{Message, payloads, frames, IsReady}
use qtun.Transport.ReadLoop.{read_process}
use qtun.Transport.ReadLoop as Loop
use qtun.Transport.ServerConn.{enqueue}
use qtun.Transport.Server.{ConnId, get_conns_by_addr}
use qtun.Iface.{PacketIp, new_packet_ip}
use qtun.Protocol.{Codec, IsCodec}
use qtun.App.{App, client_on_data, is_dead, send_packet, sent, forward, fuel_of, keys, route_fuel}
use qtun.App.Forward.{forward_live}
use qtun.App.Tunnel.{packet_payloads, contents, HasHeader, read_process-packets}
use qtun.App.Fetch.{read_into, destination, FetchEnd, read_failed, waits, has_room, fetch_server}
use qtun.App.Fetch.Worker.{length-read_into}
use qtun.App.Receive.{packet_envelope}

-- The worker's buffer behind each read.
abbrev pub buffers : List Bytes → PacketIp → List PacketIp
buffers [] pkt = []
buffers (packet ∷ more) pkt = read_into packet pkt ∷ buffers more (read_into packet pkt)

-- The destination's route has one address, of an open connection that takes payloads.
pub record IsOnlyRoute (dst addr : Bytes) (c : ConnId) (app : App) : Type 0 where
  pub route : lookup dst app.routes ≡ some ((addr, tt) ∷ [])
  pub target : get_conns_by_addr app.server addr ≡ some c
  pub is_open : (app.server.heap c).is_closed ≡ false
  pub takes : (app.server.heap c).write_closed ≡ false

abbrev went_out : Codec → PacketIp → ConnId → App → App
went_out codec pkt c app = record app { server = send_packet codec pkt c app.server }

-- The connection behind a packet that went out to it.
heap-send_packet :
    (codec : Codec) (pkt : PacketIp) (c : ConnId) (app : App)
    → (went_out codec pkt c app).server.heap c
      ≡ enqueue (codec.marshal (packet_envelope pkt)) (app.server.heap c)
unfolding send_packet
heap-send_packet codec pkt c app =
    elim (ℕ_discrete c c)
      as (λ d.
        ite d (enqueue (codec.marshal (packet_envelope pkt)) (app.server.heap c))
          (app.server.heap c)
        ≡ enqueue (codec.marshal (packet_envelope pkt)) (app.server.heap c)) [
          | yes same ↦ refl
          | no other ↦ absurd (other refl)
        ]

send_packet-IsOnlyRoute :
    (codec : Codec) (pkt : PacketIp) (dst addr : Bytes) (c : ConnId) (app : App)
    → IsOnlyRoute dst addr c app
    → IsOnlyRoute dst addr c (went_out codec pkt c app)
      × (((went_out codec pkt c app).server.heap c).chan_write
          ≡ (app.server.heap c).chan_write ++ (codec.marshal (packet_envelope pkt) ∷ []))
unfolding enqueue get_conns_by_addr send_packet
send_packet-IsOnlyRoute codec pkt dst addr c app v =
    let there = heap-send_packet codec pkt c app in
    (
      record {
        route = v.route;
        target = v.target;
        is_open = ground (arith, there, v.is_open, v.takes);
        takes = ground (arith, there, v.takes);
      },
      ground (arith, there, v.takes),
    )

forward-IsOnlyRoute :
    (rand : ℕ → ℕ) (codec : Codec) (pkt : PacketIp) (dst addr : Bytes) (c : ConnId) (app : App)
    → IsOnlyRoute dst addr c app
    → forward (route_fuel dst app) rand codec pkt dst app ≡ (sent c, went_out codec pkt c app)
unfolding route_fuel is_dead
forward-IsOnlyRoute rand codec pkt dst addr c app v =
    let pick : get_elem? (keys ((addr, tt) ∷ [])) (rand 1 % 1) ≡ some addr =
      first (rand 1 % 1) (omega arith) in
    let live : is_dead app.server addr ≡ false = ground (arith, v.target, v.is_open) in
    let (d, at_addr, open_conn, out) =
      forward_live 1 rand codec pkt dst app ((addr, tt) ∷ []) addr v.route pick live in
    let same : d ≡ c = cc in
    ap (λ o. forward (fuel_of o) rand codec pkt dst app) v.route
    ∙ out
    ∙ ap (λ x. (sent x, went_out codec pkt x app)) same
  where
    first : (i : ℕ) → i ≡ 0 → get_elem? (addr ∷ []) i ≡ some addr
    first i zero_i = ground (arith, zero_i)

fetch_server-next :
    (rand : ℕ → ℕ → ℕ) (codec : Codec) (packet : Bytes) (more : List Bytes) (pkt : PacketIp)
    (dst : Bytes) (c : ConnId) (app app' : App)
    → destination (read_into packet pkt) ≡ ok dst
    → forward (route_fuel dst app) (rand (length more)) codec (read_into packet pkt) dst app
      ≡ (sent c, app')
    → length (app.server.heap c).chan_write < 2
    → ((fetch_server rand codec (packet ∷ more) pkt app).0
        ≡ (fetch_server rand codec more (read_into packet pkt) app').0)
      × ((fetch_server rand codec (packet ∷ more) pkt app).2
          ≡ (fetch_server rand codec more (read_into packet pkt) app').2)
unfolding fetch_server has_room
fetch_server-next rand codec packet more pkt dst c app app' there done room =
    (ground (arith, there, done), ground (arith, there, done))

fetch_server-waits :
    (rand : ℕ → ℕ → ℕ) (codec : Codec) (packet : Bytes) (more : List Bytes) (pkt : PacketIp)
    (dst : Bytes) (c : ConnId) (app app' : App)
    → destination (read_into packet pkt) ≡ ok dst
    → forward (route_fuel dst app) (rand (length more)) codec (read_into packet pkt) dst app
      ≡ (sent c, app')
    → length (app.server.heap c).chan_write ≡ 2
    → (app.server.heap c).write_closed ≡ false
    → ((fetch_server rand codec (packet ∷ more) pkt app).0 ≡ waits)
      × ((fetch_server rand codec (packet ∷ more) pkt app).2 ≡ app')
unfolding fetch_server has_room
fetch_server-waits rand codec packet more pkt dst c app app' there done full open_chan =
    (ground (arith, there, done), ground (arith, there, done))

-- How the worker ends, with that much room in the channel: at a failed read, or waiting.
abbrev pub end_with : ℕ → List Bytes → FetchEnd
end_with room reads = if ltb room (length reads) then waits else read_failed

pub fetch_server-queue :
    (rand : ℕ → ℕ → ℕ) (codec : Codec) (reads : List Bytes) (pkt : PacketIp) (dst addr : Bytes)
    (c : ConnId) (room : ℕ) (app : App)
    → IsOnlyRoute dst addr c app
    → length (app.server.heap c).chan_write + room ≡ 2
    → All (λ p. destination p ≡ ok dst) (buffers reads pkt)
    → ((fetch_server rand codec reads pkt app).0 ≡ end_with room reads)
      × (((fetch_server rand codec reads pkt app).2.server.heap c).chan_write
          ≡ (app.server.heap c).chan_write
            ++ packet_payloads codec (buffers (take (suc room) reads) pkt))
unfolding fetch_server
fetch_server-queue rand codec [] pkt dst addr c room app v fits to_dst =
    (ground arith, sym (append-nil (app.server.heap c).chan_write))
fetch_server-queue rand codec (packet ∷ more) pkt dst addr c zero app v fits (there, to_dst) =
    let pkt' : PacketIp = read_into packet pkt in
    let app' : App = went_out codec pkt' c app in
    let (v', grown) = send_packet-IsOnlyRoute codec pkt' dst addr c app v in
    let (end, whole) =
      fetch_server-waits rand codec packet more pkt dst c app app' there
        (forward-IsOnlyRoute (rand (length more)) codec pkt' dst addr c app v) (omega (arith, fits))
        v.takes in
    (ground (arith, end), ap (λ (a : App). (a.server.heap c).chan_write) whole ∙ grown)
fetch_server-queue rand codec (packet ∷ more) pkt dst addr c (suc room) app v fits (there, to_dst) =
    let pkt' : PacketIp = read_into packet pkt in
    let app' : App = went_out codec pkt' c app in
    let (v', grown) = send_packet-IsOnlyRoute codec pkt' dst addr c app v in
    let one : List Bytes = codec.marshal (packet_envelope pkt') ∷ [] in
    let (end, whole) =
      fetch_server-next rand codec packet more pkt dst c app app' there
        (forward-IsOnlyRoute (rand (length more)) codec pkt' dst addr c app v)
        (omega (arith, fits)) in
    let fits' : length (app'.server.heap c).chan_write + room ≡ 2 =
      omega (arith, ap length grown, length-append (app.server.heap c).chan_write one, fits) in
    let (rest_end, rest) =
      fetch_server-queue rand codec more pkt' dst addr c room app' v' fits' to_dst in
    (
      end ∙ rest_end ∙ ground arith,
      ap (λ (a : App). (a.server.heap c).chan_write) whole
          ∙ rest
          ∙ ap
              (λ (l : List Bytes). l ++ packet_payloads codec (buffers (take (suc room) more) pkt'))
              grown
          ∙ append_assoc (app.server.heap c).chan_write one _,
    )

buffers-All :
    (reads : List Bytes) (pkt : PacketIp)
    → 20 ≤ length pkt.bytes
    → All HasHeader (buffers reads pkt)
buffers-All [] pkt le = tt
buffers-All (packet ∷ more) pkt le =
    let le' : 20 ≤ length (read_into packet pkt).bytes =
      omega (arith, length-read_into packet pkt) in
    (le', buffers-All more (read_into packet pkt) le')

-- What a worker of the server sends comes out at a client's interface. What it reads is for one IP,
-- whose route has one address, of an open connection that takes payloads and on which nothing waits,
-- and whose `writeProcess` takes nothing meanwhile. Then the worker sends the first two messages at
-- once and waits in the sending of the third, so that it goes on to a failed read if and only if
-- there are no more than two. When the frames of these messages, three at most, then come in at the
-- client, its read loop writes to its interface, once each and in order, what the worker's buffer held
-- behind each read, which is the whole buffer with whatever an earlier read left behind the packet,
-- and changes nothing else. The MTU is 20 or more, the codec decodes packets, the ends share their
-- cipher setting, and the messages fit their frames.
pub fetch_server-client_on_data :
    (rand : ℕ → ℕ → ℕ) (codec : Codec) (reads : List Bytes) (mtu : ℕ) (dst addr : Bytes)
    (c : ConnId) (app : App) (k : Option Aead) (overhead : ℕ) (refused : ReadError)
    (ms : List Message) (s : Stream) (client : App)
    → 20 ≤ mtu
    → All (λ p. destination p ≡ ok dst) (buffers reads (new_packet_ip mtu))
    → IsOnlyRoute dst addr c app
    → (app.server.heap c).chan_write ≡ []
    → IsCodec codec
    → All (IsReady k overhead) ms
    → payloads ms
      ≡ ((fetch_server rand codec reads (new_packet_ip mtu) app).2.server.heap c).chan_write
    → ((fetch_server rand codec reads (new_packet_ip mtu) app).0 ≡ end_with 2 reads)
      × (read_process k refused (client_on_data codec) (record s { input = frames k ms }) client
          ≡ record {
            exit = Loop.read_failed (io s.ending);
            conn = record s { input = [] };
            state = record client {
              written = client.written ++ contents (buffers (take 3 reads) (new_packet_ip mtu));
            };
          })
unfolding new_packet_ip
fetch_server-client_on_data rand codec reads mtu dst addr c app k overhead refused ms s client le
      to_dst v empty decodes ready same =
    let sends : List PacketIp = buffers (take 3 reads) (new_packet_ip mtu) in
    let (end, queue) =
      fetch_server-queue rand codec reads (new_packet_ip mtu) dst addr c 2 app v
        (omega (arith, ap length empty)) to_dst in
    let in_queue = ap (λ (l : List Bytes). l ++ packet_payloads codec sends) empty in
    let headers =
      buffers-All (take 3 reads) (new_packet_ip mtu)
        (omega (arith, length-replicate {A = ℕ} mtu 0)) in
    (
      end,
      (read_process-packets codec k overhead refused c sends ms s client decodes ready
          (same ∙ queue ∙ in_queue) headers).1,
    )
