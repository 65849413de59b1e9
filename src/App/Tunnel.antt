-- ===== src/App/Tunnel.antt =====
-- A run of packets through the tunnel: from `SendPacket` at one end to the interface of the other.
use qtun.Base.{
  ℕ, ◌≤◌, ◌≡◌, refl, ◌∙◌, Option, List, [], ◌∷◌, ◌++◌, map, append-nil, append_assoc, arith, length,
  All, length-append, Bytes, ℕ_key, bytes_key, ok,
}
use qtun.Stream.{Stream}
use qtun.Transport.Server.{ConnId}
use qtun.Iface.{PacketIp}
use qtun.Protocol.{Codec, IsCodec}
use qtun.App.{App, server_on_data, client_on_data}
use qtun.Stream.{Stream}
use qtun.Transport.Aead.{Aead}
use qtun.Transport.Frame.{ReadError, io}
use qtun.Transport.Frame.RoundTrip.{Message, payloads, frames, IsReady}
use qtun.Transport.ReadLoop.{Handler, read_failed, Left, read_process}
use qtun.Transport.ReadLoop.Laws.{handle_all, read_process-frames}
use qtun.App.Receive.{packet_envelope, on_data-packet}

-- The payloads that `SendPacket` hands to the write process.
abbrev pub packet_payloads : Codec → List PacketIp → List Bytes
packet_payloads codec = map λ p. codec.marshal (packet_envelope p)

abbrev pub contents : List PacketIp → List Bytes
contents = map λ p. p.bytes

-- An IPv4 header fits.
abbrev pub HasHeader : PacketIp → Type 0
HasHeader p = 20 ≤ length p.bytes

-- Both handlers write the packet of a marshalled envelope.
handle_packet :
    (codec : Codec) (c : ConnId) (p : PacketIp) (app : App)
    → IsCodec codec
    → HasHeader p
    → (server_on_data codec (codec.marshal (packet_envelope p)) c app
        ≡ (ok tt, record app { written = app.written ++ (p.bytes ∷ []) }))
      × (client_on_data codec (codec.marshal (packet_envelope p)) app
          ≡ (ok tt, record app { written = app.written ++ (p.bytes ∷ []) }))
handle_packet codec c p app v h =
    let got : PacketIp = record { bytes = p.bytes; spare = codec.spare (length p.bytes) } in
    let both = on_data-packet codec (codec.marshal (packet_envelope p)) c got app (v.packets p) in
    let long = length-append p.bytes got.spare in
    (ground (arith, both.0, long), ground (arith, both.1, long))

module _ (codec : Codec) (handler : Handler App)
    (writes : (p : PacketIp) (app : App)
      → HasHeader p
      → handler (codec.marshal (packet_envelope p)) app
        ≡ (ok tt, record app { written = app.written ++ (p.bytes ∷ []) })) where
  handle_all-packets :
      (k : Option Aead) (refused : ReadError) (ps : List PacketIp) (app : App)
      → All HasHeader ps
      → handle_all k refused handler (packet_payloads codec ps) app
        ≡ (ok tt, record app { written = app.written ++ contents ps })
  handle_all-packets k refused [] app h = rw (append-nil app.written) refl
  handle_all-packets k refused (p ∷ ps) app (h, hs) = rw (writes p app h) (
      handle_all-packets k refused ps (record app { written = app.written ++ (p.bytes ∷ []) }) hs
      ∙ rw (append_assoc app.written (p.bytes ∷ []) (contents ps)) refl)

-- Packets that one end sends with `SendPacket` reach the other end's interface: once each, in
-- order, byte for byte. Either end's read loop writes them all, changes nothing else of the
-- application, and leaves when the input ends. The codec decodes what it encoded, the ends share
-- their cipher setting, each frame fits, and each packet has the 20 bytes of an IPv4 header.
pub read_process-packets :
    (codec : Codec) (k : Option Aead) (overhead : ℕ) (refused : ReadError) (c : ConnId)
    (ps : List PacketIp) (ms : List Message) (s : Stream) (app : App)
    → IsCodec codec
    → All (IsReady k overhead) ms
    → payloads ms ≡ packet_payloads codec ps
    → All HasHeader ps
    → let left : Left App = record {
      exit = read_failed (io s.ending);
      conn = record s { input = [] };
      state = record app { written = app.written ++ contents ps };
    } in
      let incoming : Stream = record s { input = frames k ms } in
      (read_process k refused (λ buf. server_on_data codec buf c) incoming app ≡ left)
      × (read_process k refused (client_on_data codec) incoming app ≡ left)
read_process-packets codec k overhead refused c ps ms s app v ready same headers = (
  read_process-frames k refused (λ buf. server_on_data codec buf c) overhead ms s app _ ready
      (rw same (
        handle_all-packets codec (λ buf. server_on_data codec buf c)
          (λ p a h. (handle_packet codec c p a v h).0) k refused ps app headers)),
  read_process-frames k refused (client_on_data codec) overhead ms s app _ ready (
      rw same (
        handle_all-packets codec (client_on_data codec) (λ p a h. (handle_packet codec c p a v h).1)
          k refused ps app headers)),
)
