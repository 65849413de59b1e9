-- ===== src/App/Fetch.antt =====
-- qtun/app.go: `FetchAndProcessTunPkt`, one worker's loop over what it reads from the tunnel
-- interface, in both modes. The reads are the packets that come, until one fails.
pub mod Worker
use qtun.Base.{
  List, [], ◌∷◌, ◌++◌, length, take, drop, ℕ, Bytes, Panic, Result, ok, err, panic, Bool, true,
  ◌||◌, ltb, if◌then◌else◌,
}
use qtun.Iface.{PacketIp, get_source_ip, get_destination_ip, ip_string}
use qtun.Protocol.{Codec}
use qtun.Transport.Client.{Client}
use qtun.Transport.Client.Start.{send_packet}
use qtun.App.{App, Verdict, sent, forward, route_fuel}

-- `Read` into the one buffer of the worker: it overwrites the front, and cuts a packet that is longer.
unfoldable pub read_into : Bytes → PacketIp → PacketIp
read_into packet pkt = record pkt {
  bytes = take (length pkt.bytes) packet ++ drop (length packet) pkt.bytes;
}

-- The destination; the source is worked out as well, for the log.
unfoldable pub destination : PacketIp → Result (Unit {0}) Bytes
destination pkt = elim (get_source_ip pkt) [
  | ok _ ↦ elim (get_destination_ip pkt) [
    | ok ip ↦ ok (ip_string ip)
    | err e ↦ err e
    | panic p ↦ panic p
  ]
  | err e ↦ err e
  | panic p ↦ panic p
]

pub data FetchEnd : Type 0 where
  read_failed : FetchEnd
  -- A panic, which nothing recovers.
  crashed : Panic → FetchEnd
  -- A send found no room, or no receiver, and waits; nothing more is read until it comes back.
  waits : FetchEnd

-- The connection's channel, before the send, has a place for one more message, or is closed.
unfoldable pub has_room : Verdict → App → Bool
has_room (sent c) app =
    (app.server.heap c).write_closed || ltb (length (app.server.heap c).chan_write) 2
has_room verdict app = true

-- The loop in server mode, with what became of each packet, as far as the worker gets by itself:
-- where the channel is full it waits with its message in hand, which stands at the queue's end.
unfoldable pub fetch_server :
    (ℕ → ℕ → ℕ) → Codec → List Bytes → PacketIp → App → FetchEnd × List Verdict × App
fetch_server rand codec [] pkt app = (read_failed, [], app)
fetch_server rand codec (packet ∷ more) pkt app =
    let pkt' : PacketIp = read_into packet pkt in
    elim (destination pkt') [
      | ok dst ↦
          let (verdict, app') =
            forward (route_fuel dst app) (rand (length more)) codec pkt' dst app in
          let (end, verdicts, app'') = fetch_server rand codec more pkt' app' in
          if has_room verdict app
          then (end, verdict ∷ verdicts, app'')
          else (waits, verdict ∷ [], app')
      | err _ ↦ (read_failed, [], app)
      | panic p ↦ (crashed p, [], app)
    ]

-- The loop in client mode.
unfoldable pub fetch_client : Codec → List Bytes → PacketIp → Client → FetchEnd × Client
fetch_client codec [] pkt c = (read_failed, c)
fetch_client codec (packet ∷ more) pkt c =
    let pkt' : PacketIp = read_into packet pkt in
    elim (destination pkt') [
      | ok dst ↦
          let (outcome, c') = send_packet codec pkt' c in
          let rest = fetch_client codec more pkt' c' in
          elim outcome [ ok _ ↦ rest | err _ ↦ (waits, c') | panic p ↦ (crashed p, c') ]
      | err _ ↦ (read_failed, c)
      | panic p ↦ (crashed p, c)
    ]
