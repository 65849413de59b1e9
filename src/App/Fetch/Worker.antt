-- ===== src/App/Fetch/Worker.antt =====
-- What a worker makes of the packets that it reads.
use qtun.Base.{
  length-overwrite, take_all, length-replicate, ℕ, ◌+◌, ◌^◌, ◌≤◌, ◌<◌, ◌≡◌, refl, sym, some, List,
  ◌%◌, [], ◌∷◌, ◌++◌, map, arith, length, length-append, take, drop, replicate, All, Bytes, ok,
  append-nil, append_assoc, ap, ◌∙◌, ℕ_key, bytes_key,
}
use mathlib.Core.Path.{subst}
use qtun.Iface.{PacketIp, new_packet_ip, slice_ip, get_source_ip, get_destination_ip, ip_string}
use qtun.Protocol.{Codec, envelope_packet}
use qtun.Transport.Client.{Client, write}
use qtun.Transport.Client.Balance.{IsStarted, write-started}
use qtun.Transport.Client.Start.{send_packet}
use qtun.App.Fetch.{read_into, destination, FetchEnd, read_failed, fetch_client}

pub length-read_into :
    (packet : Bytes) (pkt : PacketIp) → length (read_into packet pkt).bytes ≡ length pkt.bytes
unfolding read_into
length-read_into packet pkt = length-overwrite packet pkt.bytes

destination-ok :
    (pkt : PacketIp) → 20 ≤ length pkt.bytes → (dst : Bytes) × (destination pkt ≡ ok dst)
unfolding destination get_source_ip get_destination_ip slice_ip
destination-ok pkt le =
    let long : 20 ≤ length (pkt.bytes ++ pkt.spare) =
      omega (arith, length-append pkt.bytes pkt.spare) in
    (ip_string (take 4 (drop 16 (pkt.bytes ++ pkt.spare))), ground arith)

abbrev pub packet_message : Codec → PacketIp → Bytes
packet_message codec pkt =
    codec.marshal (record { type = some (envelope_packet (record { payload = pkt })) })

-- What was sent for each packet: the packet, and behind it what the buffer held there before.
abbrev pub Carries : Bytes → List Bytes → List PacketIp → Type 0
Carries before [] [] = Unit {0}
Carries before (packet ∷ more) (pkt ∷ pkts) =
    (pkt.bytes ≡ packet ++ drop (length packet) before) × Carries pkt.bytes more pkts
Carries before _ _ = ⊥

fetch_client-next :
    (codec : Codec) (packet : Bytes) (more : List Bytes) (pkt : PacketIp) (c c' : Client)
    (dst : Bytes)
    → destination (read_into packet pkt) ≡ ok dst
    → write (packet_message codec (read_into packet pkt)) c ≡ (ok tt, c')
    → fetch_client codec (packet ∷ more) pkt c ≡ fetch_client codec more (read_into packet pkt) c'
unfolding fetch_client send_packet
fetch_client-next codec packet more pkt c c' dst there done = ground (arith, there, done)

fetch_client-Carries :
    (codec : Codec) (reads : List Bytes) (pkt : PacketIp) (c : Client)
    → IsStarted c
    → c.serial + length reads < 2 ^ 63
    → 20 ≤ length pkt.bytes
    → All (λ packet. length packet ≤ length pkt.bytes) reads
    → (pkts : List PacketIp) × (to : List (ℕ × Bytes)) × Carries pkt.bytes reads pkts
      × ((fetch_client codec reads pkt c).0 ≡ read_failed)
      × ((fetch_client codec reads pkt c).1.handed ≡ c.handed ++ to)
      × (map (λ t. t.1) to ≡ map (packet_message codec) pkts)
unfolding fetch_client read_into
fetch_client-Carries codec [] pkt c v small le fits =
    ([], [], tt, refl, sym (append-nil c.handed), refl)
fetch_client-Carries codec (packet ∷ more) pkt c v small le (fit, fits) =
    let pkt' : PacketIp = read_into packet pkt in
    let same = length-read_into packet pkt in
    let le' : 20 ≤ length pkt'.bytes = omega (arith, same) in
    let (dst, there) = destination-ok pkt' le' in
    let one : ℕ × Bytes = ((c.serial + 1) % c.threads, packet_message codec pkt') in
    let c' : Client = record c { serial = c.serial + 1; handed = c.handed ++ (one ∷ []) } in
    let written = write-started (packet_message codec pkt') c v (omega arith) in
    let (pkts, to, carried, end, handed, told) =
      fetch_client-Carries codec more pkt' c'
        (record { some_threads = v.some_threads; all_there = v.all_there; connected = v.connected })
        (omega arith) le' (subst (λ n. All (λ packet. length packet ≤ n) more) (sym same) fits) in
    let onward = fetch_client-next codec packet more pkt c c' dst there written in
    let front : pkt'.bytes ≡ packet ++ drop (length packet) pkt.bytes =
      ap (λ (l : Bytes). l ++ drop (length packet) pkt.bytes)
        (take_all (length pkt.bytes) packet fit) in
    (
      pkt' ∷ pkts,
      one ∷ to,
      (front, carried),
      ap (λ (r : FetchEnd × Client). r.0) onward ∙ end,
      ap (λ (r : FetchEnd × Client). r.1.handed) onward
          ∙ handed
          ∙ append_assoc c.handed (one ∷ []) to,
      ap (◌∷◌ (packet_message codec pkt')) told,
    )

-- A worker of a started client whose MTU is at least 20 goes on until a read fails, and hands over
-- one message for each packet that it has read, in order. What a message carries is the whole buffer:
-- the packet, and behind it what the buffer held there before, zeros or the end of an earlier
-- packet. The packets fit the MTU, and the serial number stays below 2 ^ 63.
pub fetch_client-whole :
    (codec : Codec) (reads : List Bytes) (mtu : ℕ) (c : Client)
    → IsStarted c
    → c.serial + length reads < 2 ^ 63
    → 20 ≤ mtu
    → All (λ packet. length packet ≤ mtu) reads
    → (pkts : List PacketIp) × (to : List (ℕ × Bytes)) × Carries (replicate mtu 0) reads pkts
      × ((fetch_client codec reads (new_packet_ip mtu) c).0 ≡ read_failed)
      × ((fetch_client codec reads (new_packet_ip mtu) c).1.handed ≡ c.handed ++ to)
      × (map (λ t. t.1) to ≡ map (packet_message codec) pkts)
unfolding new_packet_ip
fetch_client-whole codec reads mtu c v small le fits =
    let size = length-replicate {A = ℕ} mtu 0 in
    fetch_client-Carries codec reads (new_packet_ip mtu) c v small (omega (arith, size))
      (subst (λ n. All (λ packet. length packet ≤ n) reads) (sym size) fits)
