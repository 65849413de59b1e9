-- ===== src/App/Whole.antt =====
-- From the client's interface to the server's: a worker's reads, the connections that the messages
-- go over, and the read loops at the other end.
use qtun.Base.{
  ℕ, ◌+◌, ◌^◌, ◌≤◌, ◌<◌, ◌≡◌, refl, sym, ap, ◌∙◌, ite, Option, List, [], ◌∷◌, ◌++◌, map, arith,
  length, length-append, length-drop, drop, replicate, length-replicate, All, ℕ_discrete, Bytes,
}
use mathlib.Core.Path.{subst}
use qtun.Stream.{Stream}
use qtun.Transport.Aead.{Aead}
use qtun.Transport.Server.{ConnId}
use qtun.Transport.Frame.{ReadError, io}
use qtun.Transport.Frame.RoundTrip.{Message, payloads, frames, IsReady}
use qtun.Transport.ReadLoop.{read_failed, read_process}
use qtun.Transport.Client.{Client}
use qtun.Transport.Client.Balance.{IsStarted}
use qtun.Iface.{PacketIp, new_packet_ip}
use qtun.Protocol.{Codec, IsCodec}
use qtun.App.{App, server_on_data}
use qtun.App.Tunnel.{packet_payloads, contents, HasHeader, read_process-packets}
use qtun.App.Fetch.{fetch_client}
use qtun.App.Fetch.Worker.{packet_message, Carries, fetch_client-whole}

-- What goes over one connection, of what was handed over, and of the packets that were.
abbrev pub for_conn : ℕ → List (ℕ × Bytes) → List Bytes
for_conn i [] = []
for_conn i ((j, message) ∷ more) =
    ite (ℕ_discrete j i) (message ∷ for_conn i more) (for_conn i more)

abbrev pub pick : ℕ → List (ℕ × Bytes) → List PacketIp → List PacketIp
pick i ((j, message) ∷ more) (pkt ∷ pkts) =
    ite (ℕ_discrete j i) (pkt ∷ pick i more pkts) (pick i more pkts)
pick i _ _ = []

for_conn-pick :
    (codec : Codec) (i : ℕ) (to : List (ℕ × Bytes)) (pkts : List PacketIp)
    → map (λ t. t.1) to ≡ map (packet_message codec) pkts
    → for_conn i to ≡ packet_payloads codec (pick i to pkts)
for_conn-pick codec i [] [] e = refl
for_conn-pick codec i [] (p ∷ ps) e = absurd (cc)
for_conn-pick codec i ((j, m) ∷ to) [] e = absurd (cc)
for_conn-pick codec i ((j, m) ∷ to) (p ∷ ps) e =
    let rest = for_conn-pick codec i to ps (ap (λ (l : List Bytes). drop 1 l) e) in
    let head : m ≡ packet_message codec p = cc in
    elim (ℕ_discrete j i)
      as (λ d.
        ite d (m ∷ for_conn i to) (for_conn i to)
        ≡ packet_payloads codec (ite d (p ∷ pick i to ps) (pick i to ps))) [
          | yes same ↦ cc
          | no other ↦ rest
        ]

-- Every message carries as many bytes as the buffer has.
Carries-HasHeader :
    (before : Bytes) (reads : List Bytes) (pkts : List PacketIp)
    → 20 ≤ length before
    → All (λ packet. length packet ≤ length before) reads
    → Carries before reads pkts
    → All HasHeader pkts
Carries-HasHeader before [] [] le fits c = tt
Carries-HasHeader before [] (p ∷ ps) le fits c = absurd c
Carries-HasHeader before (r ∷ rs) [] le fits c = absurd c
Carries-HasHeader before (r ∷ rs) (p ∷ ps) le (fit, fits) (e, c) =
    let same : length p.bytes ≡ length before = omega (
      arith,
      ap length e,
      length-append r (drop (length r) before),
      length-drop (length r) before,
    ) in
    (
      omega (arith, same),
      Carries-HasHeader p.bytes rs ps (omega (arith, same))
          (subst (λ n. All (λ packet. length packet ≤ n) rs) (sym same) fits) c,
    )

pick-All :
    (i : ℕ) (to : List (ℕ × Bytes)) (pkts : List PacketIp)
    → All HasHeader pkts
    → All HasHeader (pick i to pkts)
pick-All i [] pkts all = tt
pick-All i (t ∷ to) [] all = tt
pick-All i ((j, m) ∷ to) (p ∷ ps) (h, all) =
    elim (ℕ_discrete j i) as (λ d. All HasHeader (ite d (p ∷ pick i to ps) (pick i to ps))) [
      | yes same ↦ (h, pick-All i to ps all)
      | no other ↦ pick-All i to ps all
    ]

-- What a started client's worker reads from its interface comes out at the server's. For each of the
-- client's connections: when the frames of the messages that the worker handed over to it come in at
-- the other end, the read loop there writes the packets of exactly these messages to the interface,
-- in order, and changes nothing else of the application. Each packet has behind it what the worker's
-- buffer held there before. Each of the client's connections has a `writeProcess` that receives,
-- nothing was handed over before, the packets fit the MTU, which is 20 or
-- more, the serial number stays below 2 ^ 63, the codec decodes what it encoded, the ends share their
-- cipher setting, and the messages fit their frames.
pub fetch_client-server_on_data :
    (codec : Codec) (reads : List Bytes) (mtu : ℕ) (c : Client) (i : ℕ) (k : Option Aead)
    (overhead : ℕ) (refused : ReadError) (conn : ConnId) (ms : List Message) (s : Stream)
    (app : App)
    → IsStarted c
    → c.handed ≡ []
    → c.serial + length reads < 2 ^ 63
    → 20 ≤ mtu
    → All (λ packet. length packet ≤ mtu) reads
    → IsCodec codec
    → All (IsReady k overhead) ms
    → payloads ms ≡ for_conn i (fetch_client codec reads (new_packet_ip mtu) c).1.handed
    → (pkts : List PacketIp) × Carries (replicate mtu 0) reads pkts
      × (read_process k refused
            (λ buf. server_on_data codec buf conn)
            (record s { input = frames k ms })
            app
          ≡ record {
            exit = read_failed (io s.ending);
            conn = record s { input = [] };
            state = record app {
              written =
                  app.written
                  ++ contents
                      (pick i (fetch_client codec reads (new_packet_ip mtu) c).1.handed pkts);
            };
          })
fetch_client-server_on_data codec reads mtu c i k overhead refused conn ms s app v unused small le
      fits decodes ready same =
    let (pkts, to, carried, end, handed, told) =
      fetch_client-whole codec reads mtu c v small le fits in
    let size = length-replicate {A = ℕ} mtu 0 in
    let headers =
      Carries-HasHeader (replicate mtu 0) reads pkts (omega (arith, size))
        (subst (λ n. All (λ packet. length packet ≤ n) reads) (sym size) fits) carried in
    let all_of_it : (fetch_client codec reads (new_packet_ip mtu) c).1.handed ≡ to =
      handed ∙ ap (λ (l : List (ℕ × Bytes)). l ++ to) unused in
    (
      pkts,
      carried,
      (read_process-packets codec k overhead refused conn
          (pick i (fetch_client codec reads (new_packet_ip mtu) c).1.handed pkts) ms s app decodes
          ready (same ∙ for_conn-pick codec i _ pkts (ap (map (λ t. t.1)) all_of_it ∙ told))
          (pick-All i _ pkts headers)).0,
    )
