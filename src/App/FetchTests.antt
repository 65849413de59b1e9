-- ===== src/App/FetchTests.antt =====
-- Runs of the workers on small inputs, and their theorems at such inputs.
use qtun.Base.{
  All, take, length, ◌≡◌, ℕ_discrete, refl, none, List, [], ◌∷◌, ◌++◌, arith, replicate, Bytes,
}
use qtun.Iface.{PacketIp, new_packet_ip, slice_ip, get_source_ip, get_destination_ip, ip_string}
use qtun.Transport.Client.{write, next_index, write_at}
use qtun.Transport.Client.Start.{send_packet}
use qtun.Transport.Tests.{two_threads, two_threads-IsStarted}
use qtun.Stream.{eof}
use qtun.Transport.Frame.{io, cipher_not_match}
use qtun.Transport.Frame.RoundTrip.{frames}
use qtun.Transport.ReadLoop.{read_failed, read_process}
use qtun.Base.{◌∙◌, sym, ap, some, text, ok, ℕ_key, bytes_key, bytes_discrete}
use qtun.Base.Map.{lookup, insert}
use qtun.Transport.ServerConn.{new_server_conn}
use qtun.Transport.Server.{new_server, set_conns, register, get_conns_by_addr}
use qtun.App.Downstream.{
  buffers, end_with, IsOnlyRoute, fetch_server-queue, fetch_server-client_on_data,
}
use qtun.App.{App, new_app, server_on_data, client_on_data}
use qtun.App.Tunnel.{contents}
use qtun.App.Fetch.{read_into, destination, fetch_client, fetch_server}
use qtun.App.Fetch.Worker.{Carries}
use qtun.App.Whole.{pick, fetch_client-server_on_data}
use qtun.App.Tests.{toy_codec, toy_codec-IsCodec, twenty_sent, start}
use qtun.Transport.Tests.{quiet}

-- A long packet and a short one.
abbrev reads : List Bytes
reads = replicate 20 7 ∷ (1 ∷ 2 ∷ []) ∷ []

fetch_client-server_on_data_example :
    (pkts : List PacketIp) × Carries (replicate 20 0) reads pkts
    × (read_process none cipher_not_match
          (λ buf. server_on_data toy_codec buf 3)
          (quiet (frames none (twenty_sent ∷ [])))
          start
        ≡ record {
          exit = read_failed (io eof);
          conn = quiet [];
          state = record start {
            written =
                start.written
                ++ contents (
                    pick 1
                      (fetch_client toy_codec reads (new_packet_ip 20) two_threads).1.handed
                      pkts);
          };
        })
unfolding fetch_client read_into destination new_packet_ip slice_ip get_source_ip get_destination_ip
    send_packet write next_index write_at ℕ_discrete
fetch_client-server_on_data_example =
    fetch_client-server_on_data toy_codec reads 20 two_threads 1 none 0 cipher_not_match 3
      (twenty_sent ∷ []) (quiet []) start two_threads-IsStarted refl (omega arith) (omega arith)
      (omega arith, (omega arith, tt)) toy_codec-IsCodec (omega arith, tt) refl

-- The second message ends in what the first packet left in the buffer.
stale_tail :
    (fetch_client toy_codec reads (new_packet_ip 20) two_threads).1.handed
    ≡ (1, 1 ∷ replicate 20 7) ∷ (0, 1 ∷ 1 ∷ 2 ∷ replicate 18 7) ∷ []
unfolding fetch_client read_into destination new_packet_ip slice_ip get_source_ip get_destination_ip
    send_packet write next_index write_at
stale_tail = refl

-- A server with a route to `7.7.7.7` over the connection 3.
abbrev routed : App
routed = record start {
  routes = (text "7.7.7.7", (5 ∷ [], tt) ∷ []) ∷ [];
  server = (set_conns (5 ∷ []) (some 3) start.server).1;
}

routed-IsOnlyRoute : IsOnlyRoute (text "7.7.7.7") (5 ∷ []) 3 routed
unfolding new_app new_server new_server_conn set_conns register lookup insert get_conns_by_addr
    bytes_discrete
routed-IsOnlyRoute = record { route = refl; target = refl; is_open = refl; takes = refl }

-- Four packets come; the third message finds the channel full.
abbrev four : List Bytes
four = replicate 4 (replicate 20 7)

four_destinations : All (λ p. destination p ≡ ok (text "7.7.7.7")) (buffers four (new_packet_ip 20))
unfolding destination read_into new_packet_ip slice_ip get_source_ip get_destination_ip ip_string
four_destinations = (refl, (refl, (refl, (refl, tt))))

nothing_waits : (routed.server.heap 3).chan_write ≡ []
unfolding new_app new_server new_server_conn set_conns register lookup
nothing_waits = refl

four_queued :
    ((fetch_server (λ i n. n) toy_codec four (new_packet_ip 20) routed).2.server.heap 3).chan_write
    ≡ replicate 3 (1 ∷ replicate 20 7)
unfolding read_into new_packet_ip
four_queued =
    (fetch_server-queue (λ i n. n) toy_codec four (new_packet_ip 20) (text "7.7.7.7") (5 ∷ []) 3 2
      routed routed-IsOnlyRoute (omega (arith, ap length nothing_waits)) four_destinations).1
    ∙ ap (λ (l : List Bytes). l ++ replicate 3 (1 ∷ replicate 20 7)) nothing_waits

fetch_server-client_on_data_example :
    ((fetch_server (λ i n. n) toy_codec four (new_packet_ip 20) routed).0 ≡ end_with 2 four)
    × (read_process none cipher_not_match
          (client_on_data toy_codec)
          (quiet (frames none (replicate 3 twenty_sent)))
          start
        ≡ record {
          exit = read_failed (io eof);
          conn = quiet [];
          state = record start {
            written = start.written ++ contents (buffers (take 3 four) (new_packet_ip 20));
          };
        })
fetch_server-client_on_data_example =
    fetch_server-client_on_data (λ i n. n) toy_codec four 20 (text "7.7.7.7") (5 ∷ []) 3 routed none
      0 cipher_not_match (replicate 3 twenty_sent) (quiet []) start (omega arith) four_destinations
      routed-IsOnlyRoute nothing_waits toy_codec-IsCodec
      (omega arith, (omega arith, (omega arith, tt))) (sym four_queued)
