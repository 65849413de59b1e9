-- ===== src/Transport/ConnTests.antt =====
-- Runs of the two ends of a connection, of the client's start, and their theorems at such runs.
use qtun.Base.{
  ◌+◌, ◌≤◌, ◌≡◌, refl, ◌⊎◌, true, false, none, some, List, [], ◌∷◌, ◌++◌, arith, ltb, inr, Bytes,
  text, nil_dereference, ok, err, panic, if◌then◌else◌,
}
use qtun.Stream.{Stream, read_byte, read_full, write}
use qtun.Transport.Crypto.{crypto, make_aes128gcm}
use qtun.Transport.Frame.{
  plain_frame, unseal_failed, read_frame, read_head, read_slice, write_frame, fill, fill_sealed,
  sealed_frame, flush, flushed,
}
use qtun.Transport.Frame.RoundTrip.{Message, payloads, read_all}
use qtun.Transport.ServerConn.Life.Remaining.{remaining}
use qtun.Transport.ServerConn.Life.Ends.{IsOver, stay, more, winds_down}
use qtun.Transport.ServerConn.Life.Stages.{Stops, Finishes, stop_once}
use qtun.Transport.ServerConn.Life.Sealed.{sends_in_order}
use qtun.Transport.ServerConn.{
  send_close, send_close_from, close_write, new_server_conn, enqueue, write_conn, read_conn,
  read_conn_from,
}
use qtun.Transport.ServerConn.Life as Served
use qtun.Transport.ClientConn.Life as Dialed
use qtun.Transport.ClientConn.Life.Races.{write_lost}
use qtun.Transport.ClientConn.Life.Reconnects.{
  with_writers, writers_pile_up, close_lost, late_write_crashes,
}
use qtun.Transport.Client.Balance.{IsStarted}
use qtun.Transport.Client.Start.{
  Network, new_client, start, stop, connect_wait, connect_all, set_up, init_conn, try_connect,
  wait_connected,
}
use qtun.Transport.Client.Start.Slots.{all_to_nil, start-IsStarted, stop-refused}
use qtun.Transport.ServerConn.{ServerConn}
use qtun.Transport.Server.{ConnId}
use qtun.Transport.Server.Registry.{IsRegistry}
use qtun.Transport.Server.History.{pings, exits, run}
use qtun.Transport.Server.Listen.{Round, no_listener, listens, stream_fails, arrives, start_listen}
use qtun.Transport.Server.Listen.Accepted.{before, start_listen-IsRegistry}
use qtun.Transport.Tests.{toy, toy-IsSound, toy_crypto, quiet, fixed_random}

-- A ping comes over the connection, a payload is offered, and it is written.
abbrev first : Message
first = record { random = fixed_random; nonce = 9 ∷ 9 ∷ []; payload = 1 ∷ 2 ∷ [] }

abbrev pub served : Served.Life
served = record {
  conn = record {
    endpoint = record {
      conn = some (record (quiet []) { output = 1 ∷ 3 ∷ 0 ∷ 7 ∷ 1 ∷ 2 ∷ 9 ∷ 9 ∷ [] });
      aesgcm = some toy;
      buf = [];
    };
    key = text "k";
    chan_write = [];
    write_closed = false;
    chan_close = [];
    is_closed = false;
    no_delay = false;
  };
  reader = Served.serving;
  writer = Served.selecting;
  stream_closed = false;
  known = true;
  removed = false;
  offered = (1 ∷ 2 ∷ []) ∷ [];
  sent = first ∷ [];
  failed_on = [];
  lost = [];
}

pub served-Reach :
    Served.Reach toy_crypto (Served.start (quiet (0 ∷ 0 ∷ 0 ∷ [])) (text "k") false) served
unfolding Served.start new_server_conn crypto make_aes128gcm read_conn read_conn_from read_frame
    read_head read_slice read_byte read_full Served.offer enqueue Served.write_open write_conn
    write_frame fill fill_sealed sealed_frame flush flushed write
served-Reach =
    Served.next
      (Served.next
        (Served.next
          (Served.next (Served.next Served.here (Served.own (Served.reads (Served.keys refl refl))))
            (Served.own (Served.reads (Served.handles {payload = []} true refl refl))))
          (Served.offers (1 ∷ 2 ∷ []) refl))
        (Served.own (Served.written (Served.takes refl refl))))
      (Served.own (Served.written (Served.writes first refl refl refl)))

sends_in_order_example :
    (rest : List Bytes) × (on_stream : Bytes) × (st : Stream) × ((1 ∷ 2 ∷ []) ∷ []
      ≡ payloads (first ∷ []) ++ rest)
    × ((first ∷ [] ≡ []) ⊎ (crypto toy_crypto (text "k") none ≡ ok (some toy)))
    × (served.conn.conn ≡ some st)
    × (st.output ≡ [] ++ on_stream)
    × (read_all 1 (some toy) unseal_failed (record (quiet []) { input = on_stream ++ (5 ∷ []) })
        ≡ (ok (payloads (first ∷ [])), record (quiet []) { input = 5 ∷ [] }))
sends_in_order_example =
    sends_in_order (quiet (0 ∷ 0 ∷ 0 ∷ [])) (text "k") false {s = served} 1 unseal_failed (quiet [])
      (5 ∷ []) served-Reach ((refl, (toy-IsSound, refl), omega arith), tt)

winds_down_example :
    (1 + remaining (record served { reader = Served.leaving }) ≤ remaining served)
    × (IsOver (record served { reader = Served.leaving })
        ⊎ ((u : Served.Life) × Served.Own toy_crypto (record served { reader = Served.leaving }) u))
winds_down_example =
    winds_down (quiet (0 ∷ 0 ∷ 0 ∷ [])) (text "k") false {s = served} served-Reach
      (more stay (Served.reads (Served.breaks refl)))

-- Then the session breaks, and `readProcess` does what it has deferred.
abbrev stopped : Served.Life
stopped = record served {
  conn = record served.conn { is_closed = true; chan_close = true ∷ []; write_closed = true };
  reader = Served.gone;
  stream_closed = true;
  removed = true;
}

stopped-Reach :
    Served.Reach toy_crypto (Served.start (quiet (0 ∷ 0 ∷ 0 ∷ [])) (text "k") false) stopped
unfolding send_close send_close_from close_write
stopped-Reach =
    reads_next
      (reads_next
        (reads_next
          (reads_next
            (reads_next (reads_next served-Reach (Served.breaks refl)) (Served.cleans_up refl))
            (Served.closes_stream refl))
          (Served.marks refl))
        (Served.signals refl refl))
      (Served.closes_chan refl refl)
  where
    reads_next :
        {a s t : Served.Life}
        → Served.Reach toy_crypto a s
        → Served.ReaderStep toy_crypto s t
        → Served.Reach toy_crypto a t
    reads_next r st = Served.next r (Served.own (Served.reads st))

stop_once_example : Stops Served.gone stopped × Finishes Served.selecting stopped
stop_once_example = stop_once (quiet (0 ∷ 0 ∷ 0 ∷ [])) (text "k") false {s = stopped} stopped-Reach

-- The client's end takes a payload and fails to write it.
abbrev failed : Dialed.Life
failed = record Dialed.start {
  runner = Dialed.reading;
  connected = false;
  conn = some false;
  offered = (1 ∷ []) ∷ [];
  lost = (1 ∷ []) ∷ [];
}

write_lost_example :
    (t : Dialed.Life) × Dialed.Reach Dialed.start t
    × (t.offered ≡ (1 ∷ []) ∷ (2 ∷ 3 ∷ []) ∷ [])
    × (t.sent ≡ (1 ∷ []) ∷ (2 ∷ 3 ∷ []) ∷ [])
    × (t.waiting ≡ [])
    × (t.stream ≡ plain_frame (2 ∷ 3 ∷ []))
write_lost_example = write_lost (1 ∷ []) (2 ∷ 3 ∷ [])

writers_pile_up_example : Dialed.Reach Dialed.start (with_writers 3)
writers_pile_up_example = writers_pile_up 2

close_lost_example :
    (t : Dialed.Life) × Dialed.Reach (record (with_writers 1) { closers = 1 }) t
    × (t.runner ≡ Dialed.reading)
    × (t.conn ≡ some true)
    × (t.connected ≡ true)
    × (t.closers ≡ 0)
close_lost_example =
    close_lost (record (with_writers 1) { closers = 1 }) true [] [] refl refl refl refl refl

late_write_crashes_example :
    (t : Dialed.Life) × Dialed.Reach (with_writers 1) t × (t.crashed ≡ true)
late_write_crashes_example =
    late_write_crashes (with_writers 1) true [] [] (1 ∷ []) refl refl refl refl refl refl

-- A network that has an address for everyone, and one whose second stream is not opened.
abbrev all_up : Network
all_up = record {
  dial_addr = λ i. ok (text "[::]:4242");
  opens_stream = λ i. true;
  lasts = λ i. true;
}

abbrev second_down : Network
second_down = record {
  dial_addr = λ i. ok (text "[::]:4242");
  opens_stream = λ i. ltb i 1;
  lasts = λ i. true;
}

start-IsStarted_example :
    let (c, wg) = start toy_crypto all_up [] (new_client 2) in
    IsStarted c
    × (wg ≡ 2)
    × ((stop (λ conn. true) c wg).0 ≡ (if all_to_nil (λ conn. true) c.conns then ok tt else err tt))
    × (connect_wait (λ conn. false) c ≡ ok (all_to_nil (λ conn. false) c.conns))
unfolding crypto
start-IsStarted_example =
    start-IsStarted toy_crypto all_up [] none 2 (λ conn. true) (λ conn. false) (omega arith) refl
      (λ i lt. ((text "[::]:4242", refl), refl, refl))

stop-refused_example :
    let (c, wg) = start toy_crypto second_down [] (new_client 2) in
    ((stop (λ conn. true) c wg).0
      ≡ (if all_to_nil (λ conn. true) c.conns then panic nil_dereference else err tt))
    × (connect_wait (λ conn. true) c ≡ panic nil_dereference)
stop-refused_example =
    stop-refused toy_crypto second_down [] 2 1 (λ conn. true) (λ conn. true) (omega arith)
      (inr refl)

-- The slots of the second network, as they come out.
second-slots :
    (start toy_crypto second_down [] (new_client 2)).0.conns
    ≡ some (record { local_addr = text "[::]:4242"; receives = true }) ∷ none ∷ []
unfolding start new_client connect_all set_up init_conn try_connect wait_connected crypto
second-slots = refl

-- The listener fails, then opens twice, and two of three sessions have a stream.
abbrev rounds : List Round
rounds =
    no_listener
    ∷ listens (stream_fails ∷ arrives (quiet (1 ∷ [])) ∷ [])
    ∷ listens (arrives (quiet (2 ∷ [])) ∷ [])
    ∷ []

abbrev no_objects : ConnId → ServerConn
no_objects c = new_server_conn none [] false

start_listen-IsRegistry_example :
    ((start_listen false rounds (before [] (text "k") no_objects)).fresh ≡ 2)
    × ((start_listen false rounds (before [] (text "k") no_objects)).server.heap 1
        ≡ new_server_conn (some (quiet (2 ∷ []))) (text "k") false)
    × IsRegistry (
        run
          (start_listen false rounds (before [] (text "k") no_objects)).server
          (pings (text "a") 1 ∷ exits 0 ∷ []))
start_listen-IsRegistry_example =
    start_listen-IsRegistry [] (text "k") no_objects false rounds 1 (quiet (2 ∷ []))
      (pings (text "a") 1 ∷ exits 0 ∷ []) refl (omega arith, (tt, tt))
