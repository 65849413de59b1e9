-- ===== src/Transport/Tests.antt =====
-- Runs of the transport on small inputs, and its theorems at such inputs.
use qtun.Base.{
  true, ℕ, ◌%◌, ◌^◌, length, take, drop, length-replicate, ◌≡◌, refl, ◌≢◌, false, Option, none,
  some, List, [], ◌∷◌, ◌++◌, arith, ◌==◌, if◌then◌else◌, replicate, All, Bytes, text, ℕ_key,
  bytes_key, index_out_of_range, ok, err, panic,
}
use qtun.Stream.{Stream, IoError, eof, read_byte, read_full}
use qtun.Transport.Aead.{Aead, IsSound}
use qtun.Transport.Frame.{
  io, unseal_failed, cipher_not_match, plain_frame, sealed_frame, read_slice, read_head,
  read_sealed, read_frame, Random, Endpoint,
}
use qtun.Base.Map.{lookup}
use qtun.Transport.ServerConn.{ServerConn, new_server_conn}
use qtun.Transport.Server.{ConnId, Server, new_server, get_conns_by_addr}
use qtun.Transport.Frame.RoundTrip.{
  frame, Message, calls, frames, IsReady, write_all, read_all, read_all-write_all,
}
use qtun.Transport.Frame.Cut.{read_frame-cut}
use qtun.Transport.Frame.Security.{
  read_frame-plain, read_frame-opened, read_frame-ne-panic, read_frame-too_long,
}
use qtun.Transport.ReadLoop.{Handler, read_failed, read_process}
use qtun.Transport.ReadLoop.Laws.{HasEnded, read_process-ends, read_process-frames}
use qtun.Transport.Server.History.{
  Call, pings, finds_dead, exits, run, remove_conn_by_conn_pointer-leaves,
}
use qtun.Transport.Crypto.{Crypto, IsDocumented}
use qtun.Transport.Client.{
  Client, ClientConn, PingEnv, ping_message, send_ping, get_conn_port, split, split_from, port_from,
}
use qtun.Transport.Client.Pings.{ping, keep_pinging}
use qtun.Transport.Client.{send_all_ping, ping_each}
use qtun.Transport.Client.Balance.{IsStarted, send_ping-target}
use qtun.Protocol.{Codec, EnvelopeType, envelope_ping, envelope_packet}

-- A cipher for the tests: it puts a 7 in front.
abbrev toy_unseal : Bytes → Bytes → Option Bytes
toy_unseal nonce [] = none
toy_unseal nonce (b ∷ bs) = if b == 7 then some bs else none

abbrev pub toy : Aead
toy = record { nonce_size = 2; seal = λ nonce plain. 7 ∷ plain; unseal = toy_unseal }

pub toy-IsSound : IsSound toy 1
toy-IsSound = record { opens = λ nonce plain size. refl; grows = λ nonce plain size. omega arith }

abbrev pub quiet : Bytes → Stream
quiet input = record { input = input; ending = eof; output = []; faults = [] }

abbrev pub fixed_random : Random
fixed_random n = ok (replicate n 9)

abbrev messages : List Message
messages =
    record { random = fixed_random; nonce = 9 ∷ 9 ∷ []; payload = 1 ∷ 2 ∷ [] }
    ∷ record { random = fixed_random; nonce = 9 ∷ 9 ∷ []; payload = [] }
    ∷ []

abbrev sealing : Endpoint
sealing = record { conn = some (quiet []); aesgcm = some toy; buf = [] }

messages-IsReady : All (IsReady (some toy) 1) messages
messages-IsReady =
    ((refl, (toy-IsSound, refl), omega arith), ((refl, (toy-IsSound, refl), omega arith), tt))

read_all-write_all_example :
    (sent : Bytes) × ((write_all (calls messages) sealing).0 ≡ ok tt)
    × ((write_all (calls messages) sealing).1.conn ≡ some (record (quiet []) { output = sent }))
    × (read_all 2 (some toy) unseal_failed (record (quiet []) { input = sent ++ (5 ∷ []) })
        ≡ (ok ((1 ∷ 2 ∷ []) ∷ [] ∷ []), record (quiet []) { input = 5 ∷ [] }))
read_all-write_all_example =
    read_all-write_all 1 messages (5 ∷ []) unseal_failed sealing (quiet []) (quiet [])
      messages-IsReady refl refl

sealed_bytes : frame (some toy) (9 ∷ 9 ∷ []) (1 ∷ 2 ∷ []) ≡ 1 ∷ 3 ∷ 0 ∷ 7 ∷ 1 ∷ 2 ∷ 9 ∷ 9 ∷ []
unfolding sealed_frame
sealed_bytes = refl

plain_bytes : plain_frame (1 ∷ 2 ∷ []) ≡ 0 ∷ 2 ∷ 0 ∷ 1 ∷ 2 ∷ []
unfolding plain_frame
plain_bytes = refl

read_frame-cut_example :
    (e : IoError) × ((read_frame (some toy) unseal_failed (quiet (1 ∷ 3 ∷ 0 ∷ 7 ∷ []))).0
      ≡ err (io e))
read_frame-cut_example =
    read_frame-cut (some toy) 1 (9 ∷ 9 ∷ []) (1 ∷ 2 ∷ []) (1 ∷ 3 ∷ 0 ∷ 7 ∷ []) (2 ∷ 9 ∷ 9 ∷ []) 1
      unseal_failed (quiet []) (toy-IsSound, refl) (omega arith) sealed_bytes

read_frame-plain_example :
    read_frame (some toy) cipher_not_match (quiet (0 ∷ 2 ∷ 0 ∷ 1 ∷ 2 ∷ []))
    ≡ (ok (1 ∷ 2 ∷ []), quiet [])
unfolding plain_frame
read_frame-plain_example =
    read_frame-plain (some toy) (1 ∷ 2 ∷ []) [] cipher_not_match (quiet (0 ∷ 2 ∷ 0 ∷ 1 ∷ 2 ∷ []))
      (omega arith) refl

sealed_read :
    read_frame (some toy) cipher_not_match (quiet (1 ∷ 3 ∷ 0 ∷ 7 ∷ 1 ∷ 2 ∷ 9 ∷ 9 ∷ []))
    ≡ (ok (1 ∷ 2 ∷ []), quiet [])
unfolding read_frame read_head read_sealed read_byte read_slice read_full
sealed_read = refl

read_frame-opened_example :
    (nonce : Bytes) × (body : Bytes) × (toy_unseal nonce body ≡ some (1 ∷ 2 ∷ []))
    × (3 ∷ 0 ∷ 7 ∷ 1 ∷ 2 ∷ 9 ∷ 9 ∷ [] ≡ 3 ∷ 0 ∷ (body ++ (nonce ++ [])))
read_frame-opened_example =
    read_frame-opened toy cipher_not_match (quiet (1 ∷ 3 ∷ 0 ∷ 7 ∷ 1 ∷ 2 ∷ 9 ∷ 9 ∷ [])) (quiet []) 1
      (3 ∷ 0 ∷ 7 ∷ 1 ∷ 2 ∷ 9 ∷ 9 ∷ []) (1 ∷ 2 ∷ []) refl (omega arith) sealed_read

read_frame-ne-panic_example :
    (read_frame (some toy) cipher_not_match (quiet (1 ∷ 1 ∷ 0 ∷ []))).0 ≢ panic index_out_of_range
read_frame-ne-panic_example =
    read_frame-ne-panic toy cipher_not_match (quiet (1 ∷ 1 ∷ 0 ∷ [])) index_out_of_range
      (omega arith)

-- A packet of 65537 bytes is cut after one byte, and 65536 are left for the next frames.
abbrev long_packet : Bytes
long_packet = replicate 65537 7

read_frame-too_long_example : read_frame none cipher_not_match (quiet (plain_frame long_packet)) ≡ (
  ok (take (length long_packet % 2 ^ 16) long_packet),
  record (quiet (plain_frame long_packet)) {
    input = drop (length long_packet % 2 ^ 16) long_packet;
  },
)
read_frame-too_long_example =
    read_frame-too_long none long_packet cipher_not_match (quiet (plain_frame long_packet))
      (omega (arith, length-replicate {A = ℕ} 65537 7)) refl

-- A handler that keeps what it is given.
abbrev keep : Handler (List Bytes)
keep payload h = (ok tt, h ++ (payload ∷ []))

read_process-ends_example :
    HasEnded (read_process none cipher_not_match keep (quiet (0 ∷ 1 ∷ 0 ∷ 8 ∷ 0 ∷ [])) []).exit
read_process-ends_example =
    read_process-ends none cipher_not_match keep (quiet (0 ∷ 1 ∷ 0 ∷ 8 ∷ 0 ∷ [])) []
      λ payload h w e. cc

read_process-frames_example :
    read_process (some toy) cipher_not_match keep (quiet (frames (some toy) messages)) []
    ≡ record { exit = read_failed (io eof); conn = quiet []; state = (1 ∷ 2 ∷ []) ∷ [] ∷ [] }
read_process-frames_example =
    read_process-frames (some toy) cipher_not_match keep 1 messages (quiet []) []
      ((1 ∷ 2 ∷ []) ∷ [] ∷ []) messages-IsReady refl

-- Objects whose connections are there.
abbrev accepted : ConnId → ServerConn
accepted c = new_server_conn (some (quiet [])) [] false

accepted-conn : (c : ConnId) → (accepted c).conn ≢ none
unfolding new_server_conn
accepted-conn c = λ e. cc

abbrev two_pings : List Call
two_pings = pings (text "a") 3 ∷ pings (text "b") 4 ∷ finds_dead (text "a") ∷ exits 4 ∷ []

abbrev fresh : Server
fresh = new_server [] [] accepted

remove_conn_by_conn_pointer-leaves_example :
    let s' = run fresh (pings (text "a") 3 ∷ pings [] 3 ∷ exits 3 ∷ []) in
    (get_conns_by_addr s' (text "a") ≡ some 3) × (lookup 3 s'.conns_reverse ≡ none)
unfolding new_server get_conns_by_addr lookup
remove_conn_by_conn_pointer-leaves_example =
    remove_conn_by_conn_pointer-leaves fresh (text "a") [] 3 (λ e. cc) refl refl

-- Libraries that keep to their documentation: the digests are constant, every key makes a block.
abbrev pub toy_crypto : Crypto
toy_crypto = record {
  Block = Unit {0};
  Failure = Unit {0};
  md5 = λ m. replicate 16 0;
  sha256 = λ m. replicate 32 0;
  new_cipher = λ k. ok tt;
  new_gcm = λ b. ok toy;
}

toy_crypto-IsDocumented : IsDocumented toy_crypto
toy_crypto-IsDocumented = record {
  md5_size = λ m. refl;
  sha256_size = λ m. refl;
  takes_16 = λ k e. (tt, refl);
  takes_32 = λ k e. (tt, refl);
  gcm = λ b. (toy, refl);
}

abbrev pub local_end : ClientConn
local_end = record { local_addr = text "[::]:4242"; receives = true }

abbrev pub two_threads : Client
two_threads = record {
  threads = 2;
  conns = some local_end ∷ some local_end ∷ [];
  serial = 0;
  handed = [];
}

pub two_threads-IsStarted : IsStarted two_threads
two_threads-IsStarted = record {
  some_threads = omega arith;
  all_there = refl;
  connected = ((local_end, refl, refl), ((local_end, refl, refl), tt));
}

pub port_4242 : get_conn_port (text "[::]:4242") ≡ ok (text "4242")
unfolding get_conn_port split split_from port_from
port_4242 = refl

abbrev pub ping_env : PingEnv
ping_env = record { config_ip = text "10.4.4.3/24"; parsed_ip = some (text "10.4.4.3"); now = 7 }

-- A codec for the tests, which only writes the address of a ping.
abbrev addr_of : Option EnvelopeType → Bytes
addr_of none = []
addr_of (some (envelope_ping p)) = p.local_addr
addr_of (some (envelope_packet p)) = p.payload.bytes

abbrev addr_codec : Codec
addr_codec = record { marshal = λ e. addr_of e.type; unmarshal = λ b. none; spare = λ n. [] }

send_ping-target_example : send_ping addr_codec ping_env local_end two_threads ≡ (
  ok tt,
  record two_threads {
    serial = 1;
    handed =
        (
          1,
          addr_codec.marshal (record {
            type = some (envelope_ping (ping_message ping_env (text "10.4.4.3") (text "4242")));
          }),
        )
        ∷ [];
  },
)
send_ping-target_example =
    send_ping-target addr_codec ping_env local_end (text "10.4.4.3") (text "4242") two_threads
      two_threads-IsStarted (omega arith) refl port_4242

-- Where no address parses, every turn panics, and no message is handed over.
all_turns_panic :
    keep_pinging 3 addr_codec
      (record ping_env { parsed_ip = none } ∷ record ping_env { parsed_ip = none } ∷ [])
      two_threads
    ≡ two_threads
unfolding keep_pinging ping send_all_ping ping_each send_ping
all_turns_panic = refl
