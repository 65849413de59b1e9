-- ===== src/App/AnnounceTests.antt =====
-- A client that announces itself to an empty server.
use qtun.Base.{
  zero, suc, ◌≡◌, refl, sym, ap, ◌∙◌, Option, none, some, [], ◌∷◌, append-nil, arith, Bytes, text,
  ℕ_key, bytes_key,
}
use qtun.Transport.Frame.{cipher_not_match}
use qtun.Transport.Frame.RoundTrip.{Message}
use qtun.Transport.ServerConn.{new_server_conn}
use qtun.Transport.Server.{new_server, get_conns_by_addr}
use qtun.Transport.Client.{ping_message}
use qtun.Transport.Client.Balance.{send_ping-target}
use qtun.Transport.Tests.{
  two_threads, two_threads-IsStarted, local_end, ping_env, port_4242, fixed_random, quiet,
}
use qtun.Protocol.{MessagePing, EnvelopeType, envelope_ping, envelope_packet, Envelope, Codec}
use qtun.Protocol.Tests.{block, ping_body, read_ping, read_ping-body}
use qtun.Base.Map.{lookup}
use qtun.App.{new_app}
use qtun.App.Receive.{ping_envelope, packet_envelope}
use qtun.App.Announce.{IsPingCodec, Announced, send_ping-forward}
use qtun.App.Tests.{start, start-IsRegistry, twenty}

-- A codec with all that a ping holds.
abbrev whole_marshal : Option EnvelopeType → Bytes
whole_marshal none = []
whole_marshal (some (envelope_ping p)) = 0 ∷ block (ping_body p)
whole_marshal (some (envelope_packet p)) = 1 ∷ p.payload.bytes

abbrev whole_unmarshal : Bytes → Option Envelope
whole_unmarshal [] = none
whole_unmarshal (zero ∷ bs) = some (ping_envelope (read_ping bs).0)
whole_unmarshal (suc _ ∷ bs) = some (packet_envelope (record { bytes = bs; spare = [] }))

abbrev whole_codec : Codec
whole_codec = record {
  marshal = λ e. whole_marshal e.type;
  unmarshal = whole_unmarshal;
  spare = λ n. [];
}

whole_codec-IsPingCodec : IsPingCodec whole_codec
whole_codec-IsPingCodec = record { pings = λ p. ap (λ m. some (ping_envelope m)) (reads p) }
  where
    reads : (p : MessagePing) → (read_ping (block (ping_body p))).0 ≡ p
    reads p =
        ap (λ bs. (read_ping bs).0) (sym (append-nil (block (ping_body p))))
        ∙ ap (λ r. r.0) (read_ping-body p [])

abbrev announcement : Message
announcement = record {
  random = fixed_random;
  nonce = [];
  payload =
      whole_codec.marshal (ping_envelope (ping_message ping_env (text "10.4.4.3") (text "4242")));
}

send_ping-forward_example :
    Announced whole_codec none cipher_not_match 3 announcement
      (quiet [])
      start
      (text "10.4.4.3")
      (λ n. n)
      twenty
unfolding new_app new_server new_server_conn get_conns_by_addr lookup ping_message
send_ping-forward_example =
    send_ping-forward whole_codec ping_env local_end (text "10.4.4.3") (text "4242") two_threads 1
      none 0 cipher_not_match 3 announcement (quiet []) start (λ n. n) twenty
      whole_codec-IsPingCodec two_threads-IsStarted (omega arith) refl port_4242
      (ap (λ r. r.1.handed)
        (send_ping-target whole_codec ping_env local_end (text "10.4.4.3") (text "4242") two_threads
          two_threads-IsStarted (omega arith) refl port_4242))
      (omega arith) start-IsRegistry refl refl refl
