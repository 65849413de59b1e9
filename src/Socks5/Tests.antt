-- ===== src/Socks5/Tests.antt =====
-- Runs of the SOCKS5 server on small inputs, and its theorems at such inputs.
-- of its own.
use qtun.Base.{
  ◌≡◌, refl, ◌⊎◌, inl, inr, map, All, ite, true, false, none, some, [], ◌∷◌, ◌++◌, arith,
  ℕ_discrete, bytes_discrete, Bytes, text, ℕ_key, bytes_key, Result, ok, err,
}
use qtun.Stream.{Stream, eof, read_byte, read_full, write}
use qtun.Socks5.Wire.{socks5_version, DialAddress, ip_port, name_port}
use qtun.Socks5.Address.{new_request, reply_of}
use qtun.Socks5.Auth.{
  CredentialStore, user_pass_authenticator, answer_user_pass, read_user_pass, check_user_pass,
  authenticate_user_pass, run_authenticator, read_methods, select_method, authenticate,
  new_auth_methods,
}
use qtun.Socks5.Serve.{
  closed_write, target_side, client_side, Target, Env, dialed, relayed, Session, serve_conn,
}
use qtun.Socks5.Address.Read.{Host, v4, encode, spec, encode_request, request, new_request-encode}
use qtun.Socks5.Address.Reply.{reply_of-spec}
use qtun.Base.Map.{lookup, insert}
use qtun.Socks5.Auth.Guarded.{guarded, opening}
use qtun.Socks5.Auth.Laws.{authenticate-first}
use qtun.Socks5.Serve.Laws.{serve_conn-guarded}
use qtun.Socks5.Listen.{Incoming, serve_one, no_listener, accepts, start_socks5}
use qtun.Socks5.Listen.Returns.{IsReturn}
use qtun.Socks5.Listen.Alive.{start_socks5-All}
use qtun.Socks5.Serve.Whole.{open_methods, client_bytes, serve_conn-connect}

abbrev quiet : Bytes → Stream
quiet input = record { input = input; ending = eof; output = []; faults = [] }

abbrev session : Bytes → Session
session input = record { conn = quiet input; events = [] }

-- One user, `[7]`, with the password `[8]`.
abbrev one_user : CredentialStore
one_user user pass =
    ite (bytes_discrete user (7 ∷ [])) (ite (bytes_discrete pass (8 ∷ [])) true false) false

abbrev far_end : Target
far_end = record { local_ip = 10 ∷ 0 ∷ 0 ∷ 1 ∷ []; local_port = 258; stream = quiet (3 ∷ 4 ∷ []) }

abbrev dial_one : DialAddress → Result Bytes Target
dial_one (ip_port ip port) = ok far_end
dial_one (name_port fqdn port) = err (text "refused")

abbrev env : Env
env = record {
  resolve = λ fqdn. err [];
  allow = λ req. true;
  rewrite = none;
  dial = dial_one;
  remote_addr = none;
  up_first = true;
  cut_at = 0;
}

abbrev loopback : Host
loopback = v4 (127 ∷ 0 ∷ 0 ∷ 1 ∷ [])

serve_conn-connect_example :
    serve_conn env open_methods (session (client_bytes (2 ∷ []) [] 0 loopback 80 (9 ∷ []))) ≡ (
      ok tt,
      record {
        conn = record (quiet []) {
          output =
              ([] ++ (5 ∷ 0 ∷ []))
              ++ (5 ∷ 0 ∷ 0 ∷ encode (v4 (10 ∷ 0 ∷ 0 ∷ 1 ∷ [])) 258)
              ++ (3 ∷ 4 ∷ []);
        };
        events =
            []
            ++ (dialed (ip_port (127 ∷ 0 ∷ 0 ∷ 1 ∷ []) 80) ∷ [])
            ++ (closed_write target_side ∷ closed_write client_side ∷ [])
            ++ (relayed (record (quiet []) { output = [] ++ (9 ∷ []) }) ∷ []);
      },
    )
serve_conn-connect_example =
    serve_conn-connect env (2 ∷ []) [] (9 ∷ []) 0 127 0 0 1 80 far_end (v4 (10 ∷ 0 ∷ 0 ∷ 1 ∷ []))
      258 (session (client_bytes (2 ∷ []) [] 0 loopback 80 (9 ∷ []))) ((λ e. cc), tt) (omega arith)
      refl refl refl (refl, tt, omega arith, refl) refl refl refl refl refl

serve_conn-guarded_example :
    ((serve_conn env (guarded one_user) (session (5 ∷ 1 ∷ 0 ∷ []))).1.events ≡ [])
    ⊎ ((methods user pass rest : Bytes) × (one_user user pass ≡ true)
        × (5 ∷ 1 ∷ 0 ∷ [] ≡ socks5_version ∷ (opening methods user pass ++ rest)))
serve_conn-guarded_example = serve_conn-guarded env one_user (session (5 ∷ 1 ∷ 0 ∷ []))

-- A client that offers method 2 and sends the right pair.
abbrev known_client : Bytes
known_client = 1 ∷ 2 ∷ 1 ∷ 1 ∷ 7 ∷ 1 ∷ 8 ∷ []

abbrev known_out : Stream
known_out = record (quiet []) { output = 5 ∷ 2 ∷ 1 ∷ 0 ∷ [] }

known_client_gets_in :
    authenticate (guarded one_user) (quiet known_client)
    ≡ (ok (record { method = 2; username = some (7 ∷ []) }), known_out)
unfolding authenticate read_methods select_method new_auth_methods run_authenticator
    authenticate_user_pass check_user_pass read_user_pass answer_user_pass read_byte read_full write
    lookup insert bytes_discrete
known_client_gets_in = refl

authenticate-first_example :
    authenticate ((2, user_pass_authenticator one_user) ∷ []) (quiet (2 ∷ 0 ∷ 2 ∷ 6 ∷ []))
    ≡ run_authenticator (user_pass_authenticator one_user) (quiet (6 ∷ []))
unfolding lookup ℕ_discrete
authenticate-first_example =
    authenticate-first ((2, user_pass_authenticator one_user) ∷ []) (0 ∷ []) [] (6 ∷ []) 2
      (user_pass_authenticator one_user) (quiet (2 ∷ 0 ∷ 2 ∷ 6 ∷ [])) (refl, tt) refl refl

new_request-encode_example :
    new_request (quiet (encode_request 1 0 loopback 80 ++ (9 ∷ [])))
    ≡ (ok (request 1 loopback 80), quiet (9 ∷ []))
new_request-encode_example =
    new_request-encode 1 0 loopback 80 (9 ∷ []) (quiet (encode_request 1 0 loopback 80 ++ (9 ∷ [])))
      refl (omega arith) refl

reply_of-spec_example :
    reply_of 0 (some (spec loopback 80)) ≡ ok (socks5_version ∷ 0 ∷ 0 ∷ encode loopback 80)
reply_of-spec_example = reply_of-spec 0 loopback 80 refl tt (omega arith)

-- The listener cannot be opened at first; then a client comes that hangs up, and one that goes through.
abbrev hangs_up : Incoming
hangs_up = record {
  conn = quiet (5 ∷ []);
  remote_addr = none;
  resolve_ip_addr = λ name. inl [];
  dial = λ a. inl (text "refused");
  up_first = false;
  cut_at = 0;
}

abbrev goes_through : Incoming
goes_through = record hangs_up {
  conn = quiet (client_bytes (2 ∷ []) [] 0 loopback 80 (9 ∷ []));
  dial = λ a. inr far_end;
}

start_socks5-All_example :
    (start_socks5 (no_listener ∷ accepts (hangs_up ∷ goes_through ∷ []) ∷ [])
      ≡ map (serve_one (new_auth_methods [] none)) (hangs_up ∷ goes_through ∷ []))
    × All
        (λ r. IsReturn r.0)
        (start_socks5 (no_listener ∷ accepts (hangs_up ∷ goes_through ∷ []) ∷ []))
start_socks5-All_example =
    start_socks5-All (no_listener ∷ accepts (hangs_up ∷ goes_through ∷ []) ∷ [])
