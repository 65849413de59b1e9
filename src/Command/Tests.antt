-- ===== src/Command/Tests.antt =====
-- The command line at its defaults.
use qtun.Base.{◌≡◌, refl, [], ◌∷◌, text}
use qtun.Command.{
  defaults, command, run, config_of, init_config, init_log, start_file_server, start_client,
  set_proxy, fetch_tun_interface,
}

by_default :
    command defaults
    ≡ init_config (config_of defaults)
      ∷ init_log (text "info")
      ∷ start_file_server (text "../static") 6061
      ∷ start_client (text "2.2.2.2:8080") (text "hello-world") 1
      ∷ set_proxy
      ∷ fetch_tun_interface (text "10.237.0.1/16") 1500
      ∷ []
unfolding command run defaults config_of
by_default = refl
