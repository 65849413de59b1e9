-- ===== src/Command.antt =====
-- main.go, config/config.go and `Run` of qtun/app.go: what the command line starts.
pub mod Modes
pub mod Tests
use qtun.Base.{ℕ, Bool, false, List, [], ◌∷◌, ◌++◌, if◌then◌else◌, Bytes, text}

pub record CmdOpts : Type 0 where
  pub key : Bytes
  pub remote_addrs : Bytes
  pub listen : Bytes
  pub transport_threads : ℕ
  pub ip : Bytes
  pub mtu : ℕ
  pub log_level : Bytes
  pub server_mode : Bool
  pub socks5_port : ℕ
  pub file_server_port : ℕ
  pub file_dir : Bytes
  pub no_delay : Bool
  pub proxy_only : Bool

-- The defaults that `Command` declares.
unfoldable pub defaults : CmdOpts
defaults = record {
  key = text "hello-world";
  remote_addrs = text "2.2.2.2:8080";
  listen = text "0.0.0.0:8080";
  transport_threads = 1;
  ip = text "10.237.0.1/16";
  mtu = 1500;
  log_level = text "info";
  server_mode = false;
  socks5_port = 2080;
  file_server_port = 6061;
  file_dir = text "../static";
  no_delay = false;
  proxy_only = false;
}

pub record Config : Type 0 where
  pub key : Bytes
  pub remote_addrs : Bytes
  pub listen : Bytes
  pub transport_threads : ℕ
  pub ip : Bytes
  pub mtu : ℕ
  pub server_mode : Bool
  pub no_delay : Bool

unfoldable pub config_of : CmdOpts → Config
config_of o = record {
  key = o.key;
  remote_addrs = o.remote_addrs;
  listen = o.listen;
  transport_threads = o.transport_threads;
  ip = o.ip;
  mtu = o.mtu;
  server_mode = o.server_mode;
  no_delay = o.no_delay;
}

-- What is called, in order; `go` marks a call that the next one does not wait for.
pub data Call : Type 0 where
  init_config : Config → Call
  init_log : Bytes → Call
  set_proxy : Call
  start_socks5 go_start_socks5 : ℕ → Call
  start_file_server : Bytes → ℕ → Call
  -- The listen address and the key; the remote address, the key and the threads.
  go_start_server : Bytes → Bytes → Call
  clean_route : Call
  start_client : Bytes → Bytes → ℕ → Call
  -- The interface's IP and MTU.
  fetch_tun_interface : Bytes → ℕ → Call

-- `Run`
unfoldable pub run : Config → List Call
run c =
    (if c.server_mode
      then go_start_server c.listen c.key ∷ clean_route ∷ []
      else start_client c.remote_addrs c.key c.transport_threads ∷ set_proxy ∷ [])
    ++ (fetch_tun_interface c.ip c.mtu ∷ [])

-- `command`
unfoldable pub command : CmdOpts → List Call
unfolding config_of
command o =
    init_config (config_of o)
    ∷ init_log o.log_level
    ∷ (if o.proxy_only
        then set_proxy ∷ start_socks5 o.socks5_port ∷ []
        else if o.server_mode
        then go_start_socks5 o.socks5_port ∷ run (config_of o)
        else start_file_server o.file_dir o.file_server_port ∷ run (config_of o))
