-- ===== src/Command/Modes.antt =====
-- What each mode starts, and what it leaves out.
use qtun.Base.{◌≡◌, Bool, true, false, not, ◌&&◌, ◌||◌, List, [], ◌∷◌, arith, Bool-cases, inl, inr}
use qtun.Command.{
  CmdOpts, Call, set_proxy, start_socks5, go_start_socks5, start_file_server, go_start_server,
  start_client, fetch_tun_interface, run, command,
}

abbrev pub any : (Call → Bool) → List Call → Bool
any p [] = false
any p (c ∷ cs) = p c || any p cs

-- Whether a call accepts connections of others, opens the tunnel device, or changes the proxy
-- settings of the system.
abbrev pub is_socks5 : Call → Bool
is_socks5 (start_socks5 _) = true
is_socks5 (go_start_socks5 _) = true
is_socks5 _ = false

abbrev pub is_server : Call → Bool
is_server (go_start_server _ _) = true
is_server _ = false

abbrev pub is_client : Call → Bool
is_client (start_client _ _ _) = true
is_client _ = false

abbrev pub is_tunnel : Call → Bool
is_tunnel (fetch_tun_interface _ _) = true
is_tunnel _ = false

abbrev pub is_file_server : Call → Bool
is_file_server (start_file_server _ _) = true
is_file_server _ = false

abbrev pub is_set_proxy : Call → Bool
is_set_proxy set_proxy = true
is_set_proxy _ = false

-- For all options: the SOCKS5 server is started in the proxy-only mode and in the server mode; the
-- tunnel in all but the proxy-only mode, and in it the server's end exactly in the server mode and
-- the client's end otherwise; the file server with the client's end alone; and the proxy settings
-- are changed whenever the server's end is not started.
pub command-modes :
    (o : CmdOpts)
    → (any is_socks5 (command o) ≡ (o.proxy_only || o.server_mode))
      × (any is_tunnel (command o) ≡ not o.proxy_only)
      × (any is_server (command o) ≡ (not o.proxy_only && o.server_mode))
      × (any is_client (command o) ≡ (not o.proxy_only && not o.server_mode))
      × (any is_file_server (command o) ≡ any is_client (command o))
      × (any is_set_proxy (command o) ≡ not (any is_server (command o)))
unfolding command run
command-modes o = elim (Bool-cases o.proxy_only) [
  | inl only ↦ ground arith
  | inr tunnel ↦ elim (Bool-cases o.server_mode) [
    | inl server ↦ ground arith
    | inr client ↦ ground arith
  ]
]
