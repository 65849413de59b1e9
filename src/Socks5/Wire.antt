-- ===== src/Socks5/Wire.antt =====
-- The constants and types of socks5/request.go, socks5/auth.go and socks5/socks5.go, and the parts of
-- Go's `net.IP` that they use.
use qtun.Base.{
  ℕ, ite, Option, none, some, [], ◌∷◌, ◌++◌, bytes_discrete, ◌==◌, if◌then◌else◌, length, take,
  drop, replicate, Bytes, ℕ_key, bytes_key, get_elem?, index_out_of_range, ok, panic, Action,
}
use qtun.Stream.{IoError}

abbrev pub socks5_version : ℕ
socks5_version = 5

abbrev pub connect_command : ℕ
connect_command = 1

abbrev pub bind_command : ℕ
bind_command = 2

abbrev pub associate_command : ℕ
associate_command = 3

abbrev pub ipv4_address : ℕ
ipv4_address = 1

abbrev pub fqdn_address : ℕ
fqdn_address = 3

abbrev pub ipv6_address : ℕ
ipv6_address = 4

abbrev pub success_reply : ℕ
success_reply = 0

abbrev pub rule_failure : ℕ
rule_failure = 2

abbrev pub network_unreachable : ℕ
network_unreachable = 3

abbrev pub host_unreachable : ℕ
host_unreachable = 4

abbrev pub connection_refused : ℕ
connection_refused = 5

abbrev pub command_not_supported : ℕ
command_not_supported = 7

abbrev pub addr_type_not_supported : ℕ
addr_type_not_supported = 8

abbrev pub no_auth : ℕ
no_auth = 0

abbrev pub no_acceptable : ℕ
no_acceptable = 255

abbrev pub user_pass_auth : ℕ
user_pass_auth = 2

abbrev pub user_auth_version : ℕ
user_auth_version = 1

abbrev pub auth_success : ℕ
auth_success = 0

abbrev pub auth_failure : ℕ
auth_failure = 1

pub record AddrSpec : Type 0 where
  pub fqdn : Bytes
  pub ip : Bytes
  pub port : ℕ

-- `&AddrSpec{}`
abbrev pub empty_addr : AddrSpec
empty_addr = record { fqdn = []; ip = []; port = 0 }

-- What to dial: `Address` joins a host and the port, the host being an IP if there is one.
pub data DialAddress : Type 0 where
  ip_port : Bytes → ℕ → DialAddress
  name_port : Bytes → ℕ → DialAddress

-- `Address`; `net.JoinHostPort` and `IP.String` are left to the reader of the value.
unfoldable pub address : AddrSpec → DialAddress
address a = elim a.ip [ [] ↦ name_port a.fqdn a.port | b ∷ bs ↦ ip_port (b ∷ bs) a.port ]

-- `AuthContext`: the method, and the payload, nil or `{"Username": user}`.
pub record AuthContext : Type 0 where
  pub method : ℕ
  pub username : Option Bytes

pub record Request : Type 0 where
  pub version : ℕ
  pub command : ℕ
  pub auth_context : Option AuthContext
  pub remote_addr : Option AddrSpec
  pub dest_addr : AddrSpec
  pub real_dest_addr : Option AddrSpec

-- The errors, one constructor for each text.
pub data SocksError : Type 0 where
  io : IoError → SocksError
  unrecognized_addr_type : SocksError
  command_version_unread : IoError → SocksError
  unsupported_command_version : ℕ → SocksError
  unformattable_address : AddrSpec → SocksError
  send_reply_failed : SocksError → SocksError
  resolve_failed : Bytes → Bytes → SocksError
  unsupported_command : ℕ → SocksError
  blocked_by_rules : ℕ → AddrSpec → SocksError
  connect_failed : AddrSpec → Bytes → SocksError
  user_auth_failed : SocksError
  no_supported_auth : SocksError
  unsupported_auth_version : ℕ → SocksError
  auth_methods_unread : IoError → SocksError
  unsupported_socks_version : ℕ → SocksError
  authenticate_failed : SocksError → SocksError
  destination_unread : SocksError → SocksError
  handle_failed : SocksError → SocksError

-- `::ffff:0:0/96`, the prefix of an IPv4 address in sixteen bytes.
abbrev pub v4_in_v6_prefix : Bytes
v4_in_v6_prefix = replicate 10 0 ++ (0xff ∷ 0xff ∷ [])

-- `IP.To4()`
unfoldable pub to4 : Bytes → Option Bytes
unfolding bytes_discrete
to4 ip =
    if length ip == 4
    then some ip
    else if length ip == 16
    then ite (bytes_discrete (take 12 ip) v4_in_v6_prefix) (some (drop 12 ip)) none
    else none

-- `IP.To16()`
unfoldable pub to16 : Bytes → Option Bytes
to16 ip =
    if length ip == 4
    then some (v4_in_v6_prefix ++ ip)
    else if length ip == 16
    then some ip
    else none

-- `p[i]`, which panics out of range.
abbrev pub byte_at {ℓ κ} : {S : Type ℓ} {E : Type κ} → Bytes → ℕ → Action S E ℕ
byte_at p i s = elim (get_elem? p i) [ none ↦ (panic index_out_of_range, s) | some b ↦ (ok b, s) ]
