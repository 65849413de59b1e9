-- ===== src/Socks5/Address.antt =====
-- socks5/request.go: an address on the wire, both ways, and the head of a request.
pub mod Read
pub mod Reply
use qtun.Base.{
  ℕ, ◌*◌, ◌/◌, ◌%◌, ◌^◌, Option, none, some, ◌∷◌, ◌++◌, ◌==◌, if◌then◌else◌, length, get_elem?,
  Bytes, Result, ok, err, panic, Action, pure, fail, wrap, [], ◌>>=◌, ◌>>◌,
}
use qtun.Stream.{Stream, read_byte, read_full, write}
use Prim.Native.Nat.{bit_or}
use qtun.Socks5.Wire.{
  socks5_version, ipv4_address, fqdn_address, ipv6_address, AddrSpec, empty_addr, Request,
  SocksError, io, unrecognized_addr_type, command_version_unread, unsupported_command_version,
  unformattable_address, to4, to16, byte_at,
}

-- `(int(port[0]) << 8) | int(port[1])`
unfoldable pub port_of : Bytes → Action Stream SocksError ℕ
port_of port = do hi ← byte_at port 0; lo ← byte_at port 1; pure (bit_or (hi * 2 ^ 8) lo)

-- `readAddrSpec` between the type and the port.
unfoldable pub read_host : ℕ → Action Stream SocksError AddrSpec
read_host addr_type =
    if addr_type == ipv4_address
    then (do addr ← wrap io (read_full 4); pure (record empty_addr { ip = addr }))
    else if addr_type == ipv6_address
    then (do addr ← wrap io (read_full 16); pure (record empty_addr { ip = addr }))
    else if addr_type == fqdn_address
    then (do
      addr_len ← wrap io read_byte
      fqdn ← wrap io (read_full addr_len)
      pure (record empty_addr { fqdn = fqdn }))
    else fail unrecognized_addr_type

unfoldable pub read_addr_spec : Action Stream SocksError AddrSpec
unfolding port_of
read_addr_spec = do
  addr_type ← wrap io read_byte
  d ← read_host addr_type
  bytes ← wrap io (read_full 2)
  port ← port_of bytes
  pure (record d { port = port })

unfoldable pub request_from : Bytes → Action Stream SocksError Request
request_from header = do
  version ← byte_at header 0
  if version == socks5_version
      then (do
        dest ← read_addr_spec
        command ← byte_at header 1
        pure (record {
          version = socks5_version;
          command = command;
          auth_context = none;
          remote_addr = none;
          dest_addr = dest;
          real_dest_addr = none;
        }))
      else fail (unsupported_command_version version)

-- `NewRequest`
unfoldable pub new_request : Action Stream SocksError Request
unfolding request_from
new_request = do header ← wrap command_version_unread (read_full 3); request_from header

-- The address type, the address body and the port of a reply; `none` where no case applies.
unfoldable pub format_host : AddrSpec → Option (ℕ × Bytes)
format_host a = elim a.fqdn [
  | b ∷ bs ↦ some (fqdn_address, (length (b ∷ bs) % 256) ∷ (b ∷ bs))
  | [] ↦ elim (to4 a.ip) [
    | some v4 ↦ some (ipv4_address, v4)
    | none ↦ elim (to16 a.ip) [ some v16 ↦ some (ipv6_address, v16) | none ↦ none ]
  ]
]

-- The message: version, reply code, reserved, the address and its port.
unfoldable pub reply_message : ℕ → ℕ → Bytes → ℕ → Bytes
reply_message resp addr_type addr_body addr_port =
    socks5_version
    ∷ resp
    ∷ 0
    ∷ addr_type
    ∷ (addr_body ++ ((addr_port / 2 ^ 8 % 256) ∷ (addr_port % 256) ∷ []))

unfoldable pub reply_of : ℕ → Option AddrSpec → Result SocksError Bytes
unfolding reply_message format_host
reply_of resp none = ok (reply_message resp ipv4_address (0 ∷ 0 ∷ 0 ∷ 0 ∷ []) 0)
reply_of resp (some a) = elim (format_host a) [
  | some (addr_type, addr_body) ↦ ok (reply_message resp addr_type addr_body (a.port % 2 ^ 16))
  | none ↦ err (unformattable_address a)
]

-- `sendReply`
unfoldable pub send_reply : ℕ → Option AddrSpec → Action Stream SocksError (Unit {0})
unfolding reply_of
send_reply resp addr s = elim (reply_of resp addr) [
  | ok msg ↦ wrap io (write msg) s
  | err e ↦ (err e, s)
  | panic p ↦ (panic p, s)
]
