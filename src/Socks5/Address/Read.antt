-- ===== src/Socks5/Address/Read.antt =====
-- `readAddrSpec` and `NewRequest` on what a client sends.
use qtun.Base.{
  ℕ, ◌/◌, ◌%◌, ◌^◌, ◌<◌, ◌≡◌, refl, ap, ◌≢◌, none, [], ◌∷◌, ◌++◌, append_assoc, arith, length,
  Bytes, ℕ_key, bytes_key, ok, err,
}
use qtun.Stream.{Stream, read_byte}
use qtun.Stream.Laws.{read_full-append}
use qtun.Socks5.Wire.{
  socks5_version, ipv4_address, fqdn_address, ipv6_address, AddrSpec, Request,
  unrecognized_addr_type, unsupported_command_version,
}
use qtun.Socks5.Address.{port_of, read_host, read_addr_spec, new_request}
use qtun.Base.Bits.{bit_or-shifted}

-- The three forms of an address.
pub data Host : Type 0 where
  v4 : Bytes → Host
  v6 : Bytes → Host
  name : Bytes → Host

-- RFC 1928, section 5: an address of the right size, or a name of at most 255 bytes.
abbrev pub IsHost : Host → Type 0
IsHost (v4 ip) = length ip ≡ 4
IsHost (v6 ip) = length ip ≡ 16
IsHost (name n) = length n < 256

abbrev pub encode_host : Host → Bytes
encode_host (v4 ip) = ipv4_address ∷ ip
encode_host (v6 ip) = ipv6_address ∷ ip
encode_host (name n) = fqdn_address ∷ length n ∷ n

abbrev pub encode : Host → ℕ → Bytes
encode h port = encode_host h ++ ((port / 256) ∷ (port % 256) ∷ [])

abbrev pub spec : Host → ℕ → AddrSpec
spec (v4 ip) port = record { fqdn = []; ip = ip; port = port }
spec (v6 ip) port = record { fqdn = []; ip = ip; port = port }
spec (name n) port = record { fqdn = n; ip = []; port = port }

port_of-bytes :
    (port : ℕ) (s : Stream) → port_of ((port / 256) ∷ (port % 256) ∷ []) s ≡ (ok port, s)
unfolding port_of
port_of-bytes port s =
    ap (λ p. (ok p, s)) (omega (arith, bit_or-shifted (port / 256) (port % 256) (omega arith)))

-- Every well-formed address is read back, with its port, and the reader is left at the byte behind
-- it.
pub read_addr_spec-encode :
    (h : Host) (port : ℕ) (rest : Bytes) (s : Stream)
    → IsHost h
    → port < 2 ^ 16
    → s.input ≡ encode h port ++ rest
    → read_addr_spec s ≡ (ok (spec h port), record s { input = rest })
unfolding read_addr_spec read_host read_byte
read_addr_spec-encode (v4 ip) port rest s fits small e =
    let tail : Bytes = (port / 256) ∷ (port % 256) ∷ [] in
    ground (
      arith,
      append_assoc ip tail rest,
      read_full-append 4 ip (tail ++ rest) (record s { input = ip ++ (tail ++ rest) }),
      read_full-append 2 tail rest (record s { input = tail ++ rest }),
      port_of-bytes port (record s { input = rest }),
    )
read_addr_spec-encode (v6 ip) port rest s fits small e =
    let tail : Bytes = (port / 256) ∷ (port % 256) ∷ [] in
    ground (
      arith,
      append_assoc ip tail rest,
      read_full-append 16 ip (tail ++ rest) (record s { input = ip ++ (tail ++ rest) }),
      read_full-append 2 tail rest (record s { input = tail ++ rest }),
      port_of-bytes port (record s { input = rest }),
    )
read_addr_spec-encode (name n) port rest s fits small e =
    let tail : Bytes = (port / 256) ∷ (port % 256) ∷ [] in
    ground (
      arith,
      append_assoc n tail rest,
      read_full-append (length n) n (tail ++ rest) (record s { input = n ++ (tail ++ rest) }),
      read_full-append 2 tail rest (record s { input = tail ++ rest }),
      port_of-bytes port (record s { input = rest }),
    )

-- A type byte that is none of the three is refused, with nothing read behind it.
pub read_addr_spec-unrecognized :
    (t : ℕ) (more : Bytes) (s : Stream)
    → t ≢ ipv4_address
    → t ≢ ipv6_address
    → t ≢ fqdn_address
    → s.input ≡ t ∷ more
    → read_addr_spec s ≡ (err unrecognized_addr_type, record s { input = more })
unfolding read_addr_spec read_host read_byte
read_addr_spec-unrecognized t more s n1 n4 n3 e = ground arith

-- A request of the client: version, command, a reserved byte, the address.
abbrev pub encode_request : ℕ → ℕ → Host → ℕ → Bytes
encode_request command reserved h port = socks5_version ∷ command ∷ reserved ∷ encode h port

abbrev pub request : ℕ → Host → ℕ → Request
request command h port = record {
  version = socks5_version;
  command = command;
  auth_context = none;
  remote_addr = none;
  dest_addr = spec h port;
  real_dest_addr = none;
}

-- `NewRequest` reads every well-formed request, whatever its command and its reserved byte are, and
-- leaves what the client sent behind it.
pub new_request-encode :
    (command reserved : ℕ) (h : Host) (port : ℕ) (rest : Bytes) (s : Stream)
    → IsHost h
    → port < 2 ^ 16
    → s.input ≡ encode_request command reserved h port ++ rest
    → new_request s ≡ (ok (request command h port), record s { input = rest })
unfolding new_request
new_request-encode command reserved h port rest s fits small e =
    let head : Bytes = socks5_version ∷ command ∷ reserved ∷ [] in
    let behind : Bytes = encode h port ++ rest in
    ground (
      arith,
      read_full-append 3 head behind s,
      read_addr_spec-encode h port rest (record s { input = behind }) fits small refl,
    )

-- Any other version is refused on the three bytes of the header alone.
pub new_request-version :
    (version command reserved : ℕ) (rest : Bytes) (s : Stream)
    → version ≢ socks5_version
    → s.input ≡ version ∷ command ∷ reserved ∷ rest
    → new_request s ≡ (err (unsupported_command_version version), record s { input = rest })
unfolding new_request
new_request-version version command reserved rest s ne e =
    ground (arith, read_full-append 3 (version ∷ command ∷ reserved ∷ []) rest s)
