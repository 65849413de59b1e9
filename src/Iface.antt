-- ===== src/Iface.antt =====
-- iface/packet_ip.go: an IP packet as a Go slice, and the textual form of an IPv4 address.
pub mod Device
pub mod Tests
use qtun.Base.{
  ℕ, ◌+◌, ◌/◌, ◌%◌, [], ◌∷◌, ◌++◌, ltb, if◌then◌else◌, length, take, drop, replicate, Bytes,
  index_out_of_range, Result, ok, panic,
}

-- A `PacketIP`: its bytes, and what lies behind them up to the slice's capacity, which Go lets a
-- slice expression reach.
pub record PacketIp : Type 0 where
  pub bytes : Bytes
  pub spare : Bytes

-- `NewPacketIP(size)`
unfoldable pub new_packet_ip : ℕ → PacketIp
new_packet_ip size = record { bytes = replicate size 0; spare = [] }

-- `p[lo : lo + 4]`: in bounds up to the capacity.
unfoldable pub slice_ip : PacketIp → ℕ → Result (Unit {0}) Bytes
slice_ip p lo =
    let all = p.bytes ++ p.spare in
    if ltb (length all) (lo + 4) then panic index_out_of_range else ok (take 4 (drop lo all))

unfoldable pub get_source_ip : PacketIp → Result (Unit {0}) Bytes
unfolding slice_ip
get_source_ip p = slice_ip p 12

unfoldable pub get_destination_ip : PacketIp → Result (Unit {0}) Bytes
unfolding slice_ip
get_destination_ip p = slice_ip p 16

-- A byte in decimal.
abbrev pub itoa_byte : ℕ → Bytes
itoa_byte n =
    if ltb n 10
    then (b'0' + n) ∷ []
    else if ltb n 100
    then (b'0' + n / 10) ∷ (b'0' + n % 10) ∷ []
    else (b'0' + n / 100) ∷ (b'0' + n / 10 % 10) ∷ (b'0' + n % 10) ∷ []

-- `IP.String()` of four bytes.
unfoldable pub ip_string : Bytes → Bytes
ip_string (a ∷ b ∷ c ∷ d ∷ _) =
    itoa_byte a ++ (b'.' ∷ (itoa_byte b ++ (b'.' ∷ (itoa_byte c ++ (b'.' ∷ itoa_byte d)))))
ip_string _ = []
