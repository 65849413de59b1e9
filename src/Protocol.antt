-- ===== src/Protocol.antt =====
-- protocol/protocol.proto and the accessors of protocol/protocol.pb.go: the messages inside a frame.
pub mod Oneof
pub mod Tests
use qtun.Base.{ℕ, ◌≡◌, Option, none, some, [], length, Bytes, ℕ_key, bytes_key}
use qtun.Iface.{PacketIp}

pub record MessagePing : Type 0 where
  pub timestamp : ℕ
  pub local_addr : Bytes
  pub local_private_addr : Bytes
  pub ip : Bytes
  pub dc : Bytes

pub record MessagePacket : Type 0 where
  pub payload : PacketIp

-- `isEnvelope_Type`
pub data EnvelopeType : Type 0 where
  envelope_ping : MessagePing → EnvelopeType
  envelope_packet : MessagePacket → EnvelopeType

pub record Envelope : Type 0 where
  -- `Type`, nil if no field of the `oneof` is set.
  pub type : Option EnvelopeType

unfoldable pub get_ping : Envelope → Option MessagePing
get_ping m = elim m.type [
  | none ↦ none
  | some (envelope_ping p) ↦ some p
  | some (envelope_packet p) ↦ none
]

unfoldable pub get_packet : Envelope → Option MessagePacket
get_packet m = elim m.type [
  | none ↦ none
  | some (envelope_ping p) ↦ none
  | some (envelope_packet p) ↦ some p
]

-- The getters work on a nil message too.
unfoldable pub get_local_addr : Option MessagePing → Bytes
get_local_addr none = []
get_local_addr (some m) = m.local_addr

unfoldable pub get_timestamp : Option MessagePing → ℕ
get_timestamp none = 0
get_timestamp (some m) = m.timestamp

unfoldable pub get_local_private_addr : Option MessagePing → Bytes
get_local_private_addr none = []
get_local_private_addr (some m) = m.local_private_addr

unfoldable pub get_dc : Option MessagePing → Bytes
get_dc none = []
get_dc (some m) = m.dc

unfoldable pub get_ip : Option MessagePing → Bytes
get_ip none = []
get_ip (some m) = m.ip

unfoldable pub get_payload : Option MessagePacket → PacketIp
get_payload none = record { bytes = []; spare = [] }
get_payload (some m) = m.payload

-- `proto.Marshal` and `proto.Unmarshal` of github.com/golang/protobuf, which are no code of the
-- repository; `none` where `Unmarshal` reports an error.
pub record Codec : Type 0 where
  pub marshal : Envelope → Bytes
  pub unmarshal : Bytes → Option Envelope
  -- What the decoder's allocation leaves behind a payload of that length.
  pub spare : ℕ → Bytes

-- Decoding gives back what was encoded: a packet's payload, byte for byte.
pub record IsCodec (c : Codec) : Type 0 where
  pub packets :
      (p : PacketIp)
      → c.unmarshal (c.marshal (record { type = some (envelope_packet (record { payload = p })) }))
        ≡ some (record {
          type = some (
              envelope_packet (record {
                payload = record { bytes = p.bytes; spare = c.spare (length p.bytes) };
              }));
        })
