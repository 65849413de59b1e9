-- ===== src/Protocol/Oneof.antt =====
-- protocol/protocol.pb.go: the functions for the `oneof` of an envelope that `XXX_OneofFuncs` gives to
-- the protobuf library. What they call of that library is a parameter.
pub mod Laws
use qtun.Base.{
  ℕ, ◌+◌, ◌*◌, ◌^◌, Bool, true, false, Option, none, some, [], ◌++◌, ◌==◌, if◌then◌else◌, Bytes,
  Result, ok, err, panic, Action,
}
use Prim.Native.Nat.{bit_or}
use qtun.Protocol.{MessagePing, MessagePacket, envelope_ping, envelope_packet, Envelope}

-- `EncodeMessage`, as the bytes that it appends; `DecodeMessage` into a new message: the message, the
-- error, and what is left to read; and `Size`.
pub record Coder (E A : Type 0) : Type 0 where
  pub encode_message : A → Result E Bytes
  pub decode_message : Bytes → A × Option E × Bytes
  pub size : A → ℕ

pub record Proto : Type 1 where
  pub Failure : Type 0
  -- `EncodeVarint`, as the bytes that it appends, and `SizeVarint`.
  pub encode_varint : ℕ → Bytes
  pub size_varint : ℕ → ℕ
  pub ping : Coder Failure MessagePing
  pub packet : Coder Failure MessagePacket
  -- What lies behind the bytes of a payload that was decoded, up to its capacity, by its length.
  pub spare : ℕ → Bytes
  -- `ErrInternalBadWireType`
  pub bad_wire_type : Failure

-- `proto.WireBytes`
abbrev pub wire_bytes : ℕ
wire_bytes = 2

-- `tag<<3 | proto.WireBytes`
abbrev pub key_of : ℕ → ℕ
key_of tag = bit_or (tag * 2 ^ 3) wire_bytes

module _ (lib : Proto) where
  -- The key, and `EncodeMessage`, which leaves the key behind when it fails.
  unfoldable pub encode_field :
      {A : Type 0} → ℕ → Coder lib.Failure A → A → Action Bytes lib.Failure (Unit {0})
  encode_field tag coder x b =
      let b' : Bytes = b ++ lib.encode_varint (key_of tag) in
      elim (coder.encode_message x) [
        | ok bytes ↦ (ok tt, b' ++ bytes)
        | err e ↦ (err e, b')
        | panic p ↦ (panic p, b')
      ]

  -- `_Envelope_OneofMarshaler`, on what the buffer holds.
  unfoldable pub oneof_marshaler : Envelope → Action Bytes lib.Failure (Unit {0})
  unfolding encode_field
  oneof_marshaler m b = elim m.type [
    | none ↦ (ok tt, b)
    | some (envelope_ping x) ↦ encode_field 1 lib.ping x b
    | some (envelope_packet x) ↦ encode_field 2 lib.packet x b
  ]

  -- `_Envelope_OneofUnmarshaler`: whether the tag is one of its own, the error, the envelope, and what
  -- is left to read.
  unfoldable pub oneof_unmarshaler :
      ℕ → ℕ → Envelope → Bytes → (Bool × Option lib.Failure) × Envelope × Bytes
  oneof_unmarshaler tag wire m b =
      if tag == 1
      then (if wire == wire_bytes
          then (let (msg, e, rest) = lib.ping.decode_message b in
              ((true, e), record m { type = some (envelope_ping msg) }, rest))
          else ((true, some lib.bad_wire_type), m, b))
      else if tag == 2
      then (if wire == wire_bytes
          then (let (msg, e, rest) = lib.packet.decode_message b in
              ((true, e), record m { type = some (envelope_packet msg) }, rest))
          else ((true, some lib.bad_wire_type), m, b))
      else ((false, none), m, b)

  unfoldable pub size_field : {A : Type 0} → Coder lib.Failure A → A → ℕ
  size_field coder x = let s = coder.size x in 1 + lib.size_varint s + s

  -- `_Envelope_OneofSizer`
  unfoldable pub oneof_sizer : Envelope → ℕ
  unfolding size_field
  oneof_sizer m = elim m.type [
    | none ↦ 0
    | some (envelope_ping x) ↦ size_field lib.ping x
    | some (envelope_packet x) ↦ size_field lib.packet x
  ]
