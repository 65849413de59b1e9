-- ===== src/Protocol/Oneof/Laws.antt =====
-- Reading back what was written, and its size.
use qtun.Base.{
  ℕ, ◌+◌, ◌/◌, ◌%◌, ◌^◌, ◌<◌, ◌≡◌, ap, true, none, some, [], ◌∷◌, ◌++◌, append_assoc, arith, length,
  length-append, Bytes, ok,
}
use qtun.Protocol.{MessagePacket, EnvelopeType, envelope_ping, envelope_packet, Envelope}
use qtun.Protocol.Oneof.{
  Coder, Proto, key_of, encode_field, oneof_marshaler, oneof_unmarshaler, size_field, oneof_sizer,
}

-- What the library documents of a type of messages: `EncodeMessage` writes the length of the body as
-- a varint, and the body, whose length is `Size`; and `DecodeMessage` reads that much and gives the
-- message, as `arrives` has it.
pub record IsCoder {A : Type 0} (lib : Proto) (coder : Coder lib.Failure A) (arrives : A → A)
    : Type 0 where
  pub body : A → Bytes
  pub encodes :
      (x : A) → coder.encode_message x ≡ ok (lib.encode_varint (length (body x)) ++ body x)
  pub sizes : (x : A) → length (body x) ≡ coder.size x
  pub decodes :
      (x : A) (rest : Bytes)
      → coder.decode_message ((lib.encode_varint (length (body x)) ++ body x) ++ rest)
        ≡ (arrives x, none, rest)

-- A packet that was decoded has the bytes that were sent, and behind them what the library leaves.
abbrev pub arrived_packet : Proto → MessagePacket → MessagePacket
arrived_packet lib x = record {
  payload = record { bytes = x.payload.bytes; spare = lib.spare (length x.payload.bytes) };
}

-- And of the library: a varint below 128 is its one byte, and `SizeVarint` is its length.
pub record IsProto (lib : Proto) : Type 0 where
  pub one_byte : (n : ℕ) → n < 128 → lib.encode_varint n ≡ n ∷ []
  pub varint_sizes : (n : ℕ) → length (lib.encode_varint n) ≡ lib.size_varint n
  pub ping : IsCoder lib lib.ping (λ x. x)
  pub packet : IsCoder lib lib.packet (arrived_packet lib)

abbrev pub arrived : Proto → EnvelopeType → EnvelopeType
arrived lib (envelope_ping x) = envelope_ping x
arrived lib (envelope_packet x) = envelope_packet (arrived_packet lib x)

encode_field-ok :
    {A : Type 0} (lib : Proto) (coder : Coder lib.Failure A) (into : A → A) (tag : ℕ) (x : A)
    (b : Bytes)
    → IsProto lib
    → (c : IsCoder lib coder into) → key_of tag < 128
    → encode_field lib tag coder x b
      ≡ (ok tt, b ++ (key_of tag ∷ (lib.encode_varint (length (c.body x)) ++ c.body x)))
unfolding encode_field
encode_field-ok lib coder into tag x b v c small =
    let bytes : Bytes = lib.encode_varint (length (c.body x)) ++ c.body x in
    let key : lib.encode_varint (key_of tag) ≡ key_of tag ∷ [] = v.one_byte (key_of tag) small in
    ground (arith, c.encodes x, key, append_assoc b (key_of tag ∷ []) bytes)

length-field :
    {A : Type 0} (lib : Proto) (coder : Coder lib.Failure A) (into : A → A) (x : A)
    → IsProto lib
    → (c : IsCoder lib coder into)
    → 1 + length (lib.encode_varint (length (c.body x)) ++ c.body x) ≡ size_field lib coder x
unfolding size_field
length-field lib coder into x v c = omega (
  arith,
  length-append (lib.encode_varint (length (c.body x))) (c.body x),
  v.varint_sizes (length (c.body x)),
  ap lib.size_varint (c.sizes x),
  c.sizes x,
)

-- The marshaler appends a key and the rest of a field; from the key's tag and wire type and this rest,
-- with anything behind it, the unmarshaler makes the same message, and leaves what is behind; and
-- the sizer says how many bytes they are. A ping is the same in all its fields; a packet has the same
-- bytes, behind which, up to the capacity, lies what the library leaves there. The library does what
-- it documents.
pub oneof_unmarshaler-marshaler :
    (lib : Proto) (t : EnvelopeType) (m : Envelope) (b rest : Bytes)
    → IsProto lib
    → (key : ℕ) × (field : Bytes) × (oneof_marshaler lib (record { type = some t }) b
        ≡ (ok tt, b ++ (key ∷ field)))
      × (oneof_unmarshaler lib (key / 2 ^ 3) (key % 2 ^ 3) m (field ++ rest)
          ≡ ((true, none), record { type = some (arrived lib t) }, rest))
      × (length (key ∷ field) ≡ oneof_sizer lib (record { type = some t }))
unfolding oneof_marshaler oneof_unmarshaler oneof_sizer
oneof_unmarshaler-marshaler lib (envelope_ping x) m b rest v = (
  key_of 1,
  lib.encode_varint (length (v.ping.body x)) ++ v.ping.body x,
  encode_field-ok lib lib.ping (λ y. y) 1 x b v v.ping (omega arith),
  ground (arith, v.ping.decodes x rest),
  omega (arith, length-field lib lib.ping (λ y. y) x v v.ping),
)
oneof_unmarshaler-marshaler lib (envelope_packet x) m b rest v = (
  key_of 2,
  lib.encode_varint (length (v.packet.body x)) ++ v.packet.body x,
  encode_field-ok lib lib.packet (arrived_packet lib) 2 x b v v.packet (omega arith),
  ground (arith, v.packet.decodes x rest),
  omega (arith, length-field lib lib.packet (arrived_packet lib) x v v.packet),
)
