-- ===== src/Protocol/Tests.antt =====
-- A library that keeps to what is asked of it, and the theorem about the `oneof` at it.
use qtun.Base.{
  ℕ, ◌/◌, ◌%◌, ◌^◌, ◌≡◌, refl, true, Option, none, some, [], ◌∷◌, ◌++◌, append_assoc, arith, length,
  take, drop, take-append_length, drop-append_length, Bytes, text, ok,
}
use qtun.Protocol.{MessagePing, MessagePacket, envelope_ping, envelope_packet}
use qtun.Protocol.Oneof.{Coder, Proto, oneof_marshaler, oneof_unmarshaler, oneof_sizer}
use qtun.Protocol.Oneof.Laws.{IsProto, oneof_unmarshaler-marshaler}

-- A text behind its length.
abbrev pub block : Bytes → Bytes
block a = length a ∷ a

abbrev pub read_block : Bytes → Bytes × Bytes
read_block [] = ([], [])
read_block (n ∷ bs) = (take n bs, drop n bs)

read_block-append : (a r : Bytes) → read_block (block a ++ r) ≡ (a, r)
read_block-append a r = ground (arith, take-append_length a r, drop-append_length a r)

abbrev pub ping_body : MessagePing → Bytes
ping_body p =
    p.timestamp ∷ (block p.local_addr ++ (block p.local_private_addr ++ (block p.ip ++ block p.dc)))

abbrev pub read_ping : Bytes → MessagePing × Option (Unit {0}) × Bytes
read_ping (size ∷ time ∷ bs) =
    let (addr, bs1) = read_block bs in
    let (private_addr, bs2) = read_block bs1 in
    let (ip, bs3) = read_block bs2 in
    let (dc, rest) = read_block bs3 in
    (
      record {
        timestamp = time;
        local_addr = addr;
        local_private_addr = private_addr;
        ip = ip;
        dc = dc;
      },
      none,
      rest,
    )
read_ping _ = (
  record { timestamp = 0; local_addr = []; local_private_addr = []; ip = []; dc = [] },
  some tt,
  [],
)

abbrev ping_coder : Coder (Unit {0}) MessagePing
ping_coder = record {
  encode_message = λ p. ok (block (ping_body p));
  decode_message = read_ping;
  size = λ p. length (ping_body p);
}

abbrev packet_coder : Coder (Unit {0}) MessagePacket
packet_coder = record {
  encode_message = λ m. ok (block m.payload.bytes);
  decode_message = λ bs.
      let (bytes, rest) = read_block bs in
      (record { payload = record { bytes = bytes; spare = 0 ∷ [] } }, none, rest);
  size = λ m. length m.payload.bytes;
}

abbrev toy_proto : Proto
toy_proto = record {
  Failure = Unit {0};
  spare = λ n. 0 ∷ [];
  encode_varint = λ n. n ∷ [];
  size_varint = λ n. 1;
  ping = ping_coder;
  packet = packet_coder;
  bad_wire_type = tt;
}

pub read_ping-body :
    (p : MessagePing) (rest : Bytes) → read_ping (block (ping_body p) ++ rest) ≡ (p, none, rest)
read_ping-body p rest = ground (
  arith,
  append_assoc (block p.local_addr) (block p.local_private_addr ++ (block p.ip ++ block p.dc)) rest,
  append_assoc (block p.local_private_addr) (block p.ip ++ block p.dc) rest,
  append_assoc (block p.ip) (block p.dc) rest,
  read_block-append p.local_addr
      (block p.local_private_addr ++ (block p.ip ++ (block p.dc ++ rest))),
  read_block-append p.local_private_addr (block p.ip ++ (block p.dc ++ rest)),
  read_block-append p.ip (block p.dc ++ rest),
  read_block-append p.dc rest,
)

toy_proto-IsProto : IsProto toy_proto
toy_proto-IsProto = record {
  one_byte = λ n lt. refl;
  varint_sizes = λ n. refl;
  ping = record {
    body = ping_body;
    encodes = λ p. refl;
    sizes = λ p. refl;
    decodes = read_ping-body;
  };
  packet = record {
    body = λ m. m.payload.bytes;
    encodes = λ m. refl;
    sizes = λ m. refl;
    decodes = λ m rest. ground (arith, read_block-append m.payload.bytes rest);
  };
}

abbrev hello : MessagePing
hello = record {
  timestamp = 7;
  local_addr = text "10.4.4.3:4242";
  local_private_addr = text "not_use";
  ip = text "10.4.4.3";
  dc = text "client";
}

abbrev packet : MessagePacket
packet = record { payload = record { bytes = 5 ∷ 6 ∷ []; spare = 7 ∷ [] } }

hello_back :
    oneof_unmarshaler toy_proto 1 2 (record { type = none }) (block (ping_body hello) ++ (4 ∷ []))
    ≡ ((true, none), record { type = some (envelope_ping hello) }, 4 ∷ [])
unfolding oneof_unmarshaler
hello_back = refl

oneof_unmarshaler-marshaler_example :
    (key : ℕ) × (field : Bytes) × (oneof_marshaler toy_proto
        (record { type = some (envelope_packet packet) })
        (1 ∷ [])
      ≡ (ok tt, (1 ∷ []) ++ (key ∷ field)))
    × (oneof_unmarshaler toy_proto
          (key / 2 ^ 3)
          (key % 2 ^ 3)
          (record { type = none })
          (field ++ (4 ∷ []))
        ≡ (
          (true, none),
          record {
            type = some (
                envelope_packet
                  (record { payload = record { bytes = 5 ∷ 6 ∷ []; spare = 0 ∷ [] } }));
          },
          4 ∷ [],
        ))
    × (length (key ∷ field)
        ≡ oneof_sizer toy_proto (record { type = some (envelope_packet packet) }))
oneof_unmarshaler-marshaler_example =
    oneof_unmarshaler-marshaler toy_proto (envelope_packet packet) (record { type = none }) (1 ∷ [])
      (4 ∷ []) toy_proto-IsProto
