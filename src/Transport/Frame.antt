-- ===== src/Transport/Frame.antt =====
-- The frame format that both ends share: transport/client_conn.go `write` and `read`,
-- transport/server_conn.go `write` and `read`. A frame is a byte that tells whether it is sealed,
-- the length of its body as a little-endian uint16, the body, and, if it is sealed, the nonce.
pub mod Head
pub mod Cut
pub mod RoundTrip
pub mod Security
pub mod Reads
use qtun.Base.{
  ℕ, ◌+◌, ◌*◌, ◌/◌, ◌%◌, ◌^◌, Option, none, some, ◌∷◌, ◌++◌, ltb, ◌==◌, if◌then◌else◌, length,
  Bytes, index_out_of_range, nil_dereference, Result, ok, err, panic, Action, pure, fail, wrap, [],
  ◌>>=◌, ◌>>◌,
}
use qtun.Stream.{Stream, IoError, read_byte, read_full, write}
use qtun.Transport.Aead.{Aead}

pub data ReadError : Type 0 where
  io : IoError → ReadError
  -- What `Open` reports.
  unseal_failed : ReadError
  -- `ErrCiperNotMatch`
  cipher_not_match : ReadError

-- `uint16(n)`
abbrev pub to_uint16 : ℕ → ℕ
to_uint16 n = n % 2 ^ 16

-- `binary.Write(buf, binary.LittleEndian, &dataLen)`
abbrev pub put_uint16 : ℕ → Bytes
put_uint16 n = (n % 256) ∷ (n / 256) ∷ []

abbrev pub uint16_of : Bytes → ℕ
uint16_of (lo ∷ hi ∷ _) = lo + 256 * hi
uint16_of _ = 0

-- The bytes that `write` collects in its buffer: `secure`, `dataLen`, and the data.
unfoldable pub plain_frame : Bytes → Bytes
plain_frame payload = 0 ∷ put_uint16 (to_uint16 (length payload)) ++ payload

unfoldable pub sealed_frame : Aead → Bytes → Bytes → Bytes
sealed_frame a nonce payload =
    let sealed = a.seal nonce payload in
    1 ∷ put_uint16 (to_uint16 (length sealed)) ++ (sealed ++ nonce)

-- `make([]byte, 65536)`
abbrev pub read_buf_size : ℕ
read_buf_size = 65536

-- `io.ReadFull(reader, buf[:dataLen])` with the slice's own bounds check.
unfoldable pub read_slice : ℕ → Action Stream ReadError Bytes
read_slice n s =
    if ltb read_buf_size n then (panic index_out_of_range, s) else wrap io (read_full n) s

-- The first half of `read`: the byte, the length, and the body.
unfoldable pub read_head : Action Stream ReadError (ℕ × Bytes)
unfolding read_slice
read_head = do
  secure ← wrap io read_byte
  data_len ← wrap io (read_full 2)
  body ← read_slice (uint16_of data_len)
  pure (secure, body)

-- What follows the head of a sealed frame; `refused` is what the caller reports if it does not open.
unfoldable pub read_sealed : Option Aead → ReadError → Bytes → Action Stream ReadError Bytes
read_sealed none refused body = λ s. (panic nil_dereference, s)
read_sealed (some a) refused body = do
  nonce ← wrap io (read_full a.nonce_size)
  elim (a.unseal nonce body) [ none ↦ fail refused | some plain ↦ pure plain ]

-- `read`, for the cipher that `crypto` has installed.
unfoldable pub read_frame : Option Aead → ReadError → Action Stream ReadError Bytes
read_frame aesgcm refused = do
  (secure, body) ← read_head
  if secure == 0 then pure body else read_sealed aesgcm refused body

-- What `io.ReadFull(crand.Reader, p)` comes back with, for a `p` of the given size.
abbrev pub Random : Type 0
Random = ℕ → Result IoError Bytes

-- The fields of `ClientConn` and `ServerConn` that `write` and `read` use.
pub record Endpoint : Type 0 where
  pub conn : Option Stream
  pub aesgcm : Option Aead
  pub buf : Bytes

pub data WriteError : Type 0 where
  no_connection : WriteError
  write_io : IoError → WriteError

unfoldable pub fill_sealed : Aead → Bytes → Result IoError Bytes → Result IoError (Unit {0}) × Bytes
unfolding sealed_frame
fill_sealed a payload (ok nonce) = (ok tt, sealed_frame a nonce payload)
fill_sealed a payload (err e) = (err e, 1 ∷ [])
fill_sealed a payload (panic p) = (panic p, 1 ∷ [])

-- `write` up to the buffer's `WriteTo`: the outcome so far, and what the buffer holds.
unfoldable pub fill : Option Aead → Random → Bytes → Result IoError (Unit {0}) × Bytes
unfolding plain_frame fill_sealed
fill none random payload = (ok tt, plain_frame payload)
fill (some a) random payload = fill_sealed a payload (random a.nonce_size)

unfoldable pub flushed :
    Endpoint → Bytes → Result IoError (Unit {0}) × Stream → Result WriteError (Unit {0}) × Endpoint
flushed e frame (ok _, s) = (ok tt, record e { conn = some s; buf = [] })
flushed e frame (err x, s) = (err (write_io x), record e { conn = some s; buf = frame })
flushed e frame (panic p, s) = (panic p, record e { conn = some s; buf = frame })

-- `buf.WriteTo(conn)`, if the buffer was filled.
unfoldable pub flush :
    Endpoint → Stream → Result IoError (Unit {0}) × Bytes → Result WriteError (Unit {0}) × Endpoint
unfolding flushed
flush e s (ok _, frame) = flushed e frame (write frame s)
flush e s (err x, frame) = (err (write_io x), record e { buf = frame })
flush e s (panic p, frame) = (panic p, record e { buf = frame })

-- `write`
unfoldable pub write_frame : Random → Bytes → Action Endpoint WriteError (Unit {0})
unfolding flush
write_frame random payload e = elim e.conn [
  | none ↦ (err no_connection, e)
  | some s ↦ flush e s (fill e.aesgcm random payload)
]
