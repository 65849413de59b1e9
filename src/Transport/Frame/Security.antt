-- ===== src/Transport/Frame/Security.antt =====
-- What `read` accepts, what it refuses, and where it panics.
use qtun.Base.{
  ℕ, ◌%◌, ◌^◌, ◌<◌, ◌≤◌, ◌≡◌, refl, ◌≢◌, Option, none, some, [], ◌∷◌, ◌++◌, arith, IsByte, length,
  take, drop, All, take-append-drop, length-take_of_le, Bytes, ℕ_key, bytes_key, Panic,
  nil_dereference, ok, panic,
}
use qtun.Stream.{Stream, read_byte, read_full}
use qtun.Transport.Aead.{Aead}
use qtun.Transport.Frame.{
  ReadError, put_uint16, uint16_of, plain_frame, read_slice, read_head, read_sealed, read_frame,
}
use qtun.Transport.Frame.Head.{read_head-put}

-- An end that has a cipher installed still takes a plain frame as it stands: nothing was opened.
pub read_frame-plain :
    (k : Option Aead) (payload rest : Bytes) (refused : ReadError) (r : Stream)
    → length payload < 2 ^ 16
    → r.input ≡ plain_frame payload ++ rest
    → read_frame k refused r ≡ (ok payload, record r { input = rest })
unfolding read_frame plain_frame
read_frame-plain k payload rest refused r fits e =
    ground (arith, read_head-put 0 (length payload) payload rest r)

-- A frame whose first byte is not 0 yields a payload only if the cipher opened its body under the
-- nonce that came with it.
pub read_frame-opened :
    (a : Aead) (refused : ReadError) (r r' : Stream) (secure : ℕ) (more payload : Bytes)
    → r.input ≡ secure ∷ more
    → secure ≢ 0
    → read_frame (some a) refused r ≡ (ok payload, r')
    → (nonce : Bytes) × (body : Bytes) × (a.unseal nonce body ≡ some payload)
      × (more ≡ take 2 more ++ (body ++ (nonce ++ r'.input)))
unfolding read_frame read_head read_sealed read_byte read_slice read_full
read_frame-opened a refused r r' secure more payload e nz h =
    let n : ℕ = uint16_of (take 2 more) in
    let behind : Bytes = drop 2 more in
    let nonce : Bytes = take a.nonce_size (drop n behind) in
    (
      nonce,
      take n behind,
      ground arith,
      ground (
        arith,
        take-append-drop 2 more,
        take-append-drop n behind,
        take-append-drop a.nonce_size (drop n behind),
      ),
    )

-- Without a cipher a frame that says it is sealed, and has its whole body, makes `read` panic.
pub read_frame-keyless :
    (refused : ReadError) (r : Stream) (secure : ℕ) (body rest : Bytes)
    → secure ≢ 0
    → length body < 2 ^ 16
    → r.input ≡ (secure ∷ put_uint16 (length body)) ++ (body ++ rest)
    → (read_frame none refused r).0 ≡ panic nil_dereference
unfolding read_frame read_sealed
read_frame-keyless refused r secure body rest nz fits e =
    ground (arith, read_head-put secure (length body) body rest r)

ne_panic_of :
    (a : Aead) (refused : ReadError) (r : Stream) (p : Panic) (input : Bytes)
    → r.input ≡ input
    → All IsByte input
    → (read_frame (some a) refused r).0 ≢ panic p
unfolding read_frame read_head read_sealed read_byte read_slice read_full
ne_panic_of a refused r p [] e bytes = λ h. ground arith
ne_panic_of a refused r p (x ∷ []) e bytes = λ h. ground arith
ne_panic_of a refused r p (x ∷ lo ∷ []) e bytes = λ h. ground arith
ne_panic_of a refused r p (x ∷ lo ∷ hi ∷ more) e bytes = λ h. ground arith

-- With a cipher `read` does not panic on any input of bytes: the slice of the read buffer is always
-- in bounds.
pub read_frame-ne-panic :
    (a : Aead) (refused : ReadError) (r : Stream) (p : Panic)
    → All IsByte r.input
    → (read_frame (some a) refused r).0 ≢ panic p
read_frame-ne-panic a refused r p bytes = ne_panic_of a refused r p r.input refl bytes

-- A plain payload of 65536 bytes or more is cut: `read` returns its first `length % 65536` bytes,
-- and takes the others for the frames that follow.
pub read_frame-too_long :
    (k : Option Aead) (payload : Bytes) (refused : ReadError) (r : Stream)
    → 2 ^ 16 ≤ length payload
    → r.input ≡ plain_frame payload
    → let n = length payload % 2 ^ 16 in
      read_frame k refused r ≡ (ok (take n payload), record r { input = drop n payload })
unfolding read_frame plain_frame
read_frame-too_long k payload refused r long e =
    let n : ℕ = length payload % 2 ^ 16 in
    ground (
      arith,
      take-append-drop n payload,
      length-take_of_le n payload,
      read_head-put 0 n (take n payload) (drop n payload) r,
    )
