-- ===== src/Transport/Frame/Reads.antt =====
-- What `read` leaves of the stream, whatever it comes back with: no more input, and the output as it
-- was. What `write` does to it.
use qtun.Base.{
  Fails, ℕ, ◌≤◌, ◌≡◌, refl, ltb, Bool-cases, inl, inr, Option, none, some, ◌++◌, arith, length,
  Bytes, Result, ok, err, panic, Action, and_then, wrap, wrapped, length-drop,
}
use qtun.Stream.{Stream, IoError, read_byte, read_full, write}
use qtun.Transport.Aead.{Aead}
use qtun.Transport.Frame.{
  ReadError, io, Random, Endpoint, read_frame, read_head, read_slice, read_sealed, write_frame,
  read_buf_size, fill, flush, flushed, uint16_of,
}
use qtun.Transport.Frame.RoundTrip.{frame, Draws, fill-frame}
use qtun.Stream.Laws.{input-write}

pub record IsRead (s s' : Stream) : Type 0 where
  pub no_longer : length s'.input ≤ length s.input
  pub same_output : s'.output ≡ s.output

IsRead-refl : (s : Stream) → IsRead s s
IsRead-refl s = record { no_longer = omega arith; same_output = refl }

and_then-IsRead :
    {E A B : Type 0} (s : Stream) (out : Result E A × Stream) (f : A → Action Stream E B)
    → IsRead s out.1
    → ((a : A) (t : Stream) → IsRead t (f a t).1)
    → IsRead s (and_then out f).1
and_then-IsRead s (ok a, t) f h after = ground (arith, after a t)
and_then-IsRead s (err e, t) f h after = h
and_then-IsRead s (panic p, t) f h after = h

wrapped-IsRead :
    {E F A : Type 0} (s : Stream) (f : E → F) (out : Result E A × Stream)
    → IsRead s out.1
    → IsRead s (wrapped f out).1
wrapped-IsRead s f (ok a, t) h = h
wrapped-IsRead s f (err e, t) h = h
wrapped-IsRead s f (panic p, t) h = h

read_byte-IsRead : (s : Stream) → IsRead s (read_byte s).1
unfolding read_byte
read_byte-IsRead s = ground arith

read_full-IsRead : (n : ℕ) (s : Stream) → IsRead s (read_full n s).1
unfolding read_full
read_full-IsRead n s = ground (arith, length-drop n s.input)

read_slice-IsRead : (n : ℕ) (s : Stream) → IsRead s (read_slice n s).1
unfolding read_slice
read_slice-IsRead n s = elim (Bool-cases (ltb read_buf_size n)) [
  | inl big ↦ rw big (IsRead-refl s)
  | inr fits ↦ rw fits (wrapped-IsRead s io (read_full n s) (read_full-IsRead n s))
]

read_head-IsRead : (s : Stream) → IsRead s (read_head s).1
unfolding read_head
read_head-IsRead s =
    and_then-IsRead s (wrap io read_byte s) _
      (wrapped-IsRead s io (read_byte s) (read_byte-IsRead s))
      λ secure t.
        and_then-IsRead t (wrap io (read_full 2) t) _
          (wrapped-IsRead t io (read_full 2 t) (read_full-IsRead 2 t))
          λ data_len u.
            and_then-IsRead u (read_slice (uint16_of data_len) u) _
              (read_slice-IsRead (uint16_of data_len) u) λ body v. IsRead-refl v

read_sealed-IsRead :
    (k : Option Aead) (refused : ReadError) (body : Bytes) (s : Stream)
    → IsRead s (read_sealed k refused body s).1
unfolding read_sealed
read_sealed-IsRead none refused body s = IsRead-refl s
read_sealed-IsRead (some a) refused body s =
    and_then-IsRead s (wrap io (read_full a.nonce_size) s) _
      (wrapped-IsRead s io (read_full a.nonce_size s) (read_full-IsRead a.nonce_size s))
      λ nonce t. ground arith

pub read_frame-IsRead :
    (k : Option Aead) (refused : ReadError) (s : Stream) → IsRead s (read_frame k refused s).1
unfolding read_frame
read_frame-IsRead k refused s =
    and_then-IsRead s (read_head s) _ (read_head-IsRead s)
      λ head t. ground (arith, read_sealed-IsRead k refused head.1 t)

flushed_lem :
    (e : Endpoint) (bytes : Bytes) (out : Result IoError (Unit {0}) × Stream)
    → ((flushed e bytes out).1.conn ≡ some out.1) × ((flushed e bytes out).1.aesgcm ≡ e.aesgcm)
unfolding flushed
flushed_lem e bytes (ok _, s) = (refl, refl)
flushed_lem e bytes (err x, s) = (refl, refl)
flushed_lem e bytes (panic p, s) = (refl, refl)

-- The same stream with other output and faults.
abbrev pub IsWritten : Stream → Endpoint → Endpoint → Type 0
IsWritten s e e' =
    (s' : Stream) × (e'.conn ≡ some s') × (s'.input ≡ s.input) × (e'.aesgcm ≡ e.aesgcm)

flush-IsWritten :
    (e : Endpoint) (s : Stream) (out : Result IoError (Unit {0}) × Bytes)
    → e.conn ≡ some s
    → IsWritten s e (flush e s out).1
unfolding flush
flush-IsWritten e s (ok _, bytes) at =
    let (conn, same) = flushed_lem e bytes (write bytes s) in
    ((write bytes s).1, conn, input-write bytes s, same)
flush-IsWritten e s (err x, bytes) at = (s, at, refl, refl)
flush-IsWritten e s (panic p, bytes) at = (s, at, refl, refl)

write_frame_at :
    (random : Random) (payload : Bytes) (e : Endpoint) (s : Stream)
    → e.conn ≡ some s
    → write_frame random payload e ≡ flush e s (fill e.aesgcm random payload)
unfolding write_frame
write_frame_at random payload e s at = ground arith

-- Whatever `write` comes back with, the input is left as it was.
pub write_frame-IsWritten :
    (random : Random) (payload : Bytes) (e : Endpoint) (s : Stream)
    → e.conn ≡ some s
    → IsWritten s e (write_frame random payload e).1
write_frame-IsWritten random payload e s at =
    rw (write_frame_at random payload e s at)
      (flush-IsWritten e s (fill e.aesgcm random payload) at)

flushed-eq-ok :
    (e e' : Endpoint) (bytes : Bytes) (s : Stream)
    → flushed e bytes (write bytes s) ≡ (ok tt, e')
    → (s' : Stream) × (e'.conn ≡ some s') × (s'.output ≡ s.output ++ bytes) × (e'.aesgcm ≡ e.aesgcm)
unfolding flushed write
flushed-eq-ok e e' bytes s h = ((write bytes s).1, ground arith, ground arith, ground arith)

-- A `write` that succeeds appends the payload's frame, and nothing else, to the output.
pub write_frame-eq-ok :
    (random : Random) (nonce payload : Bytes) (e e' : Endpoint) (s : Stream)
    → e.conn ≡ some s
    → Draws e.aesgcm random nonce
    → write_frame random payload e ≡ (ok tt, e')
    → (s' : Stream) × (e'.conn ≡ some s')
      × (s'.output ≡ s.output ++ frame e.aesgcm nonce payload)
      × (e'.aesgcm ≡ e.aesgcm)
unfolding write_frame flush
write_frame-eq-ok random nonce payload e e' s at drawn done =
    flushed-eq-ok e e' (frame e.aesgcm nonce payload) s
      (ground (arith, fill-frame e.aesgcm random nonce payload drawn))

flush-Fails :
    (e : Endpoint) (s : Stream) (out : Result IoError (Unit {0}) × Bytes)
    → e.conn ≡ some s
    → Fails (flush e s out).0
    → (s' : Stream) × ((flush e s out).1.conn ≡ some s') × (s'.output ≡ s.output)
unfolding flush flushed write
flush-Fails e s (ok _, bytes) at failed = ((write bytes s).1, ground arith, ground arith)
flush-Fails e s (err x, bytes) at failed = (s, at, refl)
flush-Fails e s (panic p, bytes) at failed = (s, at, refl)

-- A `write` that does not succeed adds nothing to the output.
pub write_frame-Fails :
    (random : Random) (payload : Bytes) (e : Endpoint) (s : Stream)
    → e.conn ≡ some s
    → Fails (write_frame random payload e).0
    → (s' : Stream) × ((write_frame random payload e).1.conn ≡ some s') × (s'.output ≡ s.output)
write_frame-Fails random payload e s at =
    rw (write_frame_at random payload e s at) (flush-Fails e s (fill e.aesgcm random payload) at)
