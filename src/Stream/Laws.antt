-- ===== src/Stream/Laws.antt =====
-- What reads and writes do to a stream.
use qtun.Base.{
  ℕ, ◌≤◌, ◌<◌, ◌≡◌, [], ◌∷◌, ◌++◌, arith, length, take, drop, take-append_length,
  drop-append_length, length-take_of_le, Bytes, ok, err, ltb, length-append, Bool-cases, inl, inr,
  take-append-drop, sym,
}
use qtun.Stream.{Stream, read_byte, read_full, write, cut_short}

-- A read of as many bytes as `xs` has takes exactly `xs` off the front.
pub read_full-append :
    (n : ℕ) (xs rest : Bytes) (s : Stream)
    → length xs ≡ n
    → s.input ≡ xs ++ rest
    → read_full n s ≡ (ok xs, record s { input = rest })
unfolding read_full
read_full-append n xs rest s h e =
    ground (arith, length-append xs rest, take-append_length xs rest, drop-append_length xs rest)

pub read_full_short :
    (n : ℕ) (s : Stream)
    → length s.input < n
    → read_full n s ≡ (err (cut_short (length s.input) s.ending), record s { input = [] })
unfolding read_full
read_full_short n s h = ground arith

pub read_full_ok :
    (n : ℕ) (s : Stream)
    → n ≤ length s.input
    → read_full n s ≡ (ok (take n s.input), record s { input = drop n s.input })
unfolding read_full
read_full_ok n s h = ground arith

-- A read that succeeds took what it returns off the front.
pub read_full-eq-ok :
    (n : ℕ) (s : Stream) {xs : Bytes} {s' : Stream}
    → read_full n s ≡ (ok xs, s')
    → (length xs ≡ n) × (s.input ≡ xs ++ s'.input)
unfolding read_full
read_full-eq-ok n s {xs} {s'} h = elim (Bool-cases (ltb (length s.input) n)) [
  | inl short ↦ absurd (ground arith)
  | inr enough ↦
      let fits : n ≤ length s.input = ground arith in
      let same : xs ≡ take n s.input = ground arith in
      let left : s'.input ≡ drop n s.input = ground arith in
      (
        rw same (length-take_of_le n s.input fits),
        rw (same, left) (sym (take-append-drop n s.input)),
      )
]

pub read_byte-eq-ok :
    (s : Stream) {b : ℕ} {s' : Stream} → read_byte s ≡ (ok b, s') → s.input ≡ b ∷ s'.input
unfolding read_byte
read_byte-eq-ok s h = ground arith

pub input-write : (bytes : Bytes) (s : Stream) → (write bytes s).1.input ≡ s.input
unfolding write
input-write bytes s = ground arith
