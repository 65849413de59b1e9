-- ===== src/Transport/Frame/Cut.antt =====
-- A frame that breaks off is never delivered.
use qtun.Base.{
  ℕ, zero, suc, ◌+◌, ◌*◌, ◌≤◌, ◌≡◌, refl, ap, Option, none, some, List, [], ◌∷◌, ◌++◌, append-nil,
  arith, length, take, drop, length-append, Bytes, ℕ_key, bytes_key, Result, ok, err, panic,
}
use qtun.Stream.{Stream, IoError, read_byte, read_full}
use qtun.Transport.Aead.{Aead}
use qtun.Transport.Frame.{
  ReadError, io, unseal_failed, cipher_not_match, read_slice, read_head, read_sealed, read_frame,
}
use qtun.Transport.Frame.RoundTrip.{frame, Keyed, Fits, read_frame-frame}

-- Any outcome but a failed read.
abbrev IsSettled {ℓ} : {A : Type ℓ} → Result ReadError A → Type 0
IsSettled (ok a) = Unit {0}
IsSettled (err (io e)) = ⊥
IsSettled (err unseal_failed) = Unit {0}
IsSettled (err cipher_not_match) = Unit {0}
IsSettled (panic p) = Unit {0}

take-append {ℓ} :
    {A : Type ℓ} (n : ℕ) (xs ys : List A) → n ≤ length xs → take n (xs ++ ys) ≡ take n xs
take-append zero xs ys h = refl
take-append (suc n) [] ys h = absurd (omega arith)
take-append (suc n) (x ∷ xs) ys h = ap (◌∷◌ x) (take-append n xs ys (omega arith))

drop-append {ℓ} :
    {A : Type ℓ} (n : ℕ) (xs ys : List A) → n ≤ length xs → drop n (xs ++ ys) ≡ drop n xs ++ ys
drop-append zero xs ys h = refl
drop-append (suc n) [] ys h = absurd (omega arith)
drop-append (suc n) (x ∷ xs) ys h = drop-append n xs ys (omega arith)

read_head-append :
    (r r' : Stream) (input more : Bytes) (res : Result ReadError (ℕ × Bytes))
    → IsSettled res
    → read_head (record r { input = input }) ≡ (res, r')
    → read_head (record r { input = input ++ more }) ≡ (res, record r' { input = r'.input ++ more })
unfolding read_head read_byte read_slice read_full
read_head-append r r' [] more res settled h = ground arith
read_head-append r r' (x ∷ []) more res settled h = ground arith
read_head-append r r' (x ∷ lo ∷ []) more res settled h = ground arith
read_head-append r r' (x ∷ lo ∷ hi ∷ body) more res settled h =
    let n : ℕ = lo + 256 * hi in
    ground (arith, length-append body more, take-append n body more, drop-append n body more)

read_sealed-append :
    (k : Option Aead) (refused : ReadError) (body : Bytes) (r r' : Stream) (more : Bytes)
    (res : Result ReadError Bytes)
    → IsSettled res
    → read_sealed k refused body r ≡ (res, r')
    → read_sealed k refused body (record r { input = r.input ++ more })
      ≡ (res, record r' { input = r'.input ++ more })
unfolding read_sealed read_full
read_sealed-append none refused body r r' more res settled h = ground arith
read_sealed-append (some a) refused body r r' more res settled h = ground (
  arith,
  length-append r.input more,
  take-append a.nonce_size r.input more,
  drop-append a.nonce_size r.input more,
)

-- Bytes behind what a settled `read` took stay where they are, and change nothing else.
read_frame-append :
    (k : Option Aead) (refused : ReadError) (r r' : Stream) (input more : Bytes)
    (res : Result ReadError Bytes)
    → IsSettled res
    → read_frame k refused (record r { input = input }) ≡ (res, r')
    → read_frame k refused (record r { input = input ++ more })
      ≡ (res, record r' { input = r'.input ++ more })
unfolding read_frame
read_frame-append k refused r r' input more res settled h =
    behind (read_head (record r { input = input })) refl
  where
    behind :
        (out : Result ReadError (ℕ × Bytes) × Stream)
        → read_head (record r { input = input }) ≡ out
        → read_frame k refused (record r { input = input ++ more })
          ≡ (res, record r' { input = r'.input ++ more })
    behind (ok (secure, body), s) e = ground (
      arith,
      read_head-append r s input more (ok (secure, body)) tt e,
      read_sealed-append k refused body s r' more res settled,
    )
    behind (err (io x), s) e = ground arith
    behind (err unseal_failed, s) e =
        ground (arith, read_head-append r s input more (err unseal_failed) tt e)
    behind (err cipher_not_match, s) e =
        ground (arith, read_head-append r s input more (err cipher_not_match) tt e)
    behind (panic p, s) e = ground (arith, read_head-append r s input more (panic p) tt e)

-- Whatever cipher setting the two ends share: of a frame that ends before its last byte `read`
-- reports a failed read, and never a payload, a cipher error or a panic.
pub read_frame-cut :
    (k : Option Aead) (overhead : ℕ) (nonce payload front back : Bytes) (x : ℕ)
    (refused : ReadError) (r : Stream)
    → Keyed k overhead nonce
    → Fits k overhead payload
    → frame k nonce payload ≡ front ++ (x ∷ back)
    → (e : IoError) × ((read_frame k refused (record r { input = front })).0 ≡ err (io e))
read_frame-cut k overhead nonce payload front back x refused r keyed fits e =
    settle (read_frame k refused (record r { input = front })) refl
  where
    whole :
        read_frame k refused (record r { input = front ++ (x ∷ back) })
        ≡ (ok payload, record r { input = [] })
    whole =
        read_frame-frame k overhead nonce payload [] refused
          (record r { input = front ++ (x ∷ back) }) keyed fits (rw (append-nil, e) refl)

    settle :
        (out : Result ReadError Bytes × Stream)
        → read_frame k refused (record r { input = front }) ≡ out
        → (e : IoError) × ((read_frame k refused (record r { input = front })).0 ≡ err (io e))
    settle (ok d, r') h = absurd (
        ground (
          arith,
          whole,
          length-append r'.input (x ∷ back),
          read_frame-append k refused r r' front (x ∷ back) (ok d) tt h,
        ))
    settle (err (io e), r') h = (e, ap (λ (t : Result ReadError Bytes × Stream). t.0) h)
    settle (err unseal_failed, r') h =
        cc (whole, read_frame-append k refused r r' front (x ∷ back) (err unseal_failed) tt h)
    settle (err cipher_not_match, r') h =
        cc (whole, read_frame-append k refused r r' front (x ∷ back) (err cipher_not_match) tt h)
    settle (panic p, r') h =
        cc (whole, read_frame-append k refused r r' front (x ∷ back) (panic p) tt h)
