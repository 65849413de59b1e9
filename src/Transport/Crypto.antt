-- ===== src/Transport/Crypto.antt =====
-- transport/crypto.go and the digests of utils/hash.go: how a key becomes a cipher.
use qtun.Base.{
  ◌≡◌, refl, ◌≢◌, ◌⊎◌, inl, inr, Option, some, [], ◌∷◌, arith, length, Bytes, ℕ_key, bytes_key,
  Result, ok, err, panic,
}
use qtun.Transport.Aead.{Aead}

-- Go's `crypto/md5`, `crypto/sha256`, `crypto/aes` and `crypto/cipher`, and the errors of the last
-- two. A digest is what `New`, `Write` and `Sum(nil)` yield together.
pub record Crypto : Type 1 where
  pub Block : Type 0
  pub Failure : Type 0
  pub md5 : Bytes → Bytes
  pub sha256 : Bytes → Bytes
  pub new_cipher : Bytes → Result Failure Block
  pub new_gcm : Block → Result Failure Aead

-- What their documentation says: the sizes of the digests, the key sizes that `NewCipher` takes,
-- and that an AES block serves for GCM.
pub record IsDocumented (c : Crypto) : Type 0 where
  pub md5_size : (m : Bytes) → length (c.md5 m) ≡ 16
  pub sha256_size : (m : Bytes) → length (c.sha256 m) ≡ 32
  pub takes_16 : (k : Bytes) → length k ≡ 16 → (b : c.Block) × (c.new_cipher k ≡ ok b)
  pub takes_32 : (k : Bytes) → length k ≡ 32 → (b : c.Block) × (c.new_cipher k ≡ ok b)
  pub gcm : (b : c.Block) → (a : Aead) × (c.new_gcm b ≡ ok a)

module _ (c : Crypto) where
  abbrev gcm_of : Result c.Failure c.Block → Result c.Failure Aead
  gcm_of (ok block) = c.new_gcm block
  gcm_of (err e) = err e
  gcm_of (panic p) = panic p

  unfoldable pub make_aes128gcm : Bytes → Result c.Failure Aead
  make_aes128gcm key = gcm_of (c.new_cipher (c.md5 key))

  unfoldable pub make_aes256gcm : Bytes → Result c.Failure Aead
  make_aes256gcm key = gcm_of (c.new_cipher (c.sha256 key))

  -- `crypto` of both ends: the cipher that is installed afterwards, given the one before.
  unfoldable pub crypto : Bytes → Option Aead → Result c.Failure (Option Aead)
  unfolding make_aes128gcm
  crypto [] before = ok before
  crypto (k ∷ ey) before = elim (make_aes128gcm (k ∷ ey)) [
    | ok a ↦ ok (some a)
    | err e ↦ err e
    | panic p ↦ panic p
  ]

-- Under the documented behaviour of the libraries `crypto` never fails: an empty key leaves the end
-- as it was, any other key installs a cipher.
pub crypto_total :
    (c : Crypto) (d : IsDocumented c) (key : Bytes) (before : Option Aead)
    → ((key ≡ []) × (crypto c key before ≡ ok before))
      ⊎ ((a : Aead) × (key ≢ []) × (crypto c key before ≡ ok (some a)))
unfolding crypto
crypto_total c d [] before = inl (refl, refl)
crypto_total c d (k ∷ ey) before =
    let (b, keyed) = d.takes_16 (c.md5 (k ∷ ey)) (d.md5_size (k ∷ ey)) in
    let (a, made) = d.gcm b in inr (a, (λ e. cc), ground (arith, keyed, made))

-- Both key derivations yield a cipher for every key.
pub make_gcm_total :
    (c : Crypto) (d : IsDocumented c) (key : Bytes)
    → (a b : Aead) × (make_aes128gcm c key ≡ ok a) × (make_aes256gcm c key ≡ ok b)
unfolding make_aes128gcm make_aes256gcm
make_gcm_total c d key =
    let (b, keyed) = d.takes_16 (c.md5 key) (d.md5_size key) in
    let (b', keyed') = d.takes_32 (c.sha256 key) (d.sha256_size key) in
    let (a, made) = d.gcm b in
    let (a', made') = d.gcm b' in
    (a, a', ground (arith, keyed, made), ground (arith, keyed', made'))
