-- ===== src/Transport/Aead.antt =====
-- What the code asks of Go's `crypto/cipher` and of AES-GCM (`makeAES128GCM` in
-- transport/crypto.go). The cipher itself is no code of the repository: it is this record.
use qtun.Base.{ℕ, ◌+◌, ◌≡◌, Option, some, Bytes, length}

pub record Aead : Type 0 where
  -- `NonceSize()`
  pub nonce_size : ℕ
  -- `Seal(nil, nonce, plaintext, nil)`
  pub seal : Bytes → Bytes → Bytes
  -- `Open(nil, nonce, ciphertext, nil)`; `none` where it reports an error.
  pub unseal : Bytes → Bytes → Option Bytes

-- The documented contract: what was sealed under a nonce of the right size opens under it, and the
-- ciphertext is longer than the plaintext by a fixed overhead.
pub record IsSound (a : Aead) (overhead : ℕ) : Type 0 where
  pub opens :
      (nonce plain : Bytes)
      → length nonce ≡ a.nonce_size
      → a.unseal nonce (a.seal nonce plain) ≡ some plain
  pub grows :
      (nonce plain : Bytes)
      → length nonce ≡ a.nonce_size
      → length (a.seal nonce plain) ≡ length plain + overhead
