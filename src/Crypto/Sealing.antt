-- ===== src/Crypto/Sealing.antt =====
-- Encrypting and decrypting: what an encryption looks like, and that it is read back.
use nox_vault.Models.{crypto_algorithm, EncryptedValue}
use nox_vault.Crypto.{encrypt, encrypt_with, decrypt}
use nox_vault.Libraries.Sodium.{Random, Sodium}
use nox_vault.Common.{
  eq_text_iff, Option-cases, arith, length, Text, Bytes, inl, true, pos, ◌+◌, ◌≡◌, inr, ◌≤◌, some,
}
use nox_vault.Errors.{is_crypto, Error, ok, err}

module _ ⦃S : Sodium⦄ where
  -- The form of every encrypted value that the client makes.
  pub record IsSealed (plaintext : Bytes) (value : EncryptedValue) : Type 0 where
    pub version : value.version ≡ pos 1
    pub algorithm : value.algorithm ≡ crypto_algorithm
    pub nonce : length value.nonce ≡ 24
    pub ciphertext : length value.ciphertext ≡ length plaintext + 16

  encrypt_with-IsSealed :
      (nonce plaintext key : Bytes) (aad : Text) (v : EncryptedValue)
      → length nonce ≡ 24
      → encrypt_with nonce plaintext key aad ≡ ok v
      → IsSealed plaintext v
  unfolding encrypt_with
  encrypt_with-IsSealed nonce plaintext key aad v n e =
      elim (Option-cases (S.aead_encrypt plaintext aad nonce key)) [
        | inl q ↦ absurd (ground (arith, q))
        | inr (c, q) ↦
            let len = S.length-aead_encrypt plaintext aad nonce key c q in
            record {
              version = ground (arith, q);
              algorithm = ground (arith, q);
              nonce = ground (arith, q);
              ciphertext = ground (arith, q, len);
            }
      ]

  decrypt-encrypt_with :
      (nonce plaintext key : Bytes) (aad : Text) (v : EncryptedValue)
      → length nonce ≡ 24
      → length key ≡ 32
      → encrypt_with nonce plaintext key aad ≡ ok v
      → decrypt v key aad ≡ ok plaintext
  unfolding encrypt_with decrypt
  decrypt-encrypt_with nonce plaintext key aad v n k e =
      elim (Option-cases (S.aead_encrypt plaintext aad nonce key)) [
        | inl q ↦ absurd (ground (arith, q))
        | inr (c, q) ↦ ground (
          arith,
          q,
          S.length-aead_encrypt plaintext aad nonce key c q,
          S.decrypt-encrypt plaintext aad nonce key c q,
        )
      ]

  -- A value that decrypts has the supported format, a whole key, nonce and tag.
  pub decrypt-ok :
      (v : EncryptedValue) (key : Bytes) (aad : Text) (plaintext : Bytes)
      → decrypt v key aad ≡ ok plaintext
      → (v.version ≡ pos 1)
        × (v.algorithm ≡ crypto_algorithm)
        × (length key ≡ 32)
        × (length v.nonce ≡ 24)
        × (16 ≤ length v.ciphertext)
        × (S.aead_decrypt v.ciphertext aad v.nonce key ≡ some plaintext)
  unfolding decrypt
  decrypt-ok v key aad plaintext h = ground (arith, eq_text_iff v.algorithm crypto_algorithm)

  -- Decryption fails only with a crypto exception.
  pub decrypt-err :
      (v : EncryptedValue) (key : Bytes) (aad : Text) (e : Error)
      → decrypt v key aad ≡ err e
      → is_crypto e ≡ true
  unfolding decrypt
  decrypt-err v key aad e h = ground arith

module _ ⦃S : Sodium⦄ ⦃R : Random⦄ where
  pub encrypt-ok :
      (plaintext key : Bytes) (aad : Text) (s s' : R.State) (v : EncryptedValue)
      → encrypt plaintext key aad s ≡ (ok v, s')
      → (length key ≡ 32) × (encrypt_with (R.buffer 24 s).0 plaintext key aad ≡ ok v)
  unfolding encrypt
  encrypt-ok plaintext key aad s s' v e = ground arith

  -- A value that `encrypt` returns decrypts, with the same key and additional data, to the
  -- plaintext.
  pub decrypt-encrypt :
      (plaintext key : Bytes) (aad : Text) (s s' : R.State) (v : EncryptedValue)
      → encrypt plaintext key aad s ≡ (ok v, s')
      → decrypt v key aad ≡ ok plaintext
  decrypt-encrypt plaintext key aad s s' v e =
      let (k, w) = encrypt-ok plaintext key aad s s' v e in
      decrypt-encrypt_with (R.buffer 24 s).0 plaintext key aad v (R.length-buffer 24 s) k w

  -- Every value that `encrypt` returns has the supported format, a whole nonce, and a ciphertext that
  -- is longer than the plaintext by the tag.
  pub encrypt-IsSealed :
      (plaintext key : Bytes) (aad : Text) (s s' : R.State) (v : EncryptedValue)
      → encrypt plaintext key aad s ≡ (ok v, s')
      → IsSealed plaintext v
  encrypt-IsSealed plaintext key aad s s' v e =
      let (k, w) = encrypt-ok plaintext key aad s s' v e in
      encrypt_with-IsSealed (R.buffer 24 s).0 plaintext key aad v (R.length-buffer 24 s) w
