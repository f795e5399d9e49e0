-- ===== src/Libraries/Sodium.antt =====
-- libsodium, as far as the client calls it. A call that reports failure returns `none`; a random
-- function takes the state of the generator and returns the next one.
use nox_vault.Common.{get_or, ℕ, ◌+◌, ◌<◌, ◌≤◌, ◌≡◌, Option, some, Bytes, Text, length}

pub record Sodium : Type 0 where
  -- crypto_pwhash with ALG_ARGON2ID13: password, salt, opslimit, memlimit, output size
  pub pwhash : Text → Bytes → ℕ → ℕ → ℕ → Option Bytes
  -- crypto_aead_xchacha20poly1305_ietf_encrypt: plaintext, additional data, nonce, key
  pub aead_encrypt : Bytes → Text → Bytes → Bytes → Option Bytes
  -- crypto_aead_xchacha20poly1305_ietf_decrypt: ciphertext, additional data, nonce, key
  pub aead_decrypt : Bytes → Text → Bytes → Bytes → Option Bytes
  -- crypto_generichash: message, key
  pub generichash : Text → Bytes → Option Bytes
  -- sodium_bin2base64 and sodium_base642bin, VARIANT_ORIGINAL
  pub bin2base64 : Bytes → Text
  pub base642bin : Text → Option Bytes
  -- OPSLIMIT_INTERACTIVE and MEMLIMIT_INTERACTIVE of the installed build
  pub ops_interactive : ℕ
  pub mem_interactive : ℕ
  -- A derived key has the size that was asked for.
  pub length-pwhash :
      (password salt : Bytes) (ops mem n : ℕ) (key : Bytes)
      → pwhash password salt ops mem n ≡ some key
      → length key ≡ n
  -- The tag is 16 bytes.
  pub length-aead_encrypt :
      (m aad nonce key c : Bytes) → aead_encrypt m aad nonce key ≡ some c → length c ≡ length m + 16
  -- Decryption with the same key, nonce and additional data recovers the plaintext.
  pub decrypt-encrypt :
      (m aad nonce key c : Bytes)
      → aead_encrypt m aad nonce key ≡ some c
      → aead_decrypt c aad nonce key ≡ some m
  -- A hash has crypto_generichash_BYTES.
  pub length-generichash : (t : Text) (key h : Bytes) → generichash t key ≡ some h → length h ≡ 32
  -- The encoding of bytes that are there is not empty, and decodes to them.
  pub base642bin-bin2base64 : (b : Bytes) → base642bin (bin2base64 b) ≡ some b
  pub length-bin2base64 : (b : Bytes) → length b ≤ length (bin2base64 b)

-- randombytes_buf and randombytes_uniform over the state of the generator.
pub record Random : Type 1 where
  pub State : Type 0
  pub buffer : ℕ → State → Bytes × State
  pub uniform : ℕ → State → ℕ × State
  pub length-buffer : (n : ℕ) (s : State) → length (buffer n s).0 ≡ n
  pub buffer_lt : (n : ℕ) (s : State) (i : ℕ) → get_or (buffer n s).0 i 0 < 256
  pub uniform_lt : (n : ℕ) (s : State) → 0 < n → (uniform n s).0 < n
