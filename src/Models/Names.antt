-- ===== src/Models/Names.antt =====
-- The container of an encrypted name: 'N' 'X' 'N' 'M' 1, the nonce, the ciphertext.
use nox_vault.Errors.{ok}
use nox_vault.Common.{
  ◌<◌, [], inr, inl, ◌∷◌, take-append-drop, Bool-cases, length-take, drop-append_length,
  take-append_length, ==_iff, length-append, drop, true, eq_text_iff, pos, arith, ◌++◌, take, Text,
  ◌≡◌, ◌≤◌, ℤ, length, Bytes,
}
use nox_vault.Models.{
  magic, crypto_algorithm, has_name_magic, EncryptedValue, unpack_encrypted_name, validate_format,
  pack_encrypted_name,
}

validate_format-ok :
    (version : ℤ) (algorithm : Text)
    → validate_format version algorithm ≡ ok tt
    → (version ≡ pos 1) × (algorithm ≡ crypto_algorithm)
unfolding validate_format
validate_format-ok version algorithm h = ground (arith, eq_text_iff algorithm crypto_algorithm)

take-append_24 : (n c : Bytes) → length n ≡ 24 → (take 24 (n ++ c) ≡ n) × (drop 24 (n ++ c) ≡ c)
take-append_24 n c h = (rw (← h) (take-append_length n c), rw (← h) (drop-append_length n c))

-- What a packed name holds.
record IsPacked (value : EncryptedValue) (packed : Bytes) : Type 0 where
  version : value.version ≡ pos 1
  algorithm : value.algorithm ≡ crypto_algorithm
  nonce : length value.nonce ≡ 24
  bytes : packed ≡ magic ++ (value.nonce ++ value.ciphertext)

pack-IsPacked :
    (value : EncryptedValue) (packed : Bytes)
    → pack_encrypted_name value ≡ ok packed
    → IsPacked value packed
unfolding pack_encrypted_name
pack-IsPacked value packed h = record {
  version = ground (arith, eq_text_iff value.algorithm crypto_algorithm);
  algorithm = ground (arith, eq_text_iff value.algorithm crypto_algorithm);
  nonce = ground (arith, eq_text_iff value.algorithm crypto_algorithm);
  bytes = ground (arith, eq_text_iff value.algorithm crypto_algorithm);
}

has_name_magic-magic : (rest : Bytes) → 40 ≤ length rest → has_name_magic (magic ++ rest) ≡ true
unfolding has_name_magic
has_name_magic-magic rest h = ground arith

-- What was packed is unpacked again, provided that the ciphertext holds at least its tag.
pub unpack_encrypted_name-pack_encrypted_name :
    (value : EncryptedValue) (packed : Bytes)
    → 16 ≤ length value.ciphertext
    → pack_encrypted_name value ≡ ok packed
    → unpack_encrypted_name packed ≡ ok value
unfolding unpack_encrypted_name
unpack_encrypted_name-pack_encrypted_name value packed h p =
    let w = pack-IsPacked value packed p in
    let (t, d) = take-append_24 value.nonce value.ciphertext w.nonce in
    rw
      (
        w.bytes,
        has_name_magic-magic (value.nonce ++ value.ciphertext)
            (omega (arith, length-append value.nonce value.ciphertext, w.nonce)),
        t,
        d,
      )
      (cc (w.version, w.algorithm))

-- The bytes of an accepted container.
accepted :
    (packed : Bytes)
    → has_name_magic packed ≡ true
    → (40 ≤ length (drop 5 packed)) × (packed ≡ magic ++ drop 5 packed)
unfolding has_name_magic
accepted (a ∷ b ∷ c ∷ d ∷ e ∷ rest) h = (ground arith, ground arith)
accepted [] h = ground arith
accepted (a ∷ []) h = ground arith
accepted (a ∷ b ∷ []) h = ground arith
accepted (a ∷ b ∷ c ∷ []) h = ground arith
accepted (a ∷ b ∷ c ∷ d ∷ []) h = ground arith

pack_body :
    (rest : Bytes)
    → 40 ≤ length rest
    → pack_encrypted_name (record {
      version = pos 1;
      algorithm = crypto_algorithm;
      ciphertext = drop 24 rest;
      nonce = take 24 rest;
    })
      ≡ ok (magic ++ rest)
unfolding pack_encrypted_name validate_format
pack_body rest h =
    let e : length (take 24 rest) ≡ 24 = omega (arith, length-take 24 rest) in
    rw ((==_iff _ 24).1 e, take-append-drop 24 rest)

repack :
    (rest : Bytes) (value : EncryptedValue)
    → 40 ≤ length rest
    → unpack_encrypted_name (magic ++ rest) ≡ ok value
    → pack_encrypted_name value ≡ ok (magic ++ rest)
unfolding unpack_encrypted_name
repack rest value h p =
    let e : record {
      version = pos 1;
      algorithm = crypto_algorithm;
      ciphertext = drop 24 rest;
      nonce = take 24 rest;
    }
        ≡ value =
      ground (arith, has_name_magic-magic rest h) in
    rw (← e) (pack_body rest h)

has_name_magic_of_unpack :
    (packed : Bytes) (value : EncryptedValue)
    → unpack_encrypted_name packed ≡ ok value
    → has_name_magic packed ≡ true
unfolding unpack_encrypted_name
has_name_magic_of_unpack packed value p = elim (Bool-cases (has_name_magic packed)) [
  | inl good ↦ good
  | inr bad ↦ absurd (let q = rw bad at p in cc)
]

-- What is unpacked packs to the same bytes.
pub pack_encrypted_name-unpack_encrypted_name :
    (packed : Bytes) (value : EncryptedValue)
    → unpack_encrypted_name packed ≡ ok value
    → pack_encrypted_name value ≡ ok packed
pack_encrypted_name-unpack_encrypted_name packed value p =
    let (room, bytes) = accepted packed (has_name_magic_of_unpack packed value p) in
    rw bytes (repack (drop 5 packed) value room (rw bytes at p))

-- A packed name is not empty.
pub length-pack_encrypted_name :
    (value : EncryptedValue) (packed : Bytes)
    → pack_encrypted_name value ≡ ok packed
    → 0 < length packed
length-pack_encrypted_name value packed p = rw ((pack-IsPacked value packed p).bytes) (omega arith)

-- A value of the supported format with a whole nonce is packed.
pub pack-ok :
    (value : EncryptedValue)
    → value.version ≡ pos 1
    → value.algorithm ≡ crypto_algorithm
    → length value.nonce ≡ 24
    → pack_encrypted_name value ≡ ok (magic ++ (value.nonce ++ value.ciphertext))
unfolding pack_encrypted_name validate_format
pack-ok value v a n = ground (arith, v, n, (eq_text_iff value.algorithm crypto_algorithm).1 a)
