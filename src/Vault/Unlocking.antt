-- ===== src/Vault/Unlocking.antt =====
-- The vault key survives the password: what `initialize` and `rotate_password` send to the server
-- opens again with the password.
use nox_vault.Models.Wire.{parse_vault, serialize_vault_create}
use nox_vault.Models.Wire.Roundtrip.{parse_vault-serialize_vault_create, IsWritten}
use nox_vault.Crypto.Sealing.{encrypt-IsSealed, IsSealed}
use nox_vault.Crypto.{decrypt, vault_key_aad, encrypt, default_kdf, derive_kek, random_vault_key}
use nox_vault.Vault.{unlock, metadata}
use nox_vault.Models.{VaultMetadata, EncryptedValue, KdfParameters}
use nox_vault.Libraries.Json.{JsonLib}
use nox_vault.Libraries.Sodium.{Random, Sodium}
use nox_vault.Errors.{Result-cases, ok}
use nox_vault.Common.{
  sym, ap, ◌∙◌, arith, List, Bool, length, Bytes, Text, lit, inr, ◌∷◌, ◌++◌, ◌≡◌, some, ◌^◌, ◌<◌,
  inl, none, refl, [],
}
use nox_vault.Crypto.Sealing.{decrypt-encrypt}
use nox_vault.Effects.{Method, World, Api, Request}
use nox_vault.Vault.Password.{initialize, unlock_with_password, rotate_password}

module _ ⦃S : Sodium⦄ ⦃J : JsonLib⦄ ⦃R : Random⦄ ⦃A : Api⦄ where
  abbrev pub get_vault : Request
  get_vault = record { method = Method.get; path = lit "/vault"; body = none }

  -- The parameters of a derivation as the wire form carries them.
  pub record IsFresh (kdf : KdfParameters) : Type 0 where
    pub salt : length kdf.salt ≡ 16
    pub algorithm : kdf.algorithm ≡ lit "argon2id"
    pub ops : kdf.ops_limit < 2 ^ 64
    pub mem : kdf.mem_limit < 2 ^ 64

  wrapped-IsWritten :
      (plaintext : Bytes) (kdf : KdfParameters) (wrapped : EncryptedValue)
      → IsSealed plaintext wrapped
      → IsFresh kdf
      → IsWritten wrapped kdf
  wrapped-IsWritten plaintext kdf wrapped s f = record {
    ciphertext = omega (arith, s.ciphertext);
    nonce = omega (arith, s.nonce);
    salt = omega (arith, f.salt);
    algorithm = f.algorithm;
    ops = f.ops;
    mem = f.mem;
  }

  unlock-wrapped :
      (user_id secret id : Text) (kdf : KdfParameters) (k key : Bytes) (s s' : R.State)
      (wrapped : EncryptedValue) (private_metadata : Bool) (body : J.Json) (w : World)
      → IsFresh kdf
      → derive_kek secret kdf ≡ ok k
      → encrypt key k (vault_key_aad user_id) s ≡ (ok wrapped, s')
      → serialize_vault_create wrapped kdf private_metadata ≡ ok body
      → (A.answer get_vault w.server).0 ≡ ok (J.put body (lit "id") (J.text id))
      → (unlock_with_password user_id secret w).0 ≡ ok key
  unfolding unlock_with_password metadata unlock
  unlock-wrapped user_id secret id kdf k key s s' wrapped pm body w f d e b a = ground (
    arith,
    d,
    a,
    parse_vault-serialize_vault_create id wrapped kdf pm body
        (wrapped-IsWritten key kdf wrapped
          (encrypt-IsSealed key k (vault_key_aad user_id) s s' wrapped e) f)
        b,
    decrypt-encrypt key k (vault_key_aad user_id) s s' wrapped e,
  )

  -- What a successful `initialize` did.
  record IsInitialized (user_id secret : Text) (private_metadata : Bool) (w : World) (key : Bytes)
      (sent : List Request) : Type 0 where
    kdf : KdfParameters
    k : Bytes
    s : R.State
    s' : R.State
    wrapped : EncryptedValue
    body : J.Json
    fresh : kdf ≡ (default_kdf w.random).0
    derived : derive_kek secret kdf ≡ ok k
    sealed : encrypt key k (vault_key_aad user_id) s ≡ (ok wrapped, s')
    serialized : serialize_vault_create wrapped kdf private_metadata ≡ ok body
    posted :
        sent
        ≡ w.sent ++ (record { method = Method.post; path = lit "/vault"; body = some body } ∷ [])

  initialize-IsInitialized :
      (user_id secret : Text) (private_metadata : Bool) (w : World) (key : Bytes)
      → (initialize user_id secret private_metadata w).0 ≡ ok key
      → IsInitialized user_id secret private_metadata w key
          (initialize user_id secret private_metadata w).1.sent
  unfolding initialize random_vault_key
  initialize-IsInitialized user_id secret pm w key h =
      let kdf : KdfParameters = (default_kdf w.random).0 in
      let s = (R.buffer 32 (default_kdf w.random).1).1 in
      let x = (R.buffer 32 (default_kdf w.random).1).0 in
      elim (Result-cases (derive_kek secret kdf)) [
        | inr (e, d) ↦ absurd (ground (arith, d))
        | inl (k, d) ↦ elim (Result-cases (encrypt x k (vault_key_aad user_id) s).0) [
          | inr (e, q) ↦ absurd (ground (arith, d, q))
          | inl (wrapped, q) ↦ elim (Result-cases (serialize_vault_create wrapped kdf pm)) [
            | inr (e, b) ↦ absurd (ground (arith, d, q, b))
            | inl (body, b) ↦ record {
              kdf = kdf;
              k = k;
              s = s;
              s' = (encrypt x k (vault_key_aad user_id) s).1;
              wrapped = wrapped;
              body = body;
              fresh = refl;
              derived = d;
              sealed = ground (arith, d, q, b);
              serialized = b;
              posted = ground (arith, d, q, b);
            }
          ]
        ]
      ]

  default_kdf-IsFresh :
      (s : R.State)
      → S.ops_interactive < 2 ^ 64
      → S.mem_interactive < 2 ^ 64
      → IsFresh (default_kdf s).0
  unfolding default_kdf
  default_kdf-IsFresh s o m = record {
    salt = R.length-buffer 16 s;
    algorithm = refl;
    ops = o;
    mem = m;
  }

  -- A vault that was initialized opens with its password and yields the vault key that `initialize`
  -- returned, as soon as the server sends back the body that was posted, with an identifier added.
  -- The limits of libsodium fit 64 bits.
  pub unlock-initialize :
      (user_id secret id : Text) (private_metadata : Bool) (w later : World) (key : Bytes)
      (body : J.Json)
      → S.ops_interactive < 2 ^ 64
      → S.mem_interactive < 2 ^ 64
      → w.sent ≡ []
      → (initialize user_id secret private_metadata w).0 ≡ ok key
      → (initialize user_id secret private_metadata w).1.sent
        ≡ record { method = Method.post; path = lit "/vault"; body = some body } ∷ []
      → (A.answer get_vault later.server).0 ≡ ok (J.put body (lit "id") (J.text id))
      → (unlock_with_password user_id secret later).0 ≡ ok key
  unlock-initialize user_id secret id pm w later key body o m none_sent h posted a =
      let i = initialize-IsInitialized user_id secret pm w key h in
      let same : body ≡ i.body = ground (arith, i.posted) in
      unlock-wrapped user_id secret id i.kdf i.k key i.s i.s' i.wrapped pm body later
        (rw i.fresh (default_kdf-IsFresh w.random o m)) i.derived i.sealed
        (i.serialized ∙ ap ok (sym same)) a

  -- What a successful `rotate_password` did, given the key that the old password yields.
  record IsRotated (user_id secret : Text) (private_metadata : Bool) (key : Bytes) (q : Request)
      (sent : List Request) : Type 0 where
    z : R.State
    k : Bytes
    s : R.State
    s' : R.State
    wrapped : EncryptedValue
    body : J.Json
    derived : derive_kek secret (default_kdf z).0 ≡ ok k
    sealed : encrypt key k (vault_key_aad user_id) s ≡ (ok wrapped, s')
    serialized : serialize_vault_create wrapped (default_kdf z).0 private_metadata ≡ ok body
    posted :
        sent ≡ q ∷ record { method = Method.put; path = lit "/vault/key"; body = some body } ∷ []

  rotate_password-IsRotated :
      (user_id old_secret new_secret : Text) (w : World) (j : J.Json) (vault : VaultMetadata)
      (k key : Bytes)
      → w.sent ≡ []
      → (A.answer get_vault w.server).0 ≡ ok j
      → parse_vault j ≡ ok vault
      → derive_kek old_secret vault.kdf ≡ ok k
      → decrypt vault.wrapped_key k (vault_key_aad user_id) ≡ ok key
      → (rotate_password user_id old_secret new_secret w).0 ≡ ok tt
      → IsRotated user_id new_secret vault.private_metadata key get_vault
          (rotate_password user_id old_secret new_secret w).1.sent
  unfolding rotate_password metadata unlock
  rotate_password-IsRotated user_id old_secret new_secret w j vault k0 key n a p d0 c h =
      let kdf : KdfParameters = (default_kdf w.random).0 in
      let s = (default_kdf w.random).1 in
      elim (Result-cases (derive_kek new_secret kdf)) [
        | inr (e, d) ↦ absurd (ground (arith, d))
        | inl (k, d) ↦ elim (Result-cases (encrypt key k (vault_key_aad user_id) s).0) [
          | inr (e, q) ↦ absurd (ground (arith, d, q))
          | inl (wrapped, q) ↦
              elim (Result-cases (serialize_vault_create wrapped kdf vault.private_metadata)) [
                | inr (e, b) ↦ absurd (ground (arith, d, q, b))
                | inl (body, b) ↦ record {
                  z = w.random;
                  k = k;
                  s = s;
                  s' = (encrypt key k (vault_key_aad user_id) s).1;
                  wrapped = wrapped;
                  body = body;
                  derived = d;
                  sealed = ground (arith, d, q, b);
                  serialized = b;
                  posted = ground (arith, d, q, b);
                }
              ]
        ]
      ]

  -- After a rotation the new password opens the vault and yields the same vault key as the old one,
  -- as soon as the server sends back the body that was put, with an identifier added: nothing that
  -- the key encrypts has to change. The limits of libsodium fit 64 bits.
  pub unlock-rotate_password :
      (user_id old_secret new_secret id : Text) (w later : World) (j : J.Json)
      (vault : VaultMetadata) (k key : Bytes) (body : J.Json)
      → S.ops_interactive < 2 ^ 64
      → S.mem_interactive < 2 ^ 64
      → w.sent ≡ []
      → (A.answer get_vault w.server).0 ≡ ok j
      → parse_vault j ≡ ok vault
      → derive_kek old_secret vault.kdf ≡ ok k
      → decrypt vault.wrapped_key k (vault_key_aad user_id) ≡ ok key
      → (rotate_password user_id old_secret new_secret w).0 ≡ ok tt
      → (rotate_password user_id old_secret new_secret w).1.sent
        ≡ get_vault ∷ record { method = Method.put; path = lit "/vault/key"; body = some body } ∷ []
      → (A.answer get_vault later.server).0 ≡ ok (J.put body (lit "id") (J.text id))
      → (unlock_with_password user_id new_secret later).0 ≡ ok key
  unlock-rotate_password user_id old_secret new_secret id w later j vault k key body o m n a p d c h
        posted again =
      let i = rotate_password-IsRotated user_id old_secret new_secret w j vault k key n a p d c h in
      let same : body ≡ i.body = ground (arith, i.posted) in
      unlock-wrapped user_id new_secret id (default_kdf i.z).0 i.k key i.s i.s' i.wrapped
        vault.private_metadata body later (default_kdf-IsFresh i.z o m) i.derived i.sealed
        (i.serialized ∙ ap ok (sym same)) again
