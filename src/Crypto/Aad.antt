-- ===== src/Crypto/Aad.antt =====
-- The additional data of the five kinds of ciphertext never meet.
use nox_vault.Crypto.{private_name_aad, private_secret_aad, secret_aad, backup_aad, vault_key_aad}
use nox_vault.Common.{arith, lit, [], false, ◌≡◌, ◌∷◌, Text, contains, refl, ◌++◌}

-- What a ciphertext of the client is for.
pub data Purpose : Type 0 where
  vault_key backup : Text → Purpose
  secret private_secret private_name : Text → Text → Purpose

unfoldable pub aad : Purpose → Text
aad (vault_key user_id) = vault_key_aad user_id
aad (backup user_id) = backup_aad user_id
aad (secret vault_id name) = secret_aad vault_id name
aad (private_secret vault_id id) = private_secret_aad vault_id id
aad (private_name vault_id id) = private_name_aad vault_id id

-- The identifiers of vaults are UUIDs: they hold no colon.
abbrev pub HasPlainVault : Purpose → Type 0
HasPlainVault (vault_key user_id) = Unit {0}
HasPlainVault (backup user_id) = Unit {0}
HasPlainVault (secret vault_id name) = contains b':' vault_id ≡ false
HasPlainVault (private_secret vault_id id) = contains b':' vault_id ≡ false
HasPlainVault (private_name vault_id id) = contains b':' vault_id ≡ false

-- The part up to the first colon and the part behind it are determined.
split_at_colon :
    (v w n m : Text)
    → contains b':' v ≡ false
    → contains b':' w ≡ false
    → v ++ (lit ":" ++ n) ≡ w ++ (lit ":" ++ m)
    → (v ≡ w) × (n ≡ m)
split_at_colon [] [] n m hv hw e = (refl, ground arith)
split_at_colon [] (y ∷ w) n m hv hw e = ground arith
split_at_colon (x ∷ v) [] n m hv hw e = ground arith
split_at_colon (x ∷ v) (y ∷ w) n m hv hw e = ground (arith, split_at_colon v w n m)

-- Equal additional data have the same purpose, with the same identifiers and names: no ciphertext of
-- one kind, vault or secret passes for another. The identifiers of vaults hold no colon.
pub aad-injective : (p q : Purpose) → HasPlainVault p → HasPlainVault q → aad p ≡ aad q → p ≡ q
unfolding aad vault_key_aad backup_aad secret_aad private_secret_aad private_name_aad
aad-injective (vault_key u) (vault_key v) hp hq e = ground arith
aad-injective (backup u) (backup v) hp hq e = ground arith
aad-injective (secret v n) (secret w m) hp hq e = ground (arith, split_at_colon v w n m)
aad-injective (private_secret v n) (private_secret w m) hp hq e =
    ground (arith, split_at_colon v w n m)
aad-injective (private_name v n) (private_name w m) hp hq e = ground (arith, split_at_colon v w n m)
aad-injective p q hp hq e = ground arith
