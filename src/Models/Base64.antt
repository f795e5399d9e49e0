-- ===== src/Models/Base64.antt =====
-- Base64 in client/src/models.cpp: what was encoded is decoded again, except the empty buffer.
use nox_vault.Common.{◌<◌, ◌≡◌, Bytes, [], ◌∷◌, arith, length, Text, some}
use nox_vault.Errors.{ok}
use nox_vault.Libraries.Sodium.{Sodium}
use nox_vault.Models.{base64_encode, base64_decode}

module _ ⦃S : Sodium⦄ where
  decode_nonempty :
      (t : Text) (b : Bytes) → S.base642bin t ≡ some b → 0 < length t → base64_decode t ≡ ok b
  unfolding base64_decode
  decode_nonempty [] b e h = elim h [ ]
  decode_nonempty (c ∷ s) b e h = rw e

  pub base64_decode-encode : (b : Bytes) → 0 < length b → base64_decode (base64_encode b) ≡ ok b
  unfolding base64_encode
  base64_decode-encode [] h = elim h [ ]
  base64_decode-encode (x ∷ xs) h =
      decode_nonempty (S.bin2base64 (x ∷ xs)) (x ∷ xs) (S.base642bin-bin2base64 (x ∷ xs))
        (omega (arith, S.length-bin2base64 (x ∷ xs)))
