-- ===== src/Models/Uuid.antt =====
-- `random_uuid` of client/src/models.cpp.
use nox_vault.Common.{
  length-set, arith, length, ◌<◌, ◌≡◌, ℕ, ◌+◌, ◌/◌, ◌%◌, Bytes, Text, lit, ◌||◌, [], ◌∷◌, ◌==◌,
  get_or, set, if◌then◌else◌,
}
use Prim.Native.Nat.{bit_and, bit_or}
use nox_vault.Libraries.Sodium.{Random}

abbrev pub hex : Text
hex = lit "0123456789abcdef"

-- b[6] = (b[6] & 0x0f) | 0x40; b[8] = (b[8] & 0x3f) | 0x80
stamp : Bytes → Bytes
stamp b =
    let c = set b 6 (bit_or (bit_and (get_or b 6 0) 0x0f) 0x40) in
    set c 8 (bit_or (bit_and (get_or c 8 0) 0x3f) 0x80)

-- The loop over the bytes from index `i`.
digits : ℕ → Bytes → Text
digits i [] = []
digits i (b ∷ bs) =
    let rest = get_or hex (b / 16) 0 ∷ get_or hex (b % 16) 0 ∷ digits (i + 1) bs in
    if i == 4 || i == 6 || i == 8 || i == 10 then b'-' ∷ rest else rest

unfoldable pub uuid_text : Bytes → Text
unfolding stamp digits
uuid_text b = digits 0 (stamp b)

length-digits : (i : ℕ) (b : Bytes) → 0 < length b → 0 < length (digits i b)
unfolding digits
length-digits i [] h = h
length-digits i (x ∷ b) h = ground arith

pub length-uuid_text : (b : Bytes) → length b ≡ 16 → 0 < length (uuid_text b)
unfolding uuid_text stamp
length-uuid_text b h =
    length-digits 0 (set _ 8 _) (omega (arith, length-set (set b 6 _) 8 _, length-set b 6 _, h))

module _ ⦃R : Random⦄ where
  unfoldable pub random_uuid : R.State → Text × R.State
  unfolding uuid_text
  random_uuid s = let (b, s') = R.buffer 16 s in (uuid_text b, s')
