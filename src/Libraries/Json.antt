-- ===== src/Libraries/Json.antt =====
-- nlohmann::json, as far as the client calls it. A reader that throws `json::exception` on a value
-- of another kind returns `none`. Numbers are read at the width of the target type, so the laws
-- state only what holds in range.
use nox_vault.Common.{
  [], ◌∷◌, ◌++◌, ℕ, ℤ, pos, ◌<◌, ◌^◌, ◌≡◌, Bool, true, false, Option, none, some, List, Text,
  eq_text, lookup, if◌then◌else◌,
}

pub record JsonLib : Type 1 where
  pub Json : Type 0
  -- j.at(key); j.contains(key) tells whether it succeeds
  pub at : Json → Text → Option Json
  -- get<std::string>, get<bool>, get<int>, get<long> of 64 bits, get<std::uint64_t>
  pub as_text : Json → Option Text
  pub as_bool : Json → Option Bool
  pub as_int : Json → Option ℤ
  pub as_long : Json → Option ℤ
  pub as_u64 : Json → Option ℕ
  pub is_null : Json → Bool
  pub is_object : Json → Bool
  -- the elements of an array
  pub items : Json → Option (List Json)
  -- values
  pub null : Json
  pub text : Text → Json
  pub bool : Bool → Json
  pub int : ℤ → Json
  pub number : ℕ → Json
  pub array : List Json → Json
  pub object : List (Text × Json) → Json
  -- j[key] = value and j.erase(key)
  pub put : Json → Text → Json → Json
  pub erase : Json → Text → Json
  -- operator==, dump and parse
  pub same : Json → Json → Bool
  pub dump : Json → Text
  pub parse : Text → Option Json
  pub at-object : (m : List (Text × Json)) (k : Text) → at (object m) k ≡ lookup k m
  pub at-put :
      (j v : Json) (k i : Text)
      → is_object j ≡ true
      → at (put j k v) i ≡ (if eq_text k i then some v else at j i)
  pub at-erase :
      (j : Json) (k i : Text)
      → is_object j ≡ true
      → at (erase j k) i ≡ (if eq_text k i then none else at j i)
  pub is_object-object : (m : List (Text × Json)) → is_object (object m) ≡ true
  pub is_object-put : (j v : Json) (k : Text) → is_object j ≡ true → is_object (put j k v) ≡ true
  pub is_object-erase : (j : Json) (k : Text) → is_object j ≡ true → is_object (erase j k) ≡ true
  pub as_text-text : (t : Text) → as_text (text t) ≡ some t
  pub as_bool-bool : (b : Bool) → as_bool (bool b) ≡ some b
  pub as_int-int : (n : ℕ) → n < 2 ^ 31 → as_int (int (pos n)) ≡ some (pos n)
  pub as_long-int : (n : ℕ) → n < 2 ^ 63 → as_long (int (pos n)) ≡ some (pos n)
  -- a `long` of 64 bits
  pub as_long-bound : (j : Json) (n : ℕ) → as_long j ≡ some (pos n) → n < 2 ^ 63
  pub as_u64-number : (n : ℕ) → n < 2 ^ 64 → as_u64 (number n) ≡ some n
  pub is_null-null : is_null null ≡ true
  pub is_null-text : (t : Text) → is_null (text t) ≡ false
  pub same-text : (t : Text) → same (text t) (text t) ≡ true
  pub same-bool : (b : Bool) → same (bool b) (bool b) ≡ true
  pub items-array : (l : List Json) → items (array l) ≡ some l

module _ ⦃J : JsonLib⦄ where
  -- An object with the members `m` after assignments; the last one stands first.
  abbrev pub assign : List (Text × J.Json) → List (Text × J.Json) → J.Json
  assign [] m = J.object m
  assign ((k, v) ∷ l) m = J.put (assign l m) k v

  is_object-assign : (l m : List (Text × J.Json)) → J.is_object (assign l m) ≡ true
  is_object-assign [] m = J.is_object-object m
  is_object-assign ((k, v) ∷ l) m = J.is_object-put (assign l m) v k (is_object-assign l m)

  -- The member of a key is the one assigned last, or the one of the object.
  pub at-assign : (l m : List (Text × J.Json)) (i : Text) → J.at (assign l m) i ≡ lookup i (l ++ m)
  at-assign [] m i = J.at-object m i
  at-assign ((k, v) ∷ l) m i =
      rw (J.at-put (assign l m) v k i (is_object-assign l m), at-assign l m i)
