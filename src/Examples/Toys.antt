-- ===== src/Examples/Toys.antt =====
-- Small concrete instances of the libraries: a cipher that only checks the first byte of the key,
-- an encoding that is the identity, documents as trees, a generator that always draws 1.
use nox_vault.Effects.{Api, Request}
use nox_vault.Errors.{Result, ok}
use mathlib.Core.Option.{some-injective}
use nox_vault.Common.{
  negsuc, ltb, ◌^◌, eq_text_refl, pos, lit, lookup, same_bool, true, false, List, eq_text, subst,
  ◌+◌, zero, arith, ℤ, drop, length, get_or, Option, Bool, ℕ, if◌then◌else◌, none, Bytes, suc, ◌∷◌,
  refl, [], ◌<◌, some, ◌==◌, ◌≡◌, Text,
}
use nox_vault.Libraries.Sodium.{Random, Sodium}
use nox_vault.Libraries.Json.{JsonLib}

abbrev pub zeros : ℕ → Bytes → Bytes
zeros zero l = l
zeros (suc n) l = 0 ∷ zeros n l

unfoldable pub toy_seal : Bytes → Text → Bytes → Bytes → Option Bytes
toy_seal m aad nonce key = some (get_or key 0 0 ∷ zeros 15 m)

unfoldable pub toy_open : Bytes → Text → Bytes → Bytes → Option Bytes
toy_open [] aad nonce key = none
toy_open (v ∷ c) aad nonce key = if v == get_or key 0 0 then some (drop 15 c) else none

unfoldable pub repeat : ℕ → ℕ → Bytes
repeat zero v = []
repeat (suc n) v = v ∷ repeat n v

pub length-repeat : (n v : ℕ) → length (repeat n v) ≡ n
unfolding repeat
length-repeat zero v = refl
length-repeat (suc n) v = rw (length-repeat n v)

pub repeat_lt : (n : ℕ) (i : ℕ) → get_or (repeat n 1) i 0 < 256
unfolding repeat
repeat_lt zero i = omega arith
repeat_lt (suc n) zero = omega arith
repeat_lt (suc n) (suc i) = repeat_lt n i

drop-zeros : (m : Bytes) → drop 15 (zeros 15 m) ≡ m
drop-zeros m = refl

length-zeros : (m : Bytes) → length (zeros 15 m) ≡ length m + 15
length-zeros m = omega arith

pub toy_seal-length :
    (m aad nonce key c : Bytes) → toy_seal m aad nonce key ≡ some c → length c ≡ length m + 16
unfolding toy_seal
toy_seal-length m aad nonce key c h = ground (arith, h)

seal-injective :
    (m aad nonce key c : Bytes)
    → toy_seal m aad nonce key ≡ some c
    → get_or key 0 0 ∷ zeros 15 m ≡ c
unfolding toy_seal
seal-injective m aad nonce key c h = some-injective (get_or key 0 0 ∷ zeros 15 m) c h

pub toy_seal-open :
    (m aad nonce key c : Bytes)
    → toy_seal m aad nonce key ≡ some c
    → toy_open c aad nonce key ≡ some m
unfolding toy_seal toy_open
toy_seal-open m aad nonce key c h =
    subst (λ d. toy_open d aad nonce key ≡ some m) (seal-injective m aad nonce key c h)
      (ground arith)

pub pwhash_length : (n v : ℕ) (key : Bytes) → some (repeat n v) ≡ some key → length key ≡ n
pwhash_length n v key h = ground (arith, h, length-repeat n v)

instance abbrev pub toy_sodium : Sodium
toy_sodium = record {
  pwhash = λ password salt ops mem n. some (repeat n (length password));
  aead_encrypt = toy_seal;
  aead_decrypt = toy_open;
  generichash = λ t k. some (repeat 32 (length t));
  bin2base64 = λ b. b;
  base642bin = λ t. some t;
  ops_interactive = 2;
  mem_interactive = 67108864;
  length-pwhash = λ password salt ops mem n key h. pwhash_length n (length password) key h;
  length-aead_encrypt = toy_seal-length;
  decrypt-encrypt = toy_seal-open;
  length-generichash = λ t k h e. pwhash_length 32 (length t) h e;
  base642bin-bin2base64 = λ b. refl;
  length-bin2base64 = λ b. omega arith;
}

instance abbrev pub toy_random : Random
toy_random = record {
  State = Unit {0};
  buffer = λ n s. (repeat n 1, s);
  uniform = λ n s. (0, s);
  length-buffer = λ n s. length-repeat n 1;
  buffer_lt = λ n s i. repeat_lt n i;
  uniform_lt = λ n s h. h;
}

mutual
  pub data ToyJson : Type 0 where
    jnull : ToyJson
    jtext : Text → ToyJson
    jbool : Bool → ToyJson
    jint : ℤ → ToyJson
    jnumber : ℕ → ToyJson
    jarray : ToyJsons → ToyJson
    jobject : (Text → ToyMember) → ToyJson

  pub data ToyJsons : Type 0 where
    jnil : ToyJsons
    jcons : ToyJson → ToyJsons → ToyJsons

  pub data ToyMember : Type 0 where
    jabsent : ToyMember
    jpresent : ToyJson → ToyMember

unfoldable pub to_list : ToyJsons → List ToyJson
to_list jnil = []
to_list (jcons j l) = j ∷ to_list l

unfoldable pub of_list : List ToyJson → ToyJsons
of_list [] = jnil
of_list (j ∷ l) = jcons j (of_list l)

pub to_list-of_list : (l : List ToyJson) → to_list (of_list l) ≡ l
unfolding to_list of_list
to_list-of_list [] = refl
to_list-of_list (j ∷ l) = rw (to_list-of_list l)

unfoldable pub to_option : ToyMember → Option ToyJson
to_option jabsent = none
to_option (jpresent j) = some j

unfoldable pub of_option : Option ToyJson → ToyMember
of_option none = jabsent
of_option (some j) = jpresent j

pub to_option-of_option : (o : Option ToyJson) → to_option (of_option o) ≡ o
unfolding to_option of_option
to_option-of_option none = refl
to_option-of_option (some j) = refl

unfoldable pub toy_at : ToyJson → Text → Option ToyJson
toy_at (jobject m) k = to_option (m k)
toy_at j k = none

unfoldable pub toy_text : ToyJson → Option Text
toy_text (jtext t) = some t
toy_text j = none

unfoldable pub toy_bool : ToyJson → Option Bool
toy_bool (jbool b) = some b
toy_bool j = none

unfoldable pub toy_int : ToyJson → Option ℤ
toy_int (jint n) = some n
toy_int j = none

unfoldable pub toy_u64 : ToyJson → Option ℕ
toy_u64 (jnumber n) = some n
toy_u64 j = none

unfoldable pub toy_is_null : ToyJson → Bool
toy_is_null jnull = true
toy_is_null j = false

unfoldable pub toy_is_object : ToyJson → Bool
toy_is_object (jobject m) = true
toy_is_object j = false

unfoldable pub toy_items : ToyJson → Option (List ToyJson)
toy_items (jarray l) = some (to_list l)
toy_items j = none

unfoldable pub toy_put : ToyJson → Text → ToyJson → ToyJson
toy_put (jobject m) k v = jobject (λ i. if eq_text k i then jpresent v else m i)
toy_put j k v = j

unfoldable pub toy_erase : ToyJson → Text → ToyJson
toy_erase (jobject m) k = jobject (λ i. if eq_text k i then jabsent else m i)
toy_erase j k = j

unfoldable pub toy_same : ToyJson → ToyJson → Bool
toy_same (jtext a) (jtext b) = eq_text a b
toy_same (jbool a) (jbool b) = same_bool a b
toy_same a b = false

unfoldable pub toy_object : List (Text × ToyJson) → ToyJson
toy_object m = jobject (λ k. of_option (lookup k m))

-- Only these texts are read, which is enough for the examples.
unfoldable pub toy_parse : Text → Option ToyJson
toy_parse t =
    if eq_text t (lit "null")
    then some jnull
    else if eq_text t (lit "yes")
    then some (toy_object ((lit "ok", jbool true) ∷ []))
    else if eq_text t (lit "no")
    then some (toy_object ((lit "ok", jbool false) ∷ (lit "error", jtext (lit "locked")) ∷ []))
    else none

pub toy_at-put :
    (j v : ToyJson) (k i : Text)
    → toy_is_object j ≡ true
    → toy_at (toy_put j k v) i ≡ (if eq_text k i then some v else toy_at j i)
unfolding toy_is_object toy_at toy_put to_option
toy_at-put (jobject m) v k i h = ground arith
toy_at-put jnull v k i h = ground (arith, h)
toy_at-put (jtext _) v k i h = ground (arith, h)
toy_at-put (jbool _) v k i h = ground (arith, h)
toy_at-put (jint _) v k i h = ground (arith, h)
toy_at-put (jnumber _) v k i h = ground (arith, h)
toy_at-put (jarray _) v k i h = ground (arith, h)

pub toy_at-erase :
    (j : ToyJson) (k i : Text)
    → toy_is_object j ≡ true
    → toy_at (toy_erase j k) i ≡ (if eq_text k i then none else toy_at j i)
unfolding toy_is_object toy_at toy_erase to_option
toy_at-erase (jobject m) k i h = ground arith
toy_at-erase jnull k i h = ground (arith, h)
toy_at-erase (jtext _) k i h = ground (arith, h)
toy_at-erase (jbool _) k i h = ground (arith, h)
toy_at-erase (jint _) k i h = ground (arith, h)
toy_at-erase (jnumber _) k i h = ground (arith, h)
toy_at-erase (jarray _) k i h = ground (arith, h)

pub toy_is_object-put :
    (j v : ToyJson) (k : Text) → toy_is_object j ≡ true → toy_is_object (toy_put j k v) ≡ true
unfolding toy_is_object toy_put
toy_is_object-put (jobject m) v k h = refl
toy_is_object-put jnull v k h = ground (arith, h)
toy_is_object-put (jtext _) v k h = ground (arith, h)
toy_is_object-put (jbool _) v k h = ground (arith, h)
toy_is_object-put (jint _) v k h = ground (arith, h)
toy_is_object-put (jnumber _) v k h = ground (arith, h)
toy_is_object-put (jarray _) v k h = ground (arith, h)

pub toy_is_object-erase :
    (j : ToyJson) (k : Text) → toy_is_object j ≡ true → toy_is_object (toy_erase j k) ≡ true
unfolding toy_is_object toy_erase
toy_is_object-erase (jobject m) k h = refl
toy_is_object-erase jnull k h = ground (arith, h)
toy_is_object-erase (jtext _) k h = ground (arith, h)
toy_is_object-erase (jbool _) k h = ground (arith, h)
toy_is_object-erase (jint _) k h = ground (arith, h)
toy_is_object-erase (jnumber _) k h = ground (arith, h)
toy_is_object-erase (jarray _) k h = ground (arith, h)

pub toy_at-object : (m : List (Text × ToyJson)) (k : Text) → toy_at (toy_object m) k ≡ lookup k m
unfolding toy_at toy_object
toy_at-object m k = to_option-of_option (lookup k m)

pub toy_items-array : (l : List ToyJson) → toy_items (jarray (of_list l)) ≡ some l
unfolding toy_items
toy_items-array l = rw (to_list-of_list l)

pub toy_is_object-object : (m : List (Text × ToyJson)) → toy_is_object (toy_object m) ≡ true
unfolding toy_is_object toy_object
toy_is_object-object m = refl

pub toy_text-jtext : (t : Text) → toy_text (jtext t) ≡ some t
unfolding toy_text
toy_text-jtext t = refl

pub toy_bool-jbool : (b : Bool) → toy_bool (jbool b) ≡ some b
unfolding toy_bool
toy_bool-jbool b = refl

pub toy_int-jint : (n : ℕ) → toy_int (jint (pos n)) ≡ some (pos n)
unfolding toy_int
toy_int-jint n = refl

in_range : ℤ → Option ℤ
in_range (pos n) = if ltb n (2 ^ 63) then some (pos n) else none
in_range (negsuc n) = if ltb n (2 ^ 63) then some (negsuc n) else none

unfoldable pub toy_long : ToyJson → Option ℤ
unfolding in_range
toy_long (jint z) = in_range z
toy_long jnull = none
toy_long (jobject _) = none
toy_long (jtext _) = none
toy_long (jbool _) = none
toy_long (jnumber _) = none
toy_long (jarray _) = none

pub toy_long-jint : (n : ℕ) → n < 2 ^ 63 → toy_long (jint (pos n)) ≡ some (pos n)
unfolding toy_long in_range
toy_long-jint n h = ground (arith, h)

in_range-bound : (z : ℤ) (n : ℕ) → in_range z ≡ some (pos n) → n < 2 ^ 63
unfolding in_range
in_range-bound (pos m) n h = ground (arith, h)
in_range-bound (negsuc m) n h = ground (arith, h)

pub toy_long-bound : (j : ToyJson) (n : ℕ) → toy_long j ≡ some (pos n) → n < 2 ^ 63
unfolding toy_long
toy_long-bound (jint z) n h = in_range-bound z n h
toy_long-bound jnull n h = absurd (ground (arith, h))
toy_long-bound (jobject _) n h = absurd (ground (arith, h))
toy_long-bound (jtext _) n h = absurd (ground (arith, h))
toy_long-bound (jbool _) n h = absurd (ground (arith, h))
toy_long-bound (jnumber _) n h = absurd (ground (arith, h))
toy_long-bound (jarray _) n h = absurd (ground (arith, h))

pub toy_u64-jnumber : (n : ℕ) → toy_u64 (jnumber n) ≡ some n
unfolding toy_u64
toy_u64-jnumber n = refl

pub toy_same-jtext : (t : Text) → toy_same (jtext t) (jtext t) ≡ true
unfolding toy_same
toy_same-jtext t = eq_text_refl t

pub toy_same-jbool : (b : Bool) → toy_same (jbool b) (jbool b) ≡ true
unfolding toy_same
toy_same-jbool true = refl
toy_same-jbool false = refl

pub toy_is_null-jnull : toy_is_null jnull ≡ true
unfolding toy_is_null
toy_is_null-jnull = refl

pub toy_is_null-jtext : (t : Text) → toy_is_null (jtext t) ≡ false
unfolding toy_is_null
toy_is_null-jtext t = refl

instance abbrev pub toy_json : JsonLib
toy_json = record {
  Json = ToyJson;
  at = toy_at;
  as_text = toy_text;
  as_bool = toy_bool;
  as_int = toy_int;
  as_long = toy_long;
  as_u64 = toy_u64;
  is_null = toy_is_null;
  is_object = toy_is_object;
  items = toy_items;
  null = jnull;
  text = jtext;
  bool = jbool;
  int = jint;
  number = jnumber;
  array = λ l. jarray (of_list l);
  object = toy_object;
  put = toy_put;
  erase = toy_erase;
  same = toy_same;
  dump = λ j. lit "null";
  parse = toy_parse;
  at-object = toy_at-object;
  at-put = toy_at-put;
  at-erase = toy_at-erase;
  is_object-object = toy_is_object-object;
  is_object-put = toy_is_object-put;
  is_object-erase = toy_is_object-erase;
  as_text-text = toy_text-jtext;
  as_bool-bool = toy_bool-jbool;
  as_int-int = λ n h. toy_int-jint n;
  as_long-int = toy_long-jint;
  as_long-bound = toy_long-bound;
  as_u64-number = λ n h. toy_u64-jnumber n;
  is_null-null = toy_is_null-jnull;
  is_null-text = toy_is_null-jtext;
  same-text = toy_same-jtext;
  same-bool = toy_same-jbool;
  items-array = toy_items-array;
}

-- A server that gives prepared answers, then null.
unfoldable pub toy_answer : Request → List ToyJson → Result ToyJson × List ToyJson
toy_answer q [] = (ok jnull, [])
toy_answer q (j ∷ l) = (ok j, l)

instance abbrev pub toy_api : Api
toy_api = record { Server = List ToyJson; answer = toy_answer }

-- A library that prints and reads one document.
abbrev pub printing : ToyJson → JsonLib
printing j = record toy_json {
  dump = λ _. lit "payload";
  parse = λ t. if eq_text t (lit "payload") then some j else none;
}
