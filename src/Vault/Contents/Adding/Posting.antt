-- ===== src/Vault/Contents/Adding/Posting.antt =====
-- What `add_unlocked` sends.
use nox_vault.Models.Wire.{parse_secret, serialize_secret}
use nox_vault.Crypto.{private_name_hash, private_secret_aad, private_name_aad, secret_aad, encrypt}
use nox_vault.Models.Uuid.{random_uuid}
use nox_vault.Vault.Unlocking.{get_vault}
use nox_vault.Models.{SecretRecord, VaultMetadata}
use nox_vault.Errors.{secret_not_found, or_throw, Result-cases, err, ok}
use nox_vault.Common.{
  message, sym, eq_text, pos, ◌∙◌, ◌^◌, eq_text_refl, ◌<◌, ℕ, true, Bool-cases, ap, arith, subst,
  lookup, Text, List, lit, Bytes, some, [], ◌≡◌, ◌++◌, ◌∷◌, inl, false, none, inr,
}
use mathlib.Core.List.{append_assoc}
use nox_vault.Vault.{contains_name, find_if, matches}
use nox_vault.Vault.Contents.{Holds, Serves, asked, get_secrets}
use nox_vault.Vault.Contents.Finding.{FindsLike, find_if-FindsLike, metadata-Serves}
use nox_vault.Vault.Contents.Adding.{
  private-AddsEntry, AddsEntry, public-AddsEntry, length-random_uuid,
}
use nox_vault.Vault.Contents.Reading.{get_unlocked-lookup, contains_name-lookup}
use nox_vault.Vault.Unlocked.{get_unlocked, add_unlocked}
use nox_vault.Vault.Secrets.{exists_error, name_secret}
use nox_vault.Effects.{Request, Api, World, Method}
use nox_vault.Libraries.Json.{JsonLib}
use nox_vault.Libraries.Sodium.{Random, Sodium}

module _ ⦃S : Sodium⦄ ⦃J : JsonLib⦄ ⦃R : Random⦄ ⦃A : Api⦄ where
  abbrev pub post_request : J.Json → Request
  post_request body = record { method = Method.post; path = lit "/secrets"; body = some body }

  -- A name that the contents have already is refused, and nothing is posted.
  pub add_unlocked-exists :
      (vault : VaultMetadata) (key : Bytes) (name : Text) (plain old : Bytes)
      (rs : List SecretRecord) (m : List (Text × Bytes)) (w : World)
      → Serves w vault rs
      → Holds vault key rs m
      → lookup name m ≡ some old
      → ((add_unlocked name plain key w).0 ≡ err exists_error)
        × ((add_unlocked name plain key w).1.sent ≡ w.sent ++ (get_vault ∷ get_secrets ∷ []))
  unfolding add_unlocked
  add_unlocked-exists vault key name plain old rs m w s h e =
      let c = contains_name-lookup vault key name rs w s (some old) (
        subst (λ o. FindsLike vault key name o (find_if (matches name vault.id (some key)) rs)) e
          (find_if-FindsLike vault key name rs m h)) in
      (
        ground (arith, metadata-Serves w vault rs s, c),
        ground (arith, metadata-Serves w vault rs s, c),
      )

  -- The request that adds an entry, behind the two that read the vault.
  unfoldable pub Posts :
      VaultMetadata
      → Bytes
      → List SecretRecord
      → List (Text × Bytes)
      → Text
      → Bytes
      → ℕ
      → List Request
      → List Request
      → Type 0
  Posts vault key rs m name plain version before sent =
      (body : J.Json) × (sent ≡ before ++ (get_vault ∷ get_secrets ∷ post_request body ∷ []))
      × AddsEntry vault key rs m name plain version body

  add-public :
      (vault : VaultMetadata) (key : Bytes) (name : Text) (plain : Bytes) (rs : List SecretRecord)
      (m : List (Text × Bytes)) (w : World) (s : Serves w vault rs) (version : ℕ)
      → version < 2 ^ 31
      → vault.private_metadata ≡ false
      → contains_name name vault key
          (record w { server = s.between; sent = w.sent ++ (get_vault ∷ []) })
        ≡ (ok false, asked w s.after)
      → Holds vault key rs m
      → (add_unlocked name plain key w).0 ≡ ok tt
      → Posts vault key rs m name plain version w.sent (add_unlocked name plain key w).1.sent
  unfolding add_unlocked name_secret Posts
  add-public vault key name plain rs m w s version v pm c h done =
      let id = (random_uuid w.random).0 in
      let z = (random_uuid w.random).1 in
      let front = metadata-Serves w vault rs s in
      elim (Result-cases (encrypt plain key (secret_aad vault.id name) z).0) [
        | inr (x, q) ↦ absurd (ground (arith, front, c, pm, q))
        | inl (e, q) ↦ elim (Result-cases (serialize_secret id (some name) none e none)) [
          | inr (x, b) ↦ absurd (ground (arith, front, c, pm, q, b))
          | inl (body, b) ↦ (
            body,
            ground (
              arith,
              front,
              c,
              pm,
              q,
              b,
              append_assoc w.sent (get_vault ∷ get_secrets ∷ []) (post_request body ∷ []),
            ),
            public-AddsEntry vault key rs m name id plain z
                (encrypt plain key (secret_aad vault.id name) z).1 e body version v pm h
                (length-random_uuid w.random)
                (ap (λ r. (r, (encrypt plain key (secret_aad vault.id name) z).1)) q) b,
          )
        ]
      ]

  add-private :
      (vault : VaultMetadata) (key : Bytes) (name : Text) (plain : Bytes) (rs : List SecretRecord)
      (m : List (Text × Bytes)) (w : World) (s : Serves w vault rs) (version : ℕ)
      → version < 2 ^ 31
      → vault.private_metadata ≡ true
      → contains_name name vault key
          (record w { server = s.between; sent = w.sent ++ (get_vault ∷ []) })
        ≡ (ok false, asked w s.after)
      → Holds vault key rs m
      → (add_unlocked name plain key w).0 ≡ ok tt
      → Posts vault key rs m name plain version w.sent (add_unlocked name plain key w).1.sent
  unfolding add_unlocked name_secret Posts
  add-private vault key name plain rs m w s version v pm c h done =
      let id = (random_uuid w.random).0 in
      let z = (random_uuid w.random).1 in
      let front = metadata-Serves w vault rs s in
      let name_aad = private_name_aad vault.id id in
      let z' = (encrypt name key name_aad z).1 in
      let aad = private_secret_aad vault.id id in
      elim (Result-cases (encrypt name key name_aad z).0) [
        | inr (x, p) ↦ absurd (ground (arith, front, c, pm, p))
        | inl (n, p) ↦ elim (Result-cases (private_name_hash name key)) [
          | inr (x, g) ↦ absurd (ground (arith, front, c, pm, p, g))
          | inl (hash, g) ↦ elim (Result-cases (encrypt plain key aad z').0) [
            | inr (x, q) ↦ absurd (ground (arith, front, c, pm, p, g, q))
            | inl (e, q) ↦ elim (Result-cases (serialize_secret id none (some n) e (some hash))) [
              | inr (x, b) ↦ absurd (ground (arith, front, c, pm, p, g, q, b))
              | inl (body, b) ↦ (
                body,
                ground (
                  arith,
                  front,
                  c,
                  pm,
                  p,
                  g,
                  q,
                  b,
                  append_assoc w.sent (get_vault ∷ get_secrets ∷ []) (post_request body ∷ []),
                ),
                private-AddsEntry vault key rs m name id plain hash z z' z'
                    (encrypt plain key aad z').1 n e body version v pm h
                    (length-random_uuid w.random) (ap (λ r. (r, z')) p) g
                    (ap (λ r. (r, (encrypt plain key aad z').1)) q) b,
              )
            ]
          ]
        ]
      ]

  -- Adding a secret under a name that the contents do not have, when it succeeds, posts one body,
  -- and the record that the server makes of it adds the name and the secret to the contents, in
  -- both modes of the metadata: read back with its record version, it opens with the key to them.
  pub add_unlocked-Posts :
      (vault : VaultMetadata) (key : Bytes) (name : Text) (plain : Bytes) (rs : List SecretRecord)
      (m : List (Text × Bytes)) (w : World) (version : ℕ)
      → version < 2 ^ 31
      → Serves w vault rs
      → Holds vault key rs m
      → lookup name m ≡ none
      → (add_unlocked name plain key w).0 ≡ ok tt
      → Posts vault key rs m name plain version w.sent (add_unlocked name plain key w).1.sent
  add_unlocked-Posts vault key name plain rs m w version v s h e done =
      let c = contains_name-lookup vault key name rs w s none (
        subst (λ o. FindsLike vault key name o (find_if (matches name vault.id (some key)) rs)) e
          (find_if-FindsLike vault key name rs m h)) in
      elim (Bool-cases vault.private_metadata) [
        | inl y ↦ add-private vault key name plain rs m w s version v y c h done
        | inr n ↦ add-public vault key name plain rs m w s version v n c h done
      ]

  posted_body-injective :
      (before : List Request) (a b : J.Json)
      → before ++ (get_vault ∷ get_secrets ∷ post_request a ∷ [])
        ≡ before ++ (get_vault ∷ get_secrets ∷ post_request b ∷ [])
      → a ≡ b
  posted_body-injective [] a b e = ground (arith, e)
  posted_body-injective (q ∷ before) a b e = posted_body-injective before a b (ground (arith, e))

  ok-injective : (a b : SecretRecord) → ok a ≡ ok b → a ≡ b
  ok-injective a b e = ground (arith, e)

  lookup-append :
      (name : Text) (plain : Bytes) (m : List (Text × Bytes))
      → lookup name m ≡ none
      → lookup name (m ++ ((name, plain) ∷ [])) ≡ some plain
  lookup-append name plain [] e = rw (eq_text_refl name)
  lookup-append name plain ((n, p) ∷ m) e = elim (Bool-cases (eq_text n name)) [
    | inl y ↦ absurd (ground (arith, y))
    | inr z ↦ rw z (lookup-append name plain m (rw z at e))
  ]

  -- A secret that was added is read back: when the server later sends the same vault and, behind the
  -- earlier records, the record made of the body that was posted, reading the name with the same key
  -- gives the secret. The record version fits 31 bits.
  pub get_unlocked-add_unlocked :
      (vault : VaultMetadata) (key : Bytes) (name : Text) (plain : Bytes) (rs : List SecretRecord)
      (m : List (Text × Bytes)) (w later : World) (version : ℕ) (body : J.Json) (r : SecretRecord)
      → version < 2 ^ 31
      → Serves w vault rs
      → Holds vault key rs m
      → lookup name m ≡ none
      → (add_unlocked name plain key w).0 ≡ ok tt
      → (add_unlocked name plain key w).1.sent
        ≡ w.sent ++ (get_vault ∷ get_secrets ∷ post_request body ∷ [])
      → parse_secret (J.put body (lit "record_version") (J.int (pos version))) ≡ ok r
      → Serves later vault (rs ++ (r ∷ []))
      → (get_unlocked name key later).0 ≡ ok plain
  unfolding Posts AddsEntry
  get_unlocked-add_unlocked vault key name plain rs m w later version body r v s h e done sent p l =
      let (body', sent', (r', p', h')) =
        add_unlocked-Posts vault key name plain rs m w version v s h e done in
      let same : body' ≡ body = posted_body-injective w.sent body' body (sym sent' ∙ sent) in
      let one : r' ≡ r = ok-injective r' r (
        sym p'
        ∙ (ap (λ b. parse_secret (J.put b (lit "record_version") (J.int (pos version)))) same
            ∙ p)) in
      get_unlocked-lookup vault key name (rs ++ (r ∷ [])) (m ++ ((name, plain) ∷ [])) later l
        (subst (λ q. Holds vault key (rs ++ (q ∷ [])) (m ++ ((name, plain) ∷ []))) one h')
      ∙ ap (or_throw (secret_not_found (message "Secret not found: " ++ name)))
          (lookup-append name plain m e)
