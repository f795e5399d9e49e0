-- ===== src/Config/Settings/Members.antt =====
-- The keys of the settings, and how a document reads whose member of one key has changed.
use nox_vault.Models.Wire.{text_of, member_or, if_present}
use nox_vault.Config.Settings.Loading.{IsRead}
use nox_vault.Config.Settings.{ClientConfig, among}
use nox_vault.Libraries.Json.{JsonLib}
use nox_vault.Errors.{ok}
use nox_vault.Common.{
  arith, sym, eq_text→eq, subst, Bool-cases, ℤ, Bool, eq_text, List, Option, none, inl, ◌∷◌, [],
  inr, ◌⊎◌, some, true, Text, if◌then◌else◌, false, ◌≡◌, pos, lit,
}

among-cases :
    (t u : Text) (us : List Text) → among t (u ∷ us) ≡ true → (t ≡ u) ⊎ (among t us ≡ true)
among-cases t u us a = elim (Bool-cases (eq_text t u)) [
  | inl e ↦ inl (eq_text→eq t u e)
  | inr n ↦ inr (ground (arith, a, n))
]

abbrev pub OfEach : (Text → Type 0) → List Text → Type 0
OfEach P [] = Unit
OfEach P (u ∷ us) = P u × OfEach P us

-- What holds of each of the keys holds of every key among them.
pub among_ind :
    (P : Text → Type 0) (us : List Text) → OfEach P us → (t : Text) → among t us ≡ true → P t
among_ind P [] h t a = absurd (cc (a))
among_ind P (u ∷ us) (p, h) t a = elim (among-cases t u us a) [
  | inl e ↦ subst P (sym e) p
  | inr b ↦ among_ind P us h t b
]

module _ ⦃J : JsonLib⦄ where
  -- A document `j'` that holds `m` at the key and is `j` elsewhere.
  pub record Differs (j : J.Json) (key : Text) (m : Option J.Json) (j' : J.Json) : Type 0 where
    pub object : J.is_object j' ≡ true
    pub elsewhere : (i : Text) → J.at j' i ≡ (if eq_text key i then m else J.at j i)

  pub put-Differs :
      (j v : J.Json) (key : Text) → J.is_object j ≡ true → Differs j key (some v) (J.put j key v)
  put-Differs j v key o = record {
    object = J.is_object-put j v key o;
    elsewhere = λ i. J.at-put j v key i o;
  }

  pub erase-Differs :
      (j : J.Json) (key : Text) → J.is_object j ≡ true → Differs j key none (J.erase j key)
  erase-Differs j key o = record {
    object = J.is_object-erase j key o;
    elsewhere = λ i. J.at-erase j key i o;
  }

  pub Differs-server_url :
      (j j' : J.Json) (m : Option J.Json) (c : ClientConfig) (x : Option Text)
      → IsRead j c
      → Differs j (lit "server_url") m j'
      → if_present text_of m ≡ ok x
      → IsRead j' (record c { server_url = x })
  Differs-server_url j j' m c x r h q = record {
    object = h.object;
    server_url = rw (h.elsewhere (lit "server_url")) q;
    timeout = rw (h.elsewhere (lit "timeout_seconds")) r.timeout;
    unlock = rw (h.elsewhere (lit "unlock_timeout_seconds")) r.unlock;
    clipboard = rw (h.elsewhere (lit "clipboard_timeout_seconds")) r.clipboard;
    start_locked = rw (h.elsewhere (lit "start_locked")) r.start_locked;
    color = rw (h.elsewhere (lit "color")) r.color;
    language = rw (h.elsewhere (lit "language")) r.language;
  }

  pub Differs-timeout :
      (j j' : J.Json) (m : Option J.Json) (c : ClientConfig) (x : ℤ)
      → IsRead j c
      → Differs j (lit "timeout_seconds") m j'
      → member_or J.as_long (pos 15) m ≡ ok x
      → IsRead j' (record c { timeout_seconds = x })
  Differs-timeout j j' m c x r h q = record {
    object = h.object;
    server_url = rw (h.elsewhere (lit "server_url")) r.server_url;
    timeout = rw (h.elsewhere (lit "timeout_seconds")) q;
    unlock = rw (h.elsewhere (lit "unlock_timeout_seconds")) r.unlock;
    clipboard = rw (h.elsewhere (lit "clipboard_timeout_seconds")) r.clipboard;
    start_locked = rw (h.elsewhere (lit "start_locked")) r.start_locked;
    color = rw (h.elsewhere (lit "color")) r.color;
    language = rw (h.elsewhere (lit "language")) r.language;
  }

  pub Differs-unlock :
      (j j' : J.Json) (m : Option J.Json) (c : ClientConfig) (x : ℤ)
      → IsRead j c
      → Differs j (lit "unlock_timeout_seconds") m j'
      → member_or J.as_long (pos 900) m ≡ ok x
      → IsRead j' (record c { unlock_timeout_seconds = x })
  Differs-unlock j j' m c x r h q = record {
    object = h.object;
    server_url = rw (h.elsewhere (lit "server_url")) r.server_url;
    timeout = rw (h.elsewhere (lit "timeout_seconds")) r.timeout;
    unlock = rw (h.elsewhere (lit "unlock_timeout_seconds")) q;
    clipboard = rw (h.elsewhere (lit "clipboard_timeout_seconds")) r.clipboard;
    start_locked = rw (h.elsewhere (lit "start_locked")) r.start_locked;
    color = rw (h.elsewhere (lit "color")) r.color;
    language = rw (h.elsewhere (lit "language")) r.language;
  }

  pub Differs-clipboard :
      (j j' : J.Json) (m : Option J.Json) (c : ClientConfig) (x : ℤ)
      → IsRead j c
      → Differs j (lit "clipboard_timeout_seconds") m j'
      → member_or J.as_long (pos 30) m ≡ ok x
      → IsRead j' (record c { clipboard_timeout_seconds = x })
  Differs-clipboard j j' m c x r h q = record {
    object = h.object;
    server_url = rw (h.elsewhere (lit "server_url")) r.server_url;
    timeout = rw (h.elsewhere (lit "timeout_seconds")) r.timeout;
    unlock = rw (h.elsewhere (lit "unlock_timeout_seconds")) r.unlock;
    clipboard = rw (h.elsewhere (lit "clipboard_timeout_seconds")) q;
    start_locked = rw (h.elsewhere (lit "start_locked")) r.start_locked;
    color = rw (h.elsewhere (lit "color")) r.color;
    language = rw (h.elsewhere (lit "language")) r.language;
  }

  pub Differs-start_locked :
      (j j' : J.Json) (m : Option J.Json) (c : ClientConfig) (x : Bool)
      → IsRead j c
      → Differs j (lit "start_locked") m j'
      → member_or J.as_bool false m ≡ ok x
      → IsRead j' (record c { start_locked = x })
  Differs-start_locked j j' m c x r h q = record {
    object = h.object;
    server_url = rw (h.elsewhere (lit "server_url")) r.server_url;
    timeout = rw (h.elsewhere (lit "timeout_seconds")) r.timeout;
    unlock = rw (h.elsewhere (lit "unlock_timeout_seconds")) r.unlock;
    clipboard = rw (h.elsewhere (lit "clipboard_timeout_seconds")) r.clipboard;
    start_locked = rw (h.elsewhere (lit "start_locked")) q;
    color = rw (h.elsewhere (lit "color")) r.color;
    language = rw (h.elsewhere (lit "language")) r.language;
  }

  pub Differs-color :
      (j j' : J.Json) (m : Option J.Json) (c : ClientConfig) (x : Text)
      → IsRead j c
      → Differs j (lit "color") m j'
      → member_or J.as_text (lit "auto") m ≡ ok x
      → IsRead j' (record c { color = x })
  Differs-color j j' m c x r h q = record {
    object = h.object;
    server_url = rw (h.elsewhere (lit "server_url")) r.server_url;
    timeout = rw (h.elsewhere (lit "timeout_seconds")) r.timeout;
    unlock = rw (h.elsewhere (lit "unlock_timeout_seconds")) r.unlock;
    clipboard = rw (h.elsewhere (lit "clipboard_timeout_seconds")) r.clipboard;
    start_locked = rw (h.elsewhere (lit "start_locked")) r.start_locked;
    color = rw (h.elsewhere (lit "color")) q;
    language = rw (h.elsewhere (lit "language")) r.language;
  }

  pub Differs-language :
      (j j' : J.Json) (m : Option J.Json) (c : ClientConfig) (x : Text)
      → IsRead j c
      → Differs j (lit "language") m j'
      → member_or J.as_text (lit "en") m ≡ ok x
      → IsRead j' (record c { language = x })
  Differs-language j j' m c x r h q = record {
    object = h.object;
    server_url = rw (h.elsewhere (lit "server_url")) r.server_url;
    timeout = rw (h.elsewhere (lit "timeout_seconds")) r.timeout;
    unlock = rw (h.elsewhere (lit "unlock_timeout_seconds")) r.unlock;
    clipboard = rw (h.elsewhere (lit "clipboard_timeout_seconds")) r.clipboard;
    start_locked = rw (h.elsewhere (lit "start_locked")) r.start_locked;
    color = rw (h.elsewhere (lit "color")) r.color;
    language = rw (h.elsewhere (lit "language")) q;
  }
