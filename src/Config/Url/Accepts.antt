-- ===== src/Config/Url/Accepts.antt =====
-- Which addresses of the server are accepted.
use nox_vault.Errors.{std_exception, err, ok}
use nox_vault.Common.{
  eq_text, sym, eq_text_iff, ap, inr, Bool-cases, ◌∙◌, inl, length, lit, drop, starts_with, arith,
  contains, ◌++◌, ◌⊎◌, false, [], ◌≡◌, ◌≢◌, ◌∷◌, Text, true, refl, ◌<◌,
}
use mathlib.Core.List.{append-nil}
use nox_vault.Config.Url.{is_loopback, contains_any, split_authority, validate_server_url}

starts_with-append : (p s : Text) → starts_with p s ≡ true → s ≡ p ++ drop (length p) s
starts_with-append [] s h = refl
starts_with-append (x ∷ p) [] h = absurd (cc h)
starts_with-append (x ∷ p) (y ∷ s) h = ground (arith, starts_with-append p s)

-- Without one of "/?#" the authority is the whole rest of the address.
split_authority-whole : (s a : Text) → split_authority s ≡ (a, false) → s ≡ a
unfolding split_authority
split_authority-whole [] a h = ground arith
split_authority-whole (c ∷ s) a h = ground (arith, split_authority-whole s (split_authority s).0)

split_authority-plain :
    (s a : Text) → split_authority s ≡ (a, false) → contains_any (lit "/?#") a ≡ false
unfolding split_authority
split_authority-plain [] a h = ground arith
split_authority-plain (c ∷ s) a h = ground (arith, split_authority-plain s (split_authority s).0)

-- A host of this machine, alone or before a colon.
pub record IsLoopback (authority : Text) : Type 0 where
  pub host : Text
  pub port : Text
  pub local : (host ≡ lit "localhost") ⊎ ((host ≡ lit "127.0.0.1") ⊎ (host ≡ lit "[::1]"))
  pub split : authority ≡ host ++ port
  pub ended : (port ≡ []) ⊎ ((rest : Text) × (port ≡ b':' ∷ rest))

-- The host `h` of a test for `h` alone or `h` and a colon.
names_host :
    (h a : Text)
    → (h ≡ lit "localhost") ⊎ ((h ≡ lit "127.0.0.1") ⊎ (h ≡ lit "[::1]"))
    → (a ≡ h) ⊎ ((rest : Text) × (a ≡ h ++ (b':' ∷ rest)))
    → IsLoopback a
names_host h a w (inl e) = record {
  host = h;
  port = [];
  local = w;
  split = e ∙ sym (append-nil h);
  ended = inl refl;
}
names_host h a w (inr (rest, e)) = record {
  host = h;
  port = b':' ∷ rest;
  local = w;
  split = e;
  ended = inr (rest, refl);
}

is_loopback-IsLoopback : (a : Text) → is_loopback a ≡ true → IsLoopback a
unfolding is_loopback
is_loopback-IsLoopback a h = elim (Bool-cases (eq_text a (lit "localhost"))) [
  | inl e ↦ names_host (lit "localhost") a (inl refl) (inl ((eq_text_iff a (lit "localhost")).0 e))
  | inr n1 ↦ elim (Bool-cases (starts_with (lit "localhost:") a)) [
    | inl e ↦
        names_host (lit "localhost") a (inl refl)
          (inr (_, starts_with-append (lit "localhost:") a e))
    | inr n2 ↦ elim (Bool-cases (eq_text a (lit "127.0.0.1"))) [
      | inl e ↦
          names_host (lit "127.0.0.1") a (inr (inl refl))
            (inl ((eq_text_iff a (lit "127.0.0.1")).0 e))
      | inr n3 ↦ elim (Bool-cases (starts_with (lit "127.0.0.1:") a)) [
        | inl e ↦
            names_host (lit "127.0.0.1") a (inr (inl refl))
              (inr (_, starts_with-append (lit "127.0.0.1:") a e))
        | inr n4 ↦ elim (Bool-cases (eq_text a (lit "[::1]"))) [
          | inl e ↦
              names_host (lit "[::1]") a (inr (inr refl)) (inl ((eq_text_iff a (lit "[::1]")).0 e))
          | inr n5 ↦
              names_host (lit "[::1]") a (inr (inr refl))
                (inr (_, starts_with-append (lit "[::1]:") a (cc (h, n1, n2, n3, n4, n5))))
        ]
      ]
    ]
  ]
]

-- An address of the server as the client means it.
pub record IsServerUrl (url authority : Text) : Type 0 where
  pub named : authority ≢ []
  pub no_user : contains b'@' authority ≡ false
  pub plain : contains_any (lit "/?#") authority ≡ false
  pub secure :
      (url ≡ lit "https://" ++ authority)
      ⊎ ((url ≡ lit "http://" ++ authority) × IsLoopback authority)

-- An accepted address is a scheme and an authority without user information, path, query or
-- fragment: HTTPS, or HTTP to `localhost`, `127.0.0.1` or `[::1]`, alone or before a colon.
pub validate_server_url-IsServerUrl :
    (url : Text) → validate_server_url url ≡ ok tt → (authority : Text) × IsServerUrl url authority
unfolding validate_server_url
validate_server_url-IsServerUrl url h = elim (Bool-cases (starts_with (lit "https://") url)) [
  | inl s ↦
      let p = split_authority (drop 8 url) in
      let e : split_authority (drop 8 url) ≡ (p.0, false) = ground (arith, s) in
      let whole = split_authority-whole (drop 8 url) p.0 e in
      (
        p.0,
        record {
          named = ground (arith, s, eq_text_iff p.0 []);
          no_user = ground (arith, s);
          plain = split_authority-plain (drop 8 url) p.0 e;
          secure =
              inl (starts_with-append (lit "https://") url s ∙ ap (λ a. lit "https://" ++ a) whole);
        },
      )
  | inr s ↦
      let p = split_authority (drop 7 url) in
      let e : split_authority (drop 7 url) ≡ (p.0, false) = ground (arith, s) in
      let t : starts_with (lit "http://") url ≡ true = ground (arith, s) in
      let whole = split_authority-whole (drop 7 url) p.0 e in
      (
        p.0,
        record {
          named = ground (arith, s, eq_text_iff p.0 []);
          no_user = ground (arith, s);
          plain = split_authority-plain (drop 7 url) p.0 e;
          secure = inr (
            starts_with-append (lit "http://") url t ∙ ap (λ a. lit "http://" ++ a) whole,
            is_loopback-IsLoopback p.0 (ground (arith, s)),
          );
        },
      )
]

-- An address of fewer than seven characters is not refused with a configuration error: the
-- exception of `substr` escapes.
pub validate_server_url-short :
    (url : Text)
    → url ≢ []
    → contains_any (lit "\r\n") url ≡ false
    → length url < 7
    → validate_server_url url ≡ err std_exception
unfolding validate_server_url
validate_server_url-short url n c h = elim (Bool-cases (starts_with (lit "https://") url)) [
  | inl s ↦ absurd (omega (arith, ap length (starts_with-append (lit "https://") url s)))
  | inr s ↦ ground (arith, s, n, c, eq_text_iff url [])
]
