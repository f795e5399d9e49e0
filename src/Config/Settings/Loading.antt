-- ===== src/Config/Settings/Loading.antt =====
-- A configuration loads exactly when each of its members reads and the values are allowed.
use nox_vault.Common.{ap, arith, inr, inl, ◌∙◌, lit, true, ◌≡◌, false, pos}
use nox_vault.Config.Settings.{ClientConfig, load, read_config, check_config, member}
use nox_vault.Errors.{Result-cases, ok}
use nox_vault.Models.Wire.{text_of, member_or, if_present}
use nox_vault.Libraries.Json.{JsonLib}

module _ ⦃J : JsonLib⦄ where
  -- What the members of a document read as.
  pub record IsRead (j : J.Json) (c : ClientConfig) : Type 0 where
    pub object : J.is_object j ≡ true
    pub server_url : if_present text_of (J.at j (lit "server_url")) ≡ ok c.server_url
    pub timeout :
        member_or J.as_long (pos 15) (J.at j (lit "timeout_seconds")) ≡ ok c.timeout_seconds
    pub color : member_or J.as_text (lit "auto") (J.at j (lit "color")) ≡ ok c.color
    pub unlock :
        member_or J.as_long (pos 900) (J.at j (lit "unlock_timeout_seconds"))
        ≡ ok c.unlock_timeout_seconds
    pub clipboard :
        member_or J.as_long (pos 30) (J.at j (lit "clipboard_timeout_seconds"))
        ≡ ok c.clipboard_timeout_seconds
    pub start_locked : member_or J.as_bool false (J.at j (lit "start_locked")) ≡ ok c.start_locked
    pub language : member_or J.as_text (lit "en") (J.at j (lit "language")) ≡ ok c.language

  pub IsRead-load :
      (j : J.Json) (c : ClientConfig) → IsRead j c → check_config c ≡ ok tt → load j ≡ ok c
  unfolding load read_config member
  IsRead-load j c r k = simp (
    r.object, r.server_url, r.timeout, r.color, r.unlock, r.clipboard, r.start_locked, r.language,
    k,
  )

  read_config-IsRead :
      (j : J.Json) (c : ClientConfig) → J.is_object j ≡ true → read_config j ≡ ok c → IsRead j c
  unfolding read_config member
  read_config-IsRead j c o e =
      elim (Result-cases (if_present text_of (J.at j (lit "server_url")))) [
        | inr (x, q) ↦ absurd (ground (arith, e, o, q))
        | inl (a0, q0) ↦
            elim (Result-cases (member_or J.as_long (pos 15) (J.at j (lit "timeout_seconds")))) [
              | inr (x, q) ↦ absurd (ground (arith, e, o, q0, q))
              | inl (a1, q1) ↦
                  elim (Result-cases (member_or J.as_text (lit "auto") (J.at j (lit "color")))) [
                    | inr (x, q) ↦ absurd (ground (arith, e, o, q0, q1, q))
                    | inl (a2, q2) ↦
                        elim (Result-cases
                          (member_or J.as_long (pos 900) (J.at j (lit "unlock_timeout_seconds")))) [
                            | inr (x, q) ↦ absurd (ground (arith, e, o, q0, q1, q2, q))
                            | inl (a3, q3) ↦
                                elim (Result-cases (
                                  member_or J.as_long (pos 30)
                                    (J.at j (lit "clipboard_timeout_seconds")))) [
                                      | inr (x, q) ↦
                                          absurd (ground (arith, e, o, q0, q1, q2, q3, q))
                                      | inl (a4, q4) ↦
                                          elim (Result-cases (
                                            member_or J.as_bool false
                                              (J.at j (lit "start_locked")))) [
                                                | inr (x, q) ↦
                                                    absurd
                                                      (ground (arith, e, o, q0, q1, q2, q3, q4, q))
                                                | inl (a5, q5) ↦
                                                    elim (Result-cases (
                                                      member_or J.as_text (lit "en")
                                                        (J.at j (lit "language")))) [
                                                          | inr (x, q) ↦ absurd (
                                                            ground (
                                                            arith, e, o, q0, q1, q2, q3, q4, q5, q,
                                                            ))
                                                          | inl (a6, q6) ↦ record {
                                                            object = o;
                                                            server_url = ground (
                                                            arith, e, o, q0, q1, q2, q3, q4, q5, q6,
                                                            );
                                                            timeout = ground (
                                                            arith, e, o, q0, q1, q2, q3, q4, q5, q6,
                                                            );
                                                            color = ground (
                                                            arith, e, o, q0, q1, q2, q3, q4, q5, q6,
                                                            );
                                                            unlock = ground (
                                                            arith, e, o, q0, q1, q2, q3, q4, q5, q6,
                                                            );
                                                            clipboard = ground (
                                                            arith, e, o, q0, q1, q2, q3, q4, q5, q6,
                                                            );
                                                            start_locked = ground (
                                                            arith, e, o, q0, q1, q2, q3, q4, q5, q6,
                                                            );
                                                            language = ground (
                                                            arith, e, o, q0, q1, q2, q3, q4, q5, q6,
                                                            );
                                                          }
                                                        ]
                                              ]
                                    ]
                          ]
                  ]
            ]
      ]

  pub load-IsRead :
      (j : J.Json) (c : ClientConfig)
      → J.is_object j ≡ true
      → load j ≡ ok c
      → IsRead j c × (check_config c ≡ ok tt)
  unfolding load
  load-IsRead j c o e = elim (Result-cases (read_config j)) [
    | inr (x, q) ↦ absurd (ground (arith, e, q))
    | inl (d, q) ↦ elim (Result-cases (check_config d)) [
      | inr (x, k) ↦ absurd (ground (arith, e, q, k))
      | inl (u, k) ↦
          let same : d ≡ c = ground (arith, e, q, k) in
          (read_config-IsRead j c o (q ∙ ap ok same), rw (← same) k)
    ]
  ]
