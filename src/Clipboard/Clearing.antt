-- ===== src/Clipboard/Clearing.antt =====
-- A secret that was copied can be cleared again, and nothing else is.
use nox_vault.Common.{
  eq_text_refl, eq_text, true, none, some, arith, Option, ℕ, [], ◌<◌, refl, Text, ◌≡◌, ◌∷◌, List,
  false,
}
use nox_vault.Clipboard.{
  Platform, windows, Board, Calls, close, utf8_to_wide, copy_to_clipboard,
  clear_clipboard_if_matches, until_zero, place, compared, emptied, same_wide,
}
use nox_vault.Errors.{ok}

unfoldable pub IsPlain : List ℕ → Type 0
IsPlain [] = Unit {0}
IsPlain (c ∷ w) = (0 < c) × IsPlain w

until_zero-plain : (w : List ℕ) → IsPlain w → until_zero w ≡ w
unfolding until_zero IsPlain
until_zero-plain [] h = refl
until_zero-plain (c ∷ w) (p, h) = ground (arith, until_zero-plain w h)

-- Both functions leave the clipboard closed, whatever call fails.
pub clipboard-closed :
    (platform : Platform) (convert : Text → Option (List ℕ)) (k : Calls) (value : Text) (b : Board)
    → b.opened ≡ false
    → ((copy_to_clipboard platform convert k value b).1.opened ≡ false)
      × ((clear_clipboard_if_matches platform convert k value b).1.opened ≡ false)
unfolding copy_to_clipboard clear_clipboard_if_matches place compared emptied close
clipboard-closed windows convert k value b h = (ground arith, ground arith)
clipboard-closed platform convert k value b h = (h, h)

-- After a secret was copied on Windows, clearing it empties the clipboard when no call fails; when
-- another program has put something else there, clearing keeps it. The text of the secret has no
-- zero in it.
pub clear_clipboard_if_matches-copy_to_clipboard :
    (convert : Text → Option (List ℕ)) (k later : Calls) (value : Text) (w other : List ℕ)
    (b b' : Board)
    → convert value ≡ some w
    → IsPlain w
    → copy_to_clipboard windows convert k value b ≡ (ok tt, b')
    → later.opens ≡ true
    → later.locks ≡ true
    → later.empties ≡ true
    → eq_text w (until_zero other) ≡ false
    → (clear_clipboard_if_matches windows convert later value b'
        ≡ (true, record { opened = false; content = none }))
      × (clear_clipboard_if_matches windows convert later value (record b' { content = some other })
          ≡ (false, record { opened = false; content = some other }))
unfolding copy_to_clipboard clear_clipboard_if_matches place compared emptied close same_wide
    utf8_to_wide
clear_clipboard_if_matches-copy_to_clipboard convert k later value [] other b b' c p done o l e n =
    absurd (ground (arith, c))
clear_clipboard_if_matches-copy_to_clipboard convert k later value (x ∷ w) other b b' c p done o l e
      n =
    let held : b' ≡ record { opened = false; content = some (x ∷ w) } = ground (arith, c) in
    let same : eq_text (x ∷ w) (until_zero (x ∷ w)) ≡ true =
      rw (until_zero-plain (x ∷ w) p) (eq_text_refl (x ∷ w)) in
    (rw held (ground (arith, c, same)), ground (arith, c, n))
