-- ===== src/Clipboard.antt =====
-- client/src/clipboard.cpp. The clipboard of Windows is a state, the calls of Windows that may fail
-- and the conversion to UTF-16 are arguments; the other platforms have no clipboard. `locks` is the
-- `GlobalLock` of the comparison; that of a new block, through whose result the copy writes without a
-- test, is taken to succeed.
pub mod Clearing
use nox_vault.Errors.{nox_error, ok, Result, err}
use nox_vault.Common.{
  message, not, eq_text, Option, ℕ, none, [], true, Text, if◌then◌else◌, Bool, ◌==◌, some, ◌∷◌,
  List, false, ◌&&◌,
}

pub data Platform : Type 0 where
  windows apple unix : Platform

pub record Board : Type 0 where
  pub opened : Bool
  pub content : Option (List ℕ)

-- Which calls succeed: OpenClipboard, EmptyClipboard, GlobalAlloc, SetClipboardData, GlobalLock.
pub record Calls : Type 0 where
  pub opens : Bool
  pub empties : Bool
  pub allocates : Bool
  pub sets : Bool
  pub locks : Bool

unfoldable pub close : Board → Board
close b = record b { opened = false }

-- MultiByteToWideChar gives `none` for an invalid text; an empty result is refused as well.
unfoldable pub utf8_to_wide : (Text → Option (List ℕ)) → Text → Result (List ℕ)
utf8_to_wide convert value = elim (convert value) [
  | none ↦ err (nox_error (message "Secret is not valid UTF-8"))
  | some [] ↦ err (nox_error (message "Secret is not valid UTF-8"))
  | some (c ∷ w) ↦ ok (c ∷ w)
]

place : Calls → Board → Result (List ℕ) → Result (Unit {0}) × Board
unfolding close
place k b (err e) = (err e, close b)
place k b (ok w) =
    if not k.allocates
    then (err (nox_error (message "Unable to allocate clipboard memory")), close b)
    else if not k.sets
    then (err (nox_error (message "Unable to set clipboard data")), close b)
    else (ok tt, close (record b { content = some w }))

unfoldable pub copy_to_clipboard :
    Platform → (Text → Option (List ℕ)) → Calls → Text → Board → Result (Unit {0}) × Board
unfolding place close
copy_to_clipboard windows convert k value b =
    if not k.opens
    then (err (nox_error (message "Unable to open the Windows clipboard")), b)
    else if not k.empties
    then (
      err (nox_error (message "Unable to clear the Windows clipboard")),
      close (record b { opened = true }),
    )
    else place k (record b { opened = true; content = none }) (utf8_to_wide convert value)
copy_to_clipboard apple convert k value b =
    (err (nox_error (message "Native macOS clipboard backend is unavailable in this build")), b)
copy_to_clipboard unix convert k value b = (
  err (nox_error (message "No safe native clipboard backend is available on this Unix platform")),
  b,
)

-- The wide text up to the terminating zero.
unfoldable pub until_zero : List ℕ → List ℕ
until_zero [] = []
until_zero (c ∷ w) = let rest = c ∷ until_zero w in if c == 0 then [] else rest

same_wide : Result (List ℕ) → List ℕ → Bool
same_wide (ok w) current = eq_text w (until_zero current)
same_wide (err e) current = false

emptied : Calls → Board → Bool → Bool × Board
unfolding close
emptied k b matches =
    if matches && k.empties then (true, close (record b { content = none })) else (false, close b)

compared : (Text → Option (List ℕ)) → Calls → Text → Board → Option (List ℕ) → Bool × Board
unfolding close same_wide emptied
compared convert k value b none = (false, close b)
compared convert k value b (some current) =
    emptied k b (k.locks && same_wide (utf8_to_wide convert value) current)

unfoldable pub clear_clipboard_if_matches :
    Platform → (Text → Option (List ℕ)) → Calls → Text → Board → Bool × Board
unfolding compared
clear_clipboard_if_matches windows convert k value b =
    if not k.opens
    then (false, b)
    else compared convert k value (record b { opened = true }) b.content
clear_clipboard_if_matches apple convert k value b = (false, b)
clear_clipboard_if_matches unix convert k value b = (false, b)
