-- ===== src/ApiClient/Responses.antt =====
-- What the client makes of a response: its size, its status and its body.
use mathlib.Core.List.{append-nil, append_assoc}
use nox_vault.ApiClient.{transferred, max_response_size, Exchange, receive, response, gather}
use nox_vault.Libraries.Json.{JsonLib}
use nox_vault.Common.{
  Text, Option, length-append, message, arith, length, ℕ, Bytes, [], some, true, ◌≡◌, ◌<◌, ◌∷◌,
  ◌++◌, ◌≤◌, ◌+◌, List, false,
}
use nox_vault.Errors.{network_error, err}

-- However the body is split, the gathered body never exceeds the limit.
pub length-gather :
    (chunks : List Bytes) (body : Bytes)
    → length body ≤ max_response_size
    → length (gather chunks body).0 ≤ max_response_size
unfolding gather receive
length-gather [] body h = h
length-gather (c ∷ cs) body h = ground (arith, length-append body c, length-gather cs (body ++ c))

abbrev pub total : List Bytes → ℕ
total [] = 0
total (c ∷ cs) = length c + total cs

abbrev pub concat : List Bytes → Bytes
concat [] = []
concat (c ∷ cs) = c ++ concat cs

-- A body whose pieces fit the limit together is gathered whole and in order, and the callback does
-- not stop the transfer.
pub gather-whole :
    (chunks : List Bytes) (body : Bytes)
    → length body + total chunks ≤ max_response_size
    → gather chunks body ≡ (body ++ concat chunks, false)
unfolding gather receive
gather-whole [] body h = rw (append-nil body)
gather-whole (c ∷ cs) body h =
    let rest = gather-whole cs (body ++ c) (ground (arith, length-append body c)) in
    ground (arith, rest, append_assoc body c (concat cs))

module _ ⦃J : JsonLib⦄ where
  transferred-short :
      (failure : Option Text) (b : Bytes) (e : Text)
      → length b < max_response_size
      → transferred failure (b, true) e
        ≡ err (network_error (message "Network request failed: " ++ e))
  unfolding transferred
  transferred-short failure b e h = ground arith

  -- A transfer that the callback stopped is reported as a network error, and not as a response that
  -- is too large, unless the bytes that were gathered fill the limit exactly.
  pub response-too_large :
      (x : Exchange) (b : Bytes)
      → gather x.chunks [] ≡ (b, true)
      → length b < max_response_size
      → response (some x)
        ≡ err (network_error (message "Network request failed: " ++ x.write_error))
  unfolding response
  response-too_large x b a h = rw (a, transferred-short x.failure b x.write_error h)
