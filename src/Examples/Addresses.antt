-- ===== src/Examples/Addresses.antt =====
-- The theorems on the addresses of the server and on responses at concrete inputs.
use nox_vault.ApiClient.Responses.{length-gather}
use nox_vault.ApiClient.{max_response_size, gather}
use nox_vault.Config.Url.Accepts.{validate_server_url-IsServerUrl, IsServerUrl}
use nox_vault.Config.Url.{split_authority, validate_server_url}
use nox_vault.Common.{arith, length, [], ◌∷◌, ◌≤◌, Text, lit, refl}
use nox_vault.Examples.Toys.{toy_json}

accepted_url_example : (authority : Text) × IsServerUrl (lit "https://nox.example") authority
unfolding validate_server_url split_authority
accepted_url_example = validate_server_url-IsServerUrl (lit "https://nox.example") refl

gathered_example : length (gather (lit "ab" ∷ lit "c" ∷ []) []).0 ≤ max_response_size
gathered_example = length-gather (lit "ab" ∷ lit "c" ∷ []) [] (omega arith)
