-- ===== src/ApiClient.antt =====
-- client/src/api_client.cpp: one HTTP exchange over libcurl, and how its result is judged. The path
-- of the options that `request` sets on the handle (TLS verification, no redirects, time-outs) is in
-- the fields of `HttpCall` as far as it varies.
pub mod Responses
use nox_vault.Config.Settings.Showing.{to_string}
use nox_vault.Models.Wire.{read}
use nox_vault.Effects.{Request, Api, Method}
use nox_vault.Libraries.Json.{JsonLib}
use nox_vault.Common.{
  String, is_int, leb, length, eq_text, Bool, ℤ, ltb, message, lit, [], Option, false, ◌*◌, some,
  ◌||◌, ◌∷◌, ◌++◌, ℕ, Bytes, ◌==◌, ◌-◌, ◌&&◌, List, if◌then◌else◌, none, Text, true,
}
use nox_vault.Errors.{
  guard, version_conflict, api_compatibility_error, authentication_error, json_exception,
  server_error, rethrow, network_error, or_throw, Result, err, ok, ◌>>=◌, ◌>>◌,
}

abbrev pub max_response_size : ℕ
max_response_size = 16 * 1024 * 1024

pub record HttpCall : Type 0 where
  pub method : Text
  pub url : Text
  pub token : Option Text
  pub payload : Option Text
  pub timeout : ℤ

-- What the network does with a call: the pieces of the body that it delivers, whether the transfer
-- then succeeds (`none`) or with what text it fails, and the status. libcurl ends a transfer with
-- CURLE_WRITE_ERROR as soon as the callback takes fewer bytes than it was given.
pub record Exchange : Type 0 where
  pub chunks : List Bytes
  pub failure : Option Text
  pub write_error : Text
  pub status : ℕ

-- libcurl: no exchange if no handle can be created.
pub record Curl : Type 1 where
  pub State : Type 0
  pub perform : HttpCall → State → Option Exchange × State

-- The callback: `none` is a return value of 0.
unfoldable pub receive : Bytes → Bytes → Option Bytes
receive chunk response =
    if ltb max_response_size (length chunk)
      || ltb (max_response_size - length chunk) (length response)
    then none
    else some (response ++ chunk)

-- The body that was gathered, and whether the callback stopped the transfer.
unfoldable pub gather : List Bytes → Bytes → Bytes × Bool
gather [] response = (response, false)
gather (c ∷ cs) response = elim (receive c response) [
  | none ↦ (response, true)
  | some r ↦ gather cs r
]

-- while (server_url_.ends_with('/')) server_url_.pop_back();
unfoldable pub strip_slashes : Text → Text
strip_slashes [] = []
strip_slashes (c ∷ s) =
    let rest = strip_slashes s in if (c == b'/') && eq_text rest [] then [] else c ∷ rest

pub record ApiClient : Type 0 where
  pub server_url : Text
  pub timeout_seconds : ℤ
  pub token : Option Text

unfoldable pub connect : Text → ℤ → ApiClient
connect url timeout = record {
  server_url = strip_slashes url;
  timeout_seconds = timeout;
  token = none;
}

unfoldable pub set_token : Option Text → ApiClient → ApiClient
set_token token c = record c { token = token }

module _ ⦃J : JsonLib⦄ where
  unfoldable pub http_call : ApiClient → Text → Text → Option J.Json → HttpCall
  http_call c method path body = record {
    method = method;
    url = c.server_url ++ (lit "/api/v1" ++ path);
    token = c.token;
    payload = elim body [ none ↦ none | some j ↦ some (J.dump j) ];
    timeout = c.timeout_seconds;
  }

  -- The checks of the result of curl_easy_perform.
  unfoldable transferred : Option Text → Bytes × Bool → Text → Result Bytes
  transferred failure (response, true) write_error =
      if leb max_response_size (length response)
      then err (
          server_error 0 (lit "response_too_large")
            (message "Server response exceeded the client limit"))
      else err (network_error (message "Network request failed: " ++ write_error))
  transferred none (response, false) write_error = ok response
  transferred (some text) (response, false) write_error =
      err (network_error (message "Network request failed: " ++ text))

  unfoldable pub parse_response : ℕ → Bytes → Result J.Json
  parse_response status [] = ok J.null
  parse_response status (c ∷ s) =
      or_throw
        (server_error status (lit "invalid_response") (message "Server returned invalid JSON"))
        (J.parse (c ∷ s))

  -- parsed.at("error").at(key) as a text
  error_member : J.Json → Text → Result Text
  error_member j key = do e ← or_throw json_exception (J.at j (lit "error")); read J.as_text e key

  or_default : Text → Result Text → Text
  or_default d (ok t) = t
  or_default d (err e) = d

  -- The code stays assigned if only the message is missing.
  unfoldable pub error_code : J.Json → Text
  unfolding error_member or_default
  error_code j = or_default (lit "server_error") (error_member j (lit "code"))

  unfoldable pub error_message : J.Json → Text
  unfolding error_member or_default
  error_message j =
      or_default (message "Server request failed")
        (do code ← error_member j (lit "code"); error_member j (lit "message"))

  unfoldable pub judge : ℕ → J.Json → Result J.Json
  judge status parsed =
      if leb 400 status
      then if status == 401
        then err (authentication_error (error_message parsed))
        else if (status == 409) && eq_text (error_code parsed) (lit "version_conflict")
        then err (version_conflict status (error_code parsed) (error_message parsed))
        else err (server_error status (error_code parsed) (error_message parsed))
      else if ltb status 200 || leb 300 status
      then err (
          server_error status (lit "unexpected_status")
            (message "Server returned an unexpected status"))
      else ok parsed

  unfoldable pub response : Option Exchange → Result J.Json
  unfolding transferred
  response none = err (network_error (message "Unable to create HTTP request"))
  response (some x) = do
    body ← transferred x.failure (gather x.chunks []) x.write_error
    parsed ← parse_response x.status body
    judge x.status parsed

  -- The version, and whether it and the status are the expected ones.
  stated : J.Json → Result (Bool × ℤ)
  stated result = do
    version ← read J.as_int result (lit "api_version")
    status ← or_throw json_exception (J.at result (lit "status"))
    ok (J.same status (J.text (lit "ok")) && is_int 1 version, version)

  -- What `check_compatibility` makes of the response.
  unfoldable pub health : Result J.Json → Result (Unit {0})
  unfolding stated
  health r = do
    result ← r
    answer ←
        rethrow (λ _. api_compatibility_error (message "Server health response is invalid"))
          (stated result)
    guard answer.0 (
        api_compatibility_error (
          message "Server API version "
          ++ to_string answer.1
          ++ message " is not supported by this client. Supported versions: 1"))

  abbrev method_text : Method → Text
  method_text Method.get = lit "GET"
  method_text Method.post = lit "POST"
  method_text Method.put = lit "PUT"
  method_text Method.delete = lit "DELETE"

module _ ⦃J : JsonLib⦄ ⦃C : Curl⦄ where
  answered : Option Exchange × C.State → Result J.Json × C.State
  answered (x, s) = (response x, s)

  -- `get`, `post`, `put` and `remove`, by the method and the body of the request.
  unfoldable pub request : ApiClient → Request → C.State → Result J.Json × C.State
  unfolding answered
  request c q s = answered (C.perform (http_call c (method_text q.method) q.path q.body) s)

  -- The client with the network behind it is what the vault and the backups send requests to.
  abbrev pub client_api : ApiClient → Api
  client_api c = record { Server = C.State; answer = request c }

  unfoldable pub check_compatibility : ApiClient → C.State → Result (Unit {0}) × C.State
  unfolding health
  check_compatibility c s =
      let (r, s') =
        request c (record { method = Method.get; path = lit "/health"; body = none }) s in
      (health r, s')
