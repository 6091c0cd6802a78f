-- ===== src/Auth/Upstream.antt =====
-- Calls of a hosted authentication service and how its failures come back (`_gotrue`,
-- `_exchange_google_code` and `_google_claims` of app/routers/auth.py). The service is a parameter:
-- it gives no response where the HTTP client raises.
pub mod Laws
use urban_farming_backend.Prelude.{
  ℕ, Bool, true, false, not, Option, none, some, String, List, [], ◌∷◌, any, leb, ◌==◌,
  if◌then◌else◌,
}
use text.Mathlib.Text.{◌==◌ as str_eq}
use urban_farming_backend.Json.{Json, Fields, null, str, obj, end, field, get, is_truthy, json_or}
use urban_farming_backend.Db.{Result, ok, err, Error, app_error, value_error, attribute_error}
use urban_farming_backend.Auth.Tokens.{AuthMode, Settings, text_or_empty, invalid_token}

-- `response.status_code`, whether `response.content` is not empty, and `response.json()`, which is
-- `none` where it raises `ValueError`
pub record Response : Type 0 where
  pub status_code : ℕ
  pub has_content : Bool
  pub body : Option Json

abbrev pub auth_unavailable : Error
auth_unavailable = app_error 502 "auth_unavailable" null

-- `_PASSTHROUGH_STATUSES`
abbrev pub passthrough_statuses : List ℕ
passthrough_statuses = 400 ∷ 401 ∷ 403 ∷ 404 ∷ 409 ∷ 422 ∷ 429 ∷ []

abbrev pub passed_status : ℕ → ℕ
passed_status n = if any (λ m. m == n) passthrough_statuses then n else 502

-- The dictionary that a response holds, with what `detail = {}` stands in for
abbrev pub detail_of : Option Json → Result Fields
detail_of none = ok end
detail_of (some (obj d)) = ok d
detail_of (some _) = err attribute_error

-- `d.get(k) or d.get(l) or "auth_error"`
abbrev pub error_code : String → String → Fields → Json
error_code k l d = json_or (get k d) (json_or (get l d) (str "auth_error"))

-- `not value`, of an optional text
abbrev pub is_unset : Option String → Bool
is_unset o = str_eq (text_or_empty o) ""

abbrev pub not_configured : Error
not_configured = app_error 501 "google_signin_not_configured" null

abbrev pub json_body : Option Json → Error → Result Json
json_body none e = err e
json_body (some v) e = ok v

-- `str` of a JSON value is a parameter.
module _ (py_str : Json → String) where
  abbrev pub refusal_of : String → String → ℕ → Result Fields → Error
  refusal_of k l n (ok d) = app_error (passed_status n) (py_str (error_code k l d)) null
  refusal_of k l n (err e) = e

  -- The error of a response of status 400 or more, whose code stands under the first or the second key
  abbrev pub refusal : String → String → Response → Error
  refusal k l r = refusal_of k l r.status_code (detail_of r.body)

  -- `_gotrue` once the response is there
  abbrev pub gotrue_response : Option Response → Result Json
  gotrue_response none = err auth_unavailable
  gotrue_response (some r) =
      if leb 400 r.status_code
      then err (refusal "error_code" "error" r)
      else (if not r.has_content then ok (obj end) else json_body r.body value_error)

  unfoldable pub gotrue : Settings → Option Response → Result Json
  gotrue settings response = elim settings.auth_mode [
    | AuthMode.supabase ↦ gotrue_response response
    | _ ↦ err (app_error 501 "unsupported_auth_mode" null)
  ]

  abbrev pub google_response : Option Response → Result Json
  google_response none = err auth_unavailable
  google_response (some r) =
      if leb 400 r.status_code
      then err (refusal "error" "error_code" r)
      else json_body r.body auth_unavailable

  -- `_exchange_google_code`, with the response to the request that it makes
  unfoldable pub exchange_google_code : Settings → Option Response → Result Json
  exchange_google_code settings response =
      if is_unset settings.google_client_id
      then err not_configured
      else (if is_unset settings.google_client_secret
          then err not_configured
          else google_response response)

-- `_google_claims`, with what `jwt.decode` gives for the token under Google's keys
abbrev pub claims_or_refused : Option Fields → Result Fields
claims_or_refused none = err invalid_token
claims_or_refused (some c) = ok c

unfoldable pub google_claims : Settings → Option Fields → Result Fields
google_claims settings decoded =
    if is_unset settings.google_client_id then err not_configured else claims_or_refused decoded
