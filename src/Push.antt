-- ===== src/Push.antt =====
-- Mobile push notifications (app/services/mobile_push.py). The messaging service is a parameter, as
-- are the gateway's answers to the queries of roles and of device tokens.
pub mod Laws
mod Tests
use text.Mathlib.Text.{◌==◌ as str_eq}
use urban_farming_backend.Prelude.{
  ℕ, zero, suc, Bool, true, false, ◌||◌, Option, none, some, String, List, [], ◌∷◌, ◌++◌, length,
  any, is_empty, if◌then◌else◌, strip,
}
use urban_farming_backend.Json.{null}
use urban_farming_backend.Db.{Result, ok, err, Error, app_error}

-- `list(islice(iterator, n))`, and what it leaves
abbrev pub take : ℕ → List String → List String
take zero xs = []
take (suc n) [] = []
take (suc n) (x ∷ xs) = x ∷ take n xs

abbrev pub drop : ℕ → List String → List String
drop zero xs = xs
drop (suc n) [] = []
drop (suc n) (x ∷ xs) = drop n xs

-- The loop of `_chunked`, for a number of rounds at most
unfoldable pub chunked_within : ℕ → ℕ → List String → List (List String)
chunked_within zero size values = []
chunked_within (suc rounds) size values =
    let rest = chunked_within rounds size (drop size values) in
    if is_empty (take size values) then [] else take size values ∷ rest

-- `_chunked`: a round takes at least one value, so that the values are rounds enough.
abbrev pub chunked : ℕ → List String → List (List String)
chunked size values = chunked_within (length values) size values

abbrev pub max_fcm_batch_size : ℕ
max_fcm_batch_size = 500

-- A response of the service: whether it succeeded, the identifier of the message, and otherwise the
-- code of the exception or its class
pub record PushResponse : Type 0 where
  pub success : Bool
  pub message_id : Option String
  pub error : String

pub record Tally : Type 0 where
  pub message_ids : List String
  pub failures : List (String × String)

-- `if response.message_id`
abbrev pub sent_ids : Option String → List String
sent_ids none = []
sent_ids (some s) = if str_eq s "" then [] else s ∷ []

abbrev pub tally_one : String → PushResponse → Tally → Tally
tally_one token r t =
    if r.success
    then record t { message_ids = t.message_ids ++ sent_ids r.message_id }
    else record t { failures = t.failures ++ ((token, r.error) ∷ []) }

-- `zip(token_batch, responses, strict=False)`
unfoldable pub tally_batch : List String → List PushResponse → Tally → Tally
tally_batch [] rs t = t
tally_batch (x ∷ xs) [] t = t
tally_batch (x ∷ xs) (r ∷ rs) t = tally_batch xs rs (tally_one x r t)

pub record PushResult : Type 0 where
  pub requested : ℕ
  pub sent : ℕ
  pub failed : ℕ
  pub message_ids : List String
  pub errors : List (String × String)

abbrev pub result_of : ℕ → Tally → PushResult
result_of requested t = record {
  requested = requested;
  sent = length t.message_ids;
  failed = length t.failures;
  message_ids = t.message_ids;
  errors = t.failures;
}

abbrev pub no_tally : Tally
no_tally = record { message_ids = []; failures = [] }

abbrev pub project_missing : Error
project_missing = app_error 500 "firebase_project_missing" null

-- `not settings.gcp_project_id`
abbrev pub has_project : Option String → Bool
has_project none = false
has_project (some s) = if str_eq s "" then false else true

module _ (multicast : List String → List PushResponse) where
  unfoldable pub tally_batches : List (List String) → Tally → Tally
  tally_batches [] t = t
  tally_batches (b ∷ bs) t = tally_batches bs (tally_batch b (multicast b) t)

  unfoldable pub send_push_notifications : Option String → List String → Result PushResult
  send_push_notifications gcp_project_id [] = ok (result_of 0 no_tally)
  send_push_notifications gcp_project_id (x ∷ xs) =
      if has_project gcp_project_id
      then ok (
          result_of (length (x ∷ xs))
            (tally_batches (chunked max_fcm_batch_size (x ∷ xs)) no_tally))
      else err project_missing

-- `device_token not in seen`
abbrev pub mem_text : String → List String → Bool
mem_text x xs = any (λ y. str_eq y x) xs

-- The loop over the rows of device tokens: `deduped` holds what was seen.
unfoldable pub dedupe : List String → List String → List String
dedupe deduped [] = deduped
dedupe deduped (row ∷ rows) =
    dedupe
      (if str_eq (strip row) "" || mem_text (strip row) deduped
        then deduped
        else deduped ++ (strip row ∷ []))
      rows

-- `resolve_push_tokens`, with the accounts of some roles and the device tokens of some accounts
unfoldable pub resolve_push_tokens :
    (List String → List String)
    → (List String → List String)
    → List String
    → List String
    → List String
resolve_push_tokens users_of tokens_of user_ids roles =
    let candidates = user_ids ++ (if is_empty roles then [] else users_of roles) in
    if is_empty candidates then [] else dedupe [] (tokens_of candidates)
