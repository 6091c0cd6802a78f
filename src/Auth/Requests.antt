-- ===== src/Auth/Requests.antt =====
-- The requests that app/routers/auth.py takes, one after another: what is left in the store is left
-- there whether the request succeeds or fails.
pub mod Quiet
pub mod Hosted
pub mod Native
pub mod Entries
pub mod Exits
pub mod Refinement
use urban_farming_backend.Prelude.{Bool, true, false, Option, String, List, [], ◌∷◌}
use urban_farming_backend.Db.{Result, ok, err}
use urban_farming_backend.Db.Rows.{Time}
use urban_farming_backend.Auth.Store.{Store}
use urban_farming_backend.Auth.Sessions.{SignupRequest}
use urban_farming_backend.Auth.App.{App, Header}
use urban_farming_backend.Auth.Endpoints.{logout, request_password_reset, update_password}
use urban_farming_backend.Auth.Endpoints.Entry.{signup, login, refresh}
use urban_farming_backend.Auth.Endpoints.Google.{GoogleProof, google_sign_in}

-- A request with the instant at which it is handled, and the salt of a new hash
pub data Request (Token : Type 0) : Type 0 where
  signing_up : SignupRequest → Option String → String → Time → Request Token
  logging_in : String → String → Time → Request Token
  refreshing : Token → String → Time → Request Token
  google : GoogleProof → String → Time → Request Token
  logging_out : String → Option (Header Token) → Time → Request Token
  resetting : String → Option String → Time → Request Token
  updating : Option (Header Token) → String → String → Time → Request Token

abbrev pub outcome_of : {A : Type 0} → Result A × Store → Bool × Store
outcome_of (ok a, s) = (true, s)
outcome_of (err e, s) = (false, s)

module _ {Token : Type 0} (app : App Token) where
  -- Whether the request succeeds, and what it leaves in the store
  unfoldable pub handled : Request Token → Store → Bool × Store
  handled (signing_up p redirect_to salt now) s = outcome_of (signup app p redirect_to salt now s)
  handled (logging_in email password now) s = outcome_of (login app email password now s)
  handled (refreshing token t now) s = outcome_of (refresh app token t now s)
  handled (google proof role now) s = outcome_of (google_sign_in app proof role now s)
  handled (logging_out scope authorization now) s =
      outcome_of (logout app scope authorization now s)
  handled (resetting email redirect_to now) s =
      outcome_of (request_password_reset app email redirect_to now s)
  handled (updating authorization password salt now) s =
      outcome_of (update_password app authorization password salt now s)

  abbrev pub handle : Request Token → Store → Store
  handle r s = (handled r s).1

  unfoldable pub handle_all : List (Request Token) → Store → Store
  handle_all [] s = s
  handle_all (r ∷ rs) s = handle_all rs (handle r s)
