-- ===== src/Auth/Requests/Hosted.antt =====
-- What the handlers do with the hosted service leaves the store as it is.
use urban_farming_backend.Prelude.{◌≡◌, Option, String, arith}
use urban_farming_backend.Json.{Json}
use urban_farming_backend.Db.{Result}
use urban_farming_backend.Auth.Store.{Store}
use urban_farming_backend.Auth.Sessions.{SignupRequest}
use urban_farming_backend.Auth.App.{App, Outgoing}
use urban_farming_backend.Auth.Endpoints.{only_unavailable}
use urban_farming_backend.Auth.Endpoints.Entry.{load_roles, hosted_signup, hosted_session}

pub only_unavailable_same : (x : Result Json) (s : Store) → (only_unavailable x s).1 ≡ s
only_unavailable_same x s = ground arith

module _ {Token : Type 0} (app : App Token) where
  load_roles_same : (session user : Json) (s : Store) → (load_roles app session user s).1 ≡ s
  load_roles_same session user s = ground arith

  pub hosted_signup_same :
      (p : SignupRequest) (redirect_to : Option String) (s : Store)
      → (hosted_signup app p redirect_to s).1 ≡ s
  unfolding hosted_signup
  hosted_signup_same p redirect_to s = ground arith

  pub hosted_session_same : (call : Outgoing Token) (s : Store) → (hosted_session app call s).1 ≡ s
  unfolding hosted_session
  hosted_session_same call s = ground arith
