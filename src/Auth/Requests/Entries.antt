-- ===== src/Auth/Requests/Entries.antt =====
-- The steps of the endpoints by which a caller enters.
use urban_farming_backend.Prelude.{
  ◌≡◌, Bool, true, false, not, Option, none, some, String, arith, if◌then◌else◌,
}
use urban_farming_backend.Json.{field, end, Fields, str, get}
use urban_farming_backend.Db.{Result, ok, err}
use urban_farming_backend.Db.Rows.{Time}
use urban_farming_backend.Auth.Store.{User, Store, Op, ◌>>=◌, ◌>>◌, give, proceed}
use urban_farming_backend.Auth.Store.Accounts.{create_user, ensure_provisioned, user_by_email}
use urban_farming_backend.Auth.Store.Steps.{
  Effect, entry, exchange, idle, Kept, Kept-refl, IsQuiet, IsStep, IsQuiet-bind, IsStep-after,
  IsStep-give, IsStep-if, IsQuiet-IsStep, IsQuiet-if, same-IsQuiet, try_result-IsStep,
}
use urban_farming_backend.Auth.Sessions.{
  SignedIn, SignupRequest, native_signup, finish_login, native_login, native_refresh,
}
use urban_farming_backend.Auth.Tokens.{Settings}
use urban_farming_backend.Auth.App.{App, uses_native_store, auth_store, Outgoing}
use urban_farming_backend.Auth.Endpoints.Entry.{
  Hosted, own, hosted, hosted_signup, hosted_session, signup_answer, signup, login, refresh,
  token_call,
}
use urban_farming_backend.Auth.Endpoints.Google.{
  GoogleProof, google_sign_in, user_or_register, register_google, provision_google, sign_in_google,
  claims_of_proof, verified_address, google_user, name_param,
}
use urban_farming_backend.Auth.Requests.Hosted.{hosted_signup_same, hosted_session_same}
use urban_farming_backend.Auth.Requests.Quiet.{
  create_user-IsQuiet, ensure_provisioned-IsQuiet, finish_login-IsStep,
}
use urban_farming_backend.Auth.Requests.Native.{
  native_signup-IsStep, native_login-IsStep, native_refresh-IsStep,
}

-- With the hosted service there are no sessions in the store.
abbrev pub own_effect : Settings → Effect → Effect
own_effect settings e = if uses_native_store settings then e else idle

module _ {Token : Type 0} (app : App Token) where
  pub auth_store-IsQuiet : IsQuiet (auth_store app)
  auth_store-IsQuiet = IsQuiet-if app.has_store _ _ (λ s. Kept-refl s) (λ s. Kept-refl s)

  -- An endpoint that uses the store, or else asks the hosted service
  either-IsStep :
      (e : Effect) (own_way : Op (SignedIn Token)) (other : Op Hosted)
      → IsStep e own_way
      → IsQuiet other
      → IsStep (own_effect app.settings e) (
          if uses_native_store app.settings
          then (auth_store app >> (own_way >>= λ r. give (own r)))
          else (other >>= λ h. give (hosted h)))
  either-IsStep e own_way other p q =
      IsStep-if e idle (uses_native_store app.settings)
        (auth_store app >> (own_way >>= λ r. give (own r))) (other >>= λ h. give (hosted h))
        (IsStep-after e (auth_store app) (λ t. own_way >>= λ r. give (own r)) auth_store-IsQuiet
          (λ t. IsStep-give e own_way own p))
        (IsQuiet-IsStep (other >>= λ h. give (hosted h))
          (IsQuiet-bind other (λ h. give (hosted h)) q (λ h s. Kept-refl s)))

  hosted_session-IsQuiet : (call : Outgoing Token) → IsQuiet (hosted_session app call)
  hosted_session-IsQuiet call =
      same-IsQuiet (hosted_session app call) (hosted_session_same app call)

  signup_answer-IsStep :
      (p : SignupRequest) (redirect_to : Option String) (salt : String) (now : Time)
      → IsStep (own_effect app.settings entry) (signup_answer app p redirect_to salt now)
  unfolding signup_answer
  signup_answer-IsStep p redirect_to salt now =
      either-IsStep entry (native_signup app.jwt app.bcrypt app.settings p salt now)
        (hosted_signup app p redirect_to)
        (native_signup-IsStep app.jwt app.bcrypt app.settings p salt now)
        (same-IsQuiet (hosted_signup app p redirect_to) (hosted_signup_same app p redirect_to))

  pub signup-IsStep :
      (p : SignupRequest) (redirect_to : Option String) (salt : String) (now : Time)
      → IsStep (own_effect app.settings entry) (signup app p redirect_to salt now)
  unfolding signup
  signup-IsStep p redirect_to salt now =
      IsStep-give (own_effect app.settings entry) (signup_answer app p redirect_to salt now)
        (λ r. r) (signup_answer-IsStep p redirect_to salt now)

  pub login-IsStep :
      (email password : String) (now : Time)
      → IsStep (own_effect app.settings entry) (login app email password now)
  unfolding login
  login-IsStep email password now =
      either-IsStep entry (native_login app.jwt app.bcrypt app.settings email password now)
        (hosted_session app (
          token_call app "password"
            (field "email" (str email) (field "password" (str password) end))))
        (native_login-IsStep app.jwt app.bcrypt app.settings email password now)
        (hosted_session-IsQuiet _)

  pub refresh-IsStep :
      (token : Token) (t : String) (now : Time)
      → IsStep (own_effect app.settings exchange) (refresh app token t now)
  unfolding refresh
  refresh-IsStep token t now =
      either-IsStep exchange (native_refresh app.jwt app.settings token now)
        (hosted_session app (token_call app "refresh_token" (field "refresh_token" (str t) end)))
        (native_refresh-IsStep app.jwt app.settings token now) (hosted_session-IsQuiet _)

  provision_google-IsQuiet :
      (email role : String) (claims : Fields) (u : User)
      → IsQuiet (provision_google app email role claims u)
  unfolding provision_google ensure_provisioned
  provision_google-IsQuiet email role claims u s = go (name_param (get "name" claims))
    where
      go :
          (x : Result (Option String))
          → Kept s (proceed (x, s) (λ name. ensure_provisioned u.id name role >> give u)).1
      go (ok name) = ensure_provisioned-IsQuiet u.id name role s
      go (err e) = Kept-refl s

  register_google-IsQuiet :
      (email role : String) (claims : Fields) (now : Time)
      → IsQuiet (register_google app email role claims now)
  unfolding register_google
  register_google-IsQuiet email role claims now =
      IsQuiet-bind (create_user (google_user email role claims) now)
        (provision_google app email role claims) (create_user-IsQuiet _ now)
        (provision_google-IsQuiet email role claims)

  user_or_register-IsQuiet :
      (email role : String) (claims : Fields) (now : Time) (found : Option User)
      → IsQuiet (user_or_register app email role claims now found)
  unfolding user_or_register
  user_or_register-IsQuiet email role claims now none s =
      register_google-IsQuiet email role claims now s
  user_or_register-IsQuiet email role claims now (some u) s = Kept-refl s

  claims_of_proof_same : (proof : GoogleProof) (s : Store) → (claims_of_proof app proof s).1 ≡ s
  unfolding claims_of_proof
  claims_of_proof_same proof s = ground arith

  sign_in_google-IsStep :
      (role : String) (now : Time) (claims : Fields)
      → IsStep entry (sign_in_google app role now claims)
  unfolding sign_in_google
  sign_in_google-IsStep role now claims =
      try_result-IsStep entry (verified_address claims) _ (λ email s.
        IsStep-after entry (user_or_register app email role claims now (user_by_email email s))
          (finish_login app.jwt app.settings now)
          (user_or_register-IsQuiet email role claims now (user_by_email email s))
          (finish_login-IsStep app.jwt app.settings now) s)

  pub google_sign_in-IsStep :
      (proof : GoogleProof) (role : String) (now : Time)
      → IsStep (own_effect app.settings entry) (google_sign_in app proof role now)
  unfolding google_sign_in
  google_sign_in-IsStep proof role now =
      google_way (uses_native_store app.settings) _ _ (λ s. Kept-refl s)
        (IsStep-after entry (auth_store app)
          (λ t. claims_of_proof app proof >>= sign_in_google app role now) auth_store-IsQuiet
          (λ t.
            IsStep-after entry (claims_of_proof app proof) (sign_in_google app role now)
              (same-IsQuiet (claims_of_proof app proof) (claims_of_proof_same proof))
              (sign_in_google-IsStep role now)))
    where
      google_way :
          {A : Type 0} (b : Bool) (m n : Op A)
          → IsQuiet m
          → IsStep entry n
          → IsStep (if b then entry else idle) (if not b then m else n)
      google_way true m n p q = q
      google_way false m n p q = IsQuiet-IsStep m p
