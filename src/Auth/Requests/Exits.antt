-- ===== src/Auth/Requests/Exits.antt =====
-- The steps of the endpoints that end the sessions of an account.
use urban_farming_backend.Prelude.{◌≡◌, refl, Option, none, some, String, [], ◌∷◌, arith}
use urban_farming_backend.Json.{Fields}
use urban_farming_backend.Db.Rows.{Uuid, Time}
use urban_farming_backend.Auth.Store.{User, Store, ◌>>=◌, ◌>>◌, give, try_result}
use urban_farming_backend.Auth.Store.Accounts.{set_password, user_by_email}
use urban_farming_backend.Auth.Store.Tokens.{revoke_all_refresh_tokens}
use urban_farming_backend.Auth.Store.Steps.{
  exit, idle, Kept-refl, IsQuiet, IsQuiet-bind, IsQuiet-IsStep, IsStep, IsStep-after, IsStep-give,
  IsStep-if, try_result-IsStep,
}
use urban_farming_backend.Auth.Tokens.{decode_token, uuid_claim}
use urban_farming_backend.Auth.App.{
  App, Header, uses_native_store, auth_store, bearer_token, Outgoing,
}
use urban_farming_backend.Auth.Endpoints.{
  Message, call_hosted, native_logout, logout, logout_request, send_reset, native_password_reset,
  request_password_reset, native_update_password, change_password, update_password,
  password_request,
}
use urban_farming_backend.Auth.Requests.Quiet.{
  set_password-IsQuiet, revoke_all_refresh_tokens-IsStep,
}
use urban_farming_backend.Auth.Requests.Entries.{own_effect, auth_store-IsQuiet}

module _ {Token : Type 0} (app : App Token) where
  native_logout-IsStep : (token : Token) (now : Time) → IsStep exit (native_logout app token now)
  unfolding native_logout
  native_logout-IsStep token now =
      try_result-IsStep exit (decode_token app.jwt app.settings now token ("access" ∷ [])) _
        (λ claims. IsStep-after exit (auth_store app) _ (auth_store-IsQuiet app) (λ t.
          try_result-IsStep exit (uuid_claim "sub" claims) _ (λ user_id.
            IsStep-give exit (revoke_all_refresh_tokens user_id now) (λ t. "Signed out")
              (revoke_all_refresh_tokens-IsStep user_id now))))

  call_hosted-IsQuiet : (r : Outgoing Token) → IsQuiet (call_hosted app r)
  call_hosted-IsQuiet r s = Kept-refl s

  hosted_way-IsStep :
      (r : Outgoing Token) (message : Message)
      → IsStep idle (call_hosted app r >>= λ v. give message)
  hosted_way-IsStep r message = IsQuiet-IsStep (call_hosted app r >>= λ v. give message) (
      IsQuiet-bind (call_hosted app r) (λ v. give message) (call_hosted-IsQuiet r)
        (λ v s. Kept-refl s))

  pub logout-IsStep :
      (scope : String) (authorization : Option (Header Token)) (now : Time)
      → IsStep (own_effect app.settings exit) (logout app scope authorization now)
  unfolding logout
  logout-IsStep scope authorization now =
      try_result-IsStep (own_effect app.settings exit) (bearer_token app authorization) _ (λ token.
        IsStep-if exit idle (uses_native_store app.settings) (native_logout app token now)
          (call_hosted app (logout_request app scope token) >>= λ v. give "Signed out")
          (native_logout-IsStep token now)
          (hosted_way-IsStep (logout_request app scope token) "Signed out"))

  send_reset_same :
      (redirect_to : Option String) (now : Time) (u : Option User) (s : Store)
      → (send_reset app redirect_to now u s).1 ≡ s
  unfolding send_reset
  send_reset_same redirect_to now none s = refl
  send_reset_same redirect_to now (some u) s = ground arith

  pub request_password_reset_same :
      (email : String) (redirect_to : Option String) (now : Time) (s : Store)
      → (request_password_reset app email redirect_to now s).1 ≡ s
  unfolding request_password_reset native_password_reset
  request_password_reset_same email redirect_to now s =
      ground (arith, send_reset_same redirect_to now (user_by_email email s) s)

  change_password-IsStep :
      (claims : Fields) (password salt : String) (now : Time) (user_id : Uuid)
      → IsStep exit (change_password app claims password salt now user_id)
  unfolding change_password
  change_password-IsStep claims password salt now user_id s =
      IsStep-after exit (set_password user_id (app.bcrypt.hashpw password salt) now)
        (λ t. revoke_all_refresh_tokens user_id now >> give "Password updated")
        (set_password-IsQuiet user_id (app.bcrypt.hashpw password salt) now)
        (λ t.
          IsStep-give exit (revoke_all_refresh_tokens user_id now) (λ t. "Password updated")
            (revoke_all_refresh_tokens-IsStep user_id now))
        s

  native_update_password-IsStep :
      (token : Token) (password salt : String) (now : Time)
      → IsStep exit (native_update_password app token password salt now)
  unfolding native_update_password
  native_update_password-IsStep token password salt now =
      IsStep-after exit (auth_store app)
        (λ t.
          try_result (decode_token app.jwt app.settings now token ("access" ∷ "recovery" ∷ []))
          >>= λ claims.
              try_result (uuid_claim "sub" claims) >>= change_password app claims password salt now)
        (auth_store-IsQuiet app)
        (λ t.
          try_result-IsStep exit
            (decode_token app.jwt app.settings now token ("access" ∷ "recovery" ∷ [])) _
            (λ claims.
              try_result-IsStep exit (uuid_claim "sub" claims) _
                (change_password-IsStep claims password salt now)))

  pub update_password-IsStep :
      (authorization : Option (Header Token)) (password salt : String) (now : Time)
      → IsStep (own_effect app.settings exit) (update_password app authorization password salt now)
  unfolding update_password
  update_password-IsStep authorization password salt now =
      try_result-IsStep (own_effect app.settings exit) (bearer_token app authorization) _ (λ token.
        IsStep-if exit idle (uses_native_store app.settings)
          (native_update_password app token password salt now)
          (call_hosted app (password_request app password token) >>= λ v. give "Password updated")
          (native_update_password-IsStep token password salt now)
          (hosted_way-IsStep (password_request app password token) "Password updated"))
