-- ===== src/Auth/Endpoints/Google.antt =====
-- `google_sign_in` of app/routers/auth.py: the account of a verified Google address, made where
-- there is none.
use urban_farming_backend.Prelude.{false, not, Option, none, some, String, if◌then◌else◌}
use urban_farming_backend.Json.{Json, Fields, str, null, end, field, get, is_truthy, json_or}
use urban_farming_backend.Db.{Result, ok, err, Error, app_error, attribute_error, value_error}
use urban_farming_backend.Db.Rows.{Time}
use urban_farming_backend.Auth.Store.{User, Op, ◌>>=◌, ◌>>◌, give, fail, try_result}
use urban_farming_backend.Auth.Store.Accounts.{
  NewUser, create_user, get_user_by_email, ensure_provisioned,
}
use urban_farming_backend.Auth.Upstream.{exchange_google_code, google_claims, auth_unavailable}
use urban_farming_backend.Auth.Sessions.{SignedIn, member_metadata, finish_login}
use urban_farming_backend.Auth.App.{App, uses_native_store, auth_store}
use urban_farming_backend.Auth.Endpoints.{ignoring}
use urban_farming_backend.Auth.Endpoints.Entry.{as_fields, get_or_null, welcome_to}

-- A validated `GoogleSignInRequest` holds one of the two.
pub data GoogleProof : Type 0 where
  code : String → String → GoogleProof
  id_token : String → GoogleProof

-- `claims.get("name")` where the database takes it as a text
abbrev pub name_param : Option Json → Result (Option String)
name_param none = ok none
name_param (some null) = ok none
name_param (some (str s)) = ok (some s)
name_param (some _) = err value_error

abbrev pub google_user : String → String → Fields → NewUser
google_user email role claims = record {
  email = email;
  password_hash = none;
  user_metadata =
      field "full_name" (get_or_null "name" claims) (field "role" (str role) (member_metadata end));
  app_metadata =
      field "provider" (str "google") (field "google_sub" (get_or_null "sub" claims) end);
}

abbrev pub unverified_email : Error
unverified_email = app_error 401 "unverified_email" null

-- `email`, which `lower` is called on
abbrev pub address_of : Option Json → Result String
address_of (some (str s)) = ok s
address_of _ = err attribute_error

abbrev pub verified_address : Fields → Result String
verified_address claims =
    if is_truthy (get "email" claims)
    then (if is_truthy (get "email_verified" claims)
        then address_of (get "email" claims)
        else err unverified_email)
    else err unverified_email

module _ {Token : Type 0} (app : App Token) where
  abbrev pub id_token_claims : Option Json → Result Fields
  id_token_claims o =
      if is_truthy o
      then google_claims app.settings (app.google_decode (app.py_str (json_or o null)))
      else err auth_unavailable

  unfoldable pub claims_of_proof : GoogleProof → Op Fields
  claims_of_proof (code c uri) =
      try_result (exchange_google_code app.py_str app.settings (app.google_exchange c uri)) >>= λ v.
      try_result (as_fields v) >>= λ d. try_result (id_token_claims (get "id_token" d))
  claims_of_proof (id_token t) = try_result (google_claims app.settings (app.google_decode t))

  unfoldable pub provision_google : String → String → Fields → User → Op User
  provision_google email role claims u = try_result (name_param (get "name" claims)) >>= λ name.
      ensure_provisioned u.id name role
      >> (ignoring (
            welcome_to app email (str (app.py_str (json_or (get "name" claims) (str "there")))) role
              false)
          >> give u)

  unfoldable pub register_google : String → String → Fields → Time → Op User
  register_google email role claims now =
      create_user (google_user email role claims) now >>= provision_google email role claims

  -- `if not user`
  unfoldable pub user_or_register : String → String → Fields → Time → Option User → Op User
  user_or_register email role claims now none = register_google email role claims now
  user_or_register email role claims now (some u) = give u

  unfoldable pub sign_in_google : String → Time → Fields → Op (SignedIn Token)
  sign_in_google role now claims = try_result (verified_address claims) >>= λ email.
      get_user_by_email email >>= λ found.
      user_or_register email role claims now found >>= finish_login app.jwt app.settings now

  unfoldable pub google_sign_in : GoogleProof → String → Time → Op (SignedIn Token)
  google_sign_in proof role now =
      if not (uses_native_store app.settings)
      then fail (app_error 501 "unsupported_auth_mode" null)
      else (auth_store app >> (claims_of_proof proof >>= sign_in_google role now))
