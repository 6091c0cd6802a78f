-- ===== src/Auth/Endpoints/Entry.antt =====
-- The endpoints by which a caller enters: `signup`, `login`, `refresh` and `google_sign_in` of
-- app/routers/auth.py.
use urban_farming_backend.Prelude.{
  Bool, false, not, Option, none, some, String, List, [], ◌∷◌, if◌then◌else◌,
}
use urban_farming_backend.Prelude.{sorted_set}
use text.Mathlib.Text.{◌==◌ as str_eq}
use urban_farming_backend.Json.{Json, Fields, str, null, obj, end, field, get, is_truthy}
use urban_farming_backend.Db.{Result, ok, err, attribute_error, key_error}
use urban_farming_backend.Db.Rows.{Time}
use urban_farming_backend.Auth.Store.{Op, ◌>>=◌, ◌>>◌, give, try_result, welcome}
use urban_farming_backend.Auth.Tokens.{read_uuid}
use urban_farming_backend.Auth.Sessions.{
  SignedIn, SignupRequest, signup_metadata, native_signup, native_login, native_refresh,
}
use urban_farming_backend.Auth.App.{App, Outgoing, uses_native_store, auth_store}
use urban_farming_backend.Auth.Endpoints.{call_hosted, redirect_params, ignoring, greeted}

-- What a sign-in endpoint answers: of the backend's own store, or of the hosted service
pub record Hosted : Type 0 where
  pub user : Json
  pub session : Json
  pub roles : List String

pub data Answer (Token : Type 0) : Type 0 where
  own : SignedIn Token → Answer Token
  hosted : Hosted → Answer Token

-- `value[k]`
abbrev pub item : String → Json → Result Json
item k (obj d) = elim (get k d) [ none ↦ err key_error | some v ↦ ok v ]
item k _ = err attribute_error

abbrev pub as_fields : Json → Result Fields
as_fields (obj d) = ok d
as_fields _ = err attribute_error

-- `data.pop(k, None)`
abbrev pub get_or_null : String → Fields → Json
get_or_null k d = elim (get k d) [ none ↦ null | some v ↦ v ]

abbrev pub without : String → Fields → Fields
without k end = end
without k (field j v d) = let rest = without k d in if str_eq j k then rest else field j v rest

module _ {Token : Type 0} (app : App Token) where
  -- `_load_roles(gateway, data["access_token"], user["id"])`
  abbrev pub load_roles : Json → Json → Op (List String)
  load_roles session user = try_result (item "access_token" session) >>= λ token.
      try_result (item "id" user) >>= λ id. try_result (read_uuid (some id)) >>= λ user_id.
      try_result (app.select_roles token user_id) >>= λ rows. give (sorted_set rows)

  abbrev pub signup_call : SignupRequest → Option String → Outgoing Token
  signup_call p redirect_to = record {
    method = "POST";
    path = "signup";
    json = obj (
        field "email" (str p.email)
          (field "password" (str p.password) (field "data" (obj (signup_metadata p)) end)));
    params = redirect_params redirect_to;
    token = none;
  }

  -- Without a session the address is still to be confirmed.
  abbrev pub hosted_signup_of : SignupRequest → Fields → Op Hosted
  hosted_signup_of p d =
      if is_truthy (get "access_token" d)
      then (load_roles (obj d) (get_or_null "user" d) >>= λ roles.
          give (record { user = get_or_null "user" d; session = obj d; roles = roles }))
      else give (record { user = obj d; session = null; roles = p.role ∷ [] })

  unfoldable pub hosted_signup : SignupRequest → Option String → Op Hosted
  hosted_signup p redirect_to = call_hosted app (signup_call p redirect_to) >>= λ v.
      try_result (as_fields v) >>= hosted_signup_of p

  abbrev pub is_unconfirmed : Answer Token → Bool
  is_unconfirmed (own r) = false
  is_unconfirmed (hosted h) = not (is_truthy (some h.session))

  unfoldable pub signup_answer : SignupRequest → Option String → String → Time → Op (Answer Token)
  signup_answer p redirect_to salt now =
      if uses_native_store app.settings
      then (auth_store app
          >> (native_signup app.jwt app.bcrypt app.settings p salt now >>= λ r. give (own r)))
      else (hosted_signup p redirect_to >>= λ h. give (hosted h))

  abbrev pub welcome_to : String → Json → String → Bool → Result (Unit {0})
  welcome_to email name role confirmation = elim (greeted name) [
    | ok n ↦ app.deliver email (welcome n role app.app_url confirmation)
    | err e ↦ err e
  ]

  unfoldable pub signup : SignupRequest → Option String → String → Time → Op (Answer Token)
  signup p redirect_to salt now = signup_answer p redirect_to salt now >>= λ r.
      ignoring (welcome_to p.email (str p.full_name) p.role (is_unconfirmed r)) >> give r

  abbrev pub token_call : String → Fields → Outgoing Token
  token_call grant_type payload = record {
    method = "POST";
    path = "token";
    json = obj payload;
    params = obj (field "grant_type" (str grant_type) end);
    token = none;
  }

  abbrev pub roles_unless_anonymous : Fields → Json → Op (List String)
  roles_unless_anonymous d user =
      if is_truthy (some user) then load_roles (obj (without "user" d)) user else give []

  unfoldable pub hosted_session : Outgoing Token → Op Hosted
  hosted_session call = call_hosted app call >>= λ v. try_result (as_fields v) >>= λ d.
      roles_unless_anonymous d (get_or_null "user" d) >>= λ roles.
      give (record { user = get_or_null "user" d; session = obj (without "user" d); roles = roles })

  unfoldable pub login : String → String → Time → Op (Answer Token)
  login email password now =
      if uses_native_store app.settings
      then (auth_store app
          >> (native_login app.jwt app.bcrypt app.settings email password now >>= λ r.
              give (own r)))
      else (hosted_session (
            token_call "password" (field "email" (str email) (field "password" (str password) end)))
          >>= λ h. give (hosted h))

  -- The token, and its text as the hosted service takes it
  unfoldable pub refresh : Token → String → Time → Op (Answer Token)
  refresh token text_of_token now =
      if uses_native_store app.settings
      then (auth_store app >> (native_refresh app.jwt app.settings token now >>= λ r. give (own r)))
      else (hosted_session
            (token_call "refresh_token" (field "refresh_token" (str text_of_token) end))
          >>= λ h. give (hosted h))
