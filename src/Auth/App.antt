-- ===== src/Auth/App.antt =====
-- What the endpoints of app/routers/auth.py find in `request.app.state`, each part of it a parameter:
-- the libraries, the settings, the mailer and the hosted service; and the header of a request.
use urban_farming_backend.Prelude.{
  Bool, ◌&&◌, Option, none, some, String, List, if◌then◌else◌, lower,
}
use text.Mathlib.Text.{◌==◌ as str_eq}
use urban_farming_backend.Json.{Json, Fields, null}
use urban_farming_backend.Db.{Result, ok, err, Error, app_error}
use urban_farming_backend.Db.Rows.{Uuid}
use urban_farming_backend.Auth.Store.{Op, fail, give, Letter}
use urban_farming_backend.Auth.Tokens.{AuthMode, DataBackend, Settings, Jwt, Bcrypt}
use urban_farming_backend.Auth.Upstream.{Response}

-- A request to the hosted service
pub record Outgoing (Token : Type 0) : Type 0 where
  pub method : String
  pub path : String
  pub json : Json
  pub params : Json
  pub token : Option Token

pub record App (Token : Type 0) : Type 0 where
  pub jwt : Jwt Token
  pub bcrypt : Bcrypt
  pub settings : Settings
  -- `settings.app_base_url.rstrip("/")`
  pub app_url : String
  -- whether `app.state.auth_store` is there
  pub has_store : Bool
  -- `app.state.email.send`, to an address
  pub deliver : String → Letter Token → Result (Unit {0})
  -- the response of the hosted service
  pub hosted : Outgoing Token → Option Response
  -- the address that pydantic's `EmailStr` makes of a text, which is `none` where it raises
  pub validate_email : String → Option String
  -- the response of Google to a code and a redirect URI, and `jwt.decode` under Google's keys
  pub google_exchange : String → String → Option Response
  pub google_decode : String → Option Fields
  -- `gateway.select("user_roles", ...)` with a token of the hosted service
  pub select_roles : Json → Uuid → Result (List String)
  -- `jwt.decode` under the keys of an identity provider, and the text of a token
  pub oidc_decode : Token → Option Fields
  pub text_of : Token → Json
  pub py_str : Json → String

abbrev pub is_native_mode : AuthMode → Bool
is_native_mode AuthMode.supabase = Bool.false
is_native_mode AuthMode.oidc = Bool.false
is_native_mode AuthMode.native = Bool.true
is_native_mode AuthMode.development = Bool.true

abbrev pub is_postgres : DataBackend → Bool
is_postgres DataBackend.supabase = Bool.false
is_postgres DataBackend.postgres = Bool.true

abbrev pub uses_native_store : Settings → Bool
uses_native_store s = is_native_mode s.auth_mode && is_postgres s.data_backend

-- The text of an `Authorization` header, split at its first space
pub record Header (Token : Type 0) : Type 0 where
  pub scheme : String
  pub credentials : Option Token

abbrev pub missing_token : Error
missing_token = app_error 401 "missing_token" null

module _ {Token : Type 0} (app : App Token) where
  -- `_auth_store(request)`
  abbrev pub auth_store : Op (Unit {0})
  auth_store = if app.has_store then give tt else fail (app_error 501 "unsupported_auth_mode" null)

  abbrev pub credentials_of : String → Option Token → Result Token
  credentials_of scheme none = err missing_token
  credentials_of scheme (some t) =
      if str_eq (lower scheme) "bearer" then ok (app.jwt.strip_token t) else err missing_token

  -- `_bearer_token(authorization)`
  abbrev pub bearer_token : Option (Header Token) → Result Token
  bearer_token none = err missing_token
  bearer_token (some h) = credentials_of h.scheme h.credentials
