-- ===== src/Auth/Identity.antt =====
-- Who makes a request (app/core/security.py): `get_current_user` in each AUTH_MODE, and
-- `require_roles`. The hosted service, the identity provider's keys and, where the tables are not
-- those of the store, the reading of roles are parameters (App).
pub mod Laws
pub mod Kinds
use urban_farming_backend.Prelude.{
  ℕ, Bool, true, false, not, ◌&&◌, Option, none, some, String, List, [], ◌∷◌, any, leb, ltb, ◌==◌,
  if◌then◌else◌, sorted_set, lower, suc,
}
use Prim.Native.String
use Prim.Native.Char.{code}
use text.Mathlib.Text.{◌==◌ as str_eq}
use urban_farming_backend.Json.{Json, Fields, null, str, obj, end, get, json_or, as_dict}
use urban_farming_backend.Db.{Result, ok, err, Error, app_error, transport_error, value_error}
use urban_farming_backend.Db.Rows.{Uuid, Time}
use urban_farming_backend.Auth.Store.{Op, ◌>>=◌, ◌>>◌, give, fail, try_result, require, Store}
use urban_farming_backend.Auth.Store.Accounts.{user_roles}
use urban_farming_backend.Auth.Tokens.{
  AuthMode, text_or_empty, uuid_claim, read_uuid, invalid_token, decode_token,
}
use urban_farming_backend.Auth.Upstream.{Response, auth_unavailable, json_body}
use urban_farming_backend.Auth.App.{
  App, Header, missing_token, credentials_of, bearer_token, Outgoing,
}
use urban_farming_backend.Auth.Endpoints.Entry.{item, get_or_null}

-- `CurrentUser` (app/schemas/common.py): its roles are a set, listed in order.
pub record CurrentUser (Token : Type 0) : Type 0 where
  pub id : Uuid
  pub email : Option String
  pub roles : List String
  pub user_metadata : Fields
  -- `none` is the text "development"
  pub access_token : Option Token

-- `user.has_any_role(*roles)`
abbrev pub has_any_role : {Token : Type 0} → List String → CurrentUser Token → Bool
has_any_role allowed u = any (λ r. any (λ a. str_eq a r) allowed) u.roles

-- The dependency of `require_roles(*allowed_roles)`
unfoldable pub require_roles :
    {Token : Type 0} → List String → CurrentUser Token → Result (CurrentUser Token)
require_roles allowed u =
    if not (has_any_role allowed u) then err (app_error 403 "forbidden" null) else ok u

-- `set((x_user_role or "grower").split(","))` is given with its parts.
abbrev pub development_roles : Option (List String) → List String
development_roles none = "grower" ∷ []
development_roles (some parts) = sorted_set parts

abbrev pub is_success : ℕ → Bool
is_success n = leb 200 n && ltb n 300

module _ {Token : Type 0} (app : App Token) where
  -- The fields of `CurrentUser` as pydantic validates them; its `ValidationError` is a `ValueError`.
  abbrev pub checked_address : Option String → Result (Option String)
  checked_address none = err value_error
  checked_address (some e) = ok (some e)

  abbrev pub checked_email : Json → Result (Option String)
  checked_email null = ok none
  checked_email (str e) = checked_address (app.validate_email e)
  checked_email _ = err value_error

  abbrev pub checked_metadata : Json → Result Fields
  checked_metadata (obj d) = ok d
  checked_metadata _ = err value_error

  unfoldable pub user_of_claims : Token → Fields → Uuid → List String → Op (CurrentUser Token)
  user_of_claims token claims id roles =
      try_result (checked_email (get_or_null "email" claims)) >>= λ email.
      try_result (checked_metadata (json_or (get "user_metadata" claims) (obj end))) >>= λ metadata.
      give (record {
        id = id;
        email = email;
        roles = roles;
        user_metadata = metadata;
        access_token = some token;
      })

  -- `_native_user`
  unfoldable pub native_user : Token → Time → Op (CurrentUser Token)
  native_user token now =
      try_result (decode_token app.jwt app.settings now token ("access" ∷ [])) >>= λ claims.
      try_result (uuid_claim "sub" claims) >>= λ id.
      user_roles id >>= λ roles. user_of_claims token claims id roles

  abbrev pub user_call : Token → Outgoing Token
  user_call token = record {
    method = "GET";
    path = "user";
    json = null;
    params = null;
    token = some token;
  }

  abbrev pub supabase_response : Option Response → Result Json
  supabase_response none = err transport_error
  supabase_response (some r) =
      if r.status_code == 401
      then err invalid_token
      else (if is_success r.status_code then json_body r.body value_error else err auth_unavailable)

  -- `_supabase_user` over a gateway that is not the PostgreSQL one
  unfoldable pub supabase_user : Token → Op (CurrentUser Token)
  supabase_user token = try_result (supabase_response (app.hosted (user_call token))) >>= λ payload.
      try_result (item "id" payload) >>= λ v. try_result (read_uuid (some v)) >>= λ id.
      try_result (app.select_roles (app.text_of token) id) >>= λ roles.
      user_of_claims token (as_dict payload) id (sorted_set roles)

  -- `_oidc_user`, with what `jwt.decode` gives under the provider's keys
  unfoldable pub oidc_user : Token → Op (CurrentUser Token)
  oidc_user token =
      try_result (elim (app.oidc_decode token) [ none ↦ err invalid_token | some c ↦ ok c ])
      >>= λ claims. try_result (uuid_claim "sub" claims) >>= λ id.
          try_result (app.select_roles null id) >>= λ roles.
          user_of_claims token claims id (sorted_set roles)

  abbrev pub development_user : Option Json → Option (List String) → Op (CurrentUser Token)
  development_user none parts = fail (app_error 401 "missing_identity" null)
  development_user (some v) parts = try_result (read_uuid (some v)) >>= λ id. give (record {
    id = id;
    email = none;
    roles = development_roles parts;
    user_metadata = end;
    access_token = none;
  })

  -- A bearer header, or the headers that development mode takes in its place
  abbrev pub development_identity :
      Result Token → Option Json → Option (List String) → Time → Op (CurrentUser Token)
  development_identity (ok token) x_user_id x_user_role now = native_user token now
  development_identity (err e) x_user_id x_user_role now = development_user x_user_id x_user_role

  abbrev pub identity_in : AuthMode → Token → Time → Op (CurrentUser Token)
  identity_in AuthMode.supabase token now = supabase_user token
  identity_in AuthMode.native token now = native_user token now
  identity_in AuthMode.oidc token now = oidc_user token
  identity_in AuthMode.development token now = native_user token now

  unfoldable pub get_current_user :
      Option (Header Token) → Option Json → Option (List String) → Time → Op (CurrentUser Token)
  get_current_user authorization x_user_id x_user_role now = elim app.settings.auth_mode [
    | AuthMode.development ↦
        development_identity (bearer_token app authorization) x_user_id x_user_role now
    | mode ↦ try_result (bearer_token app authorization) >>= λ token. identity_in mode token now
  ]
