-- ===== src/Auth/Endpoints.antt =====
-- The endpoints that change an account or end its sessions: `logout`, `password_reset` and
-- `update_password` of app/routers/auth.py, with the hosted service where the backend is not its own.
pub mod Laws
pub mod Entry
pub mod Google
use urban_farming_backend.Prelude.{
  Bool, true, false, Option, none, some, String, List, [], ◌∷◌, if◌then◌else◌, strip, contains_code,
  ◌==◌,
}
use Prim.Native.String
use text.Mathlib.Text.{◌==◌ as str_eq}
use urban_farming_backend.Json.{
  Json, Fields, str, null, obj, end, field, get, get_default, json_or, opt_text,
}
use urban_farming_backend.Db.{Result, ok, err, Error, app_error, attribute_error}
use urban_farming_backend.Db.Rows.{Uuid, Time}
use urban_farming_backend.Auth.Store.{
  User, ResetUrl, link, bare, Letter, password_changed, password_reset, Op, ◌>>=◌, ◌>>◌, give, fail,
  try_result,
}
use urban_farming_backend.Auth.Store.Accounts.{get_user_by_email, get_user_by_id, set_password}
use urban_farming_backend.Auth.Store.Tokens.{revoke_all_refresh_tokens}
use urban_farming_backend.Auth.Tokens.{uuid_claim, mint_recovery_token, decode_token, text_or_empty}
use urban_farming_backend.Auth.Upstream.{gotrue}
use urban_farming_backend.Auth.App.{
  App, Outgoing, Header, uses_native_store, auth_store, bearer_token,
}

-- `name.strip() or "there"`
abbrev pub greeting : String → String
greeting s = if str_eq (strip s) "" then "there" else strip s

-- The same of a JSON value: one that is no text has no `strip`.
abbrev pub greeted : Json → Result String
greeted (str s) = ok (greeting s)
greeted _ = err attribute_error

-- `metadata.get("full_name", "there")`
abbrev pub full_name_of : Fields → Json
full_name_of d = get_default "full_name" d (str "there")

abbrev pub metadata_of : Option User → Fields
metadata_of none = end
metadata_of (some u) = u.raw_user_meta_data

abbrev pub email_of : Option User → Json
email_of none = null
email_of (some u) = opt_text u.email

-- `f"{redirect_to}{separator}token={token}&type=recovery"`, or the token alone
abbrev pub reset_url : {Token : Type 0} → Option String → Token → ResetUrl Token
reset_url none t = bare t
reset_url (some url) t =
    link (Prim.Native.String.◌++◌ url (if contains_code 63 url then "&" else "?")) t

-- `{"redirect_to": ...} if redirect_to else None`
abbrev pub redirect_params : Option String → Json
redirect_params none = null
redirect_params (some url) = obj (field "redirect_to" (str url) end)

-- `except Exception`
abbrev pub ignoring : {A : Type 0} → Result A → Op (Unit {0})
ignoring x = give tt

-- `except AppError as error: if error.status_code in {429, 502}: raise`
abbrev pub only_unavailable : Result Json → Op (Unit {0})
only_unavailable (ok v) = give tt
only_unavailable (err (app_error n code d)) =
    if n == 429
    then fail (app_error n code d)
    else (if n == 502 then fail (app_error n code d) else give tt)
only_unavailable (err e) = fail e

-- A `MessageResponse`, by its text
abbrev pub Message : Type 0
Message = String

module _ {Token : Type 0} (app : App Token) where
  abbrev pub call_hosted : Outgoing Token → Op Json
  call_hosted r = try_result (gotrue app.py_str app.settings (app.hosted r))

  unfoldable pub native_logout : Token → Time → Op Message
  native_logout token now =
      try_result (decode_token app.jwt app.settings now token ("access" ∷ [])) >>= λ claims.
      auth_store app
      >> (try_result (uuid_claim "sub" claims) >>= λ user_id.
          revoke_all_refresh_tokens user_id now >> give "Signed out")

  abbrev pub logout_request : String → Token → Outgoing Token
  logout_request scope token = record {
    method = "POST";
    path = "logout";
    json = null;
    params = obj (field "scope" (str scope) end);
    token = some token;
  }

  unfoldable pub logout : String → Option (Header Token) → Time → Op Message
  logout scope authorization now = try_result (bearer_token app authorization) >>= λ token.
      if uses_native_store app.settings
      then native_logout token now
      else (call_hosted (logout_request scope token) >>= λ v. give "Signed out")

  -- The message that `password_reset` gives whether the account is there or not
  abbrev pub generic : Message
  generic = "If the email exists, a reset link has been sent"

  unfoldable pub reset_letter : Option String → User → Time → Result (Letter Token)
  reset_letter redirect_to u now = elim (greeted (full_name_of u.raw_user_meta_data)) [
    | ok name ↦ ok (
        password_reset name
          (reset_url redirect_to (mint_recovery_token app.jwt app.settings u.id u.email now)))
    | err e ↦ err e
  ]

  -- `str(user["email"])` is the address of an account that was found by it.
  unfoldable pub send_reset : Option String → Time → Option User → Op Message
  send_reset redirect_to now none = give generic
  send_reset redirect_to now (some u) = try_result (reset_letter redirect_to u now) >>= λ letter.
      try_result (app.deliver (text_or_empty u.email) letter) >> give generic

  unfoldable pub native_password_reset : String → Option String → Time → Op Message
  native_password_reset email redirect_to now =
      auth_store app >> (get_user_by_email email >>= send_reset redirect_to now)

  abbrev pub recover_request : String → Option String → Outgoing Token
  recover_request email redirect_to = record {
    method = "POST";
    path = "recover";
    json = obj (field "email" (str email) end);
    params = redirect_params redirect_to;
    token = none;
  }

  unfoldable pub request_password_reset : String → Option String → Time → Op Message
  request_password_reset email redirect_to now =
      if uses_native_store app.settings
      then native_password_reset email redirect_to now
      else (only_unavailable
            (gotrue app.py_str app.settings (app.hosted (recover_request email redirect_to)))
          >> give generic)

  -- The mail that follows a change of the password: the address is the account's, or the token's.
  abbrev pub changed_letter : Fields → Json → Result (Unit {0})
  changed_letter metadata email = elim (greeted (full_name_of metadata)) [
    | ok name ↦ app.deliver (app.py_str email) (password_changed name app.app_url)
    | err e ↦ err e
  ]

  unfoldable pub change_password : Fields → String → String → Time → Uuid → Op Message
  change_password claims password salt now user_id =
      set_password user_id (app.bcrypt.hashpw password salt) now
      >> (revoke_all_refresh_tokens user_id now
          >> (get_user_by_id user_id >>= λ user.
              ignoring (
                changed_letter (metadata_of user)
                  (json_or (some (email_of user)) (json_or (get "email" claims) (str ""))))
              >> give "Password updated"))

  unfoldable pub native_update_password : Token → String → String → Time → Op Message
  native_update_password token password salt now =
      auth_store app
      >> (try_result (decode_token app.jwt app.settings now token ("access" ∷ "recovery" ∷ []))
          >>= λ claims.
              try_result (uuid_claim "sub" claims) >>= change_password claims password salt now)

  abbrev pub password_request : String → Token → Outgoing Token
  password_request password token = record {
    method = "PUT";
    path = "user";
    json = obj (field "password" (str password) end);
    params = null;
    token = some token;
  }

  unfoldable pub update_password : Option (Header Token) → String → String → Time → Op Message
  update_password authorization password salt now =
      try_result (bearer_token app authorization) >>= λ token.
      if uses_native_store app.settings
      then native_update_password token password salt now
      else (call_hosted (password_request password token) >>= λ v. give "Password updated")
