-- ===== src/Auth/Tests.antt =====
-- Libraries and stores that authentication can run on.
mod Sessions
mod Accounts
use text.Mathlib.Text.{◌==◌ as str_eq}
use text.Mathlib.TextEquality.{eq_iff}
use Prim.Native.String
use urban_farming_backend.Prelude.{
  ℕ, ◌+◌, ◌≤◌, ◌≡◌, refl, Bool-cases, inl, inr, ap, sym, ◌∙◌, Bool, true, false, ◌&&◌, Option, none,
  some, String, List, [], ◌∷◌, arith, leb, ltb, if◌then◌else◌,
}
use urban_farming_backend.Json.{Json, Fields, stamp, str, null, get, end, field}
use urban_farming_backend.Db.{Result, ok, err, app_error}
use urban_farming_backend.Db.Rows.{Time}
use urban_farming_backend.Auth.Store.{User, RefreshToken, Store}
use urban_farming_backend.Auth.Tokens.{
  AuthMode, DataBackend, Settings, Jwt, IsJwt, Bcrypt, IsBcrypt, is_text,
}
use urban_farming_backend.Auth.App.{App}

-- A token is its claims and its secret.
abbrev pub Token : Type 0
Token = Fields × String

abbrev pub is_issued : Option Json → Time → Bool
is_issued (some (stamp t)) now = leb t now
is_issued _ now = false

abbrev pub is_before : Option Json → Time → Bool
is_before (some (stamp t)) now = ltb now t
is_before _ now = false

abbrev pub accepts : Time → Token → String → String → String → Bool
accepts now (c, s) secret audience issuer =
    str_eq s secret
    && is_text (get "iss" c) issuer
    && is_text (get "aud" c) audience
    && is_issued (get "iat" c) now
    && is_before (get "exp" c) now

abbrev pub jwt : Jwt Token
jwt = record {
  encode = λ c s. (c, s);
  decode = λ now t secret audience issuer.
      if accepts now t secret audience issuer then some t.0 else none;
  strip_token = λ t. t;
}

accepted-content : (b : Bool) (c d : Fields) → (if b then some c else none) ≡ some d → d ≡ c
accepted-content true c d h = cc
accepted-content false c d h = cc

pub jwt-IsJwt : IsJwt jwt
jwt-IsJwt = record {
  decode-encode =
      λ c secret audience issuer now iat exp iss aud issued expires nbf sub jti after before h.
        ground (
          arith,
          iss,
          aud,
          issued,
          expires,
          after,
          before,
          h,
          eq_iff secret secret,
          eq_iff issuer issuer,
          eq_iff audience audience,
        );
  decode_content =
      λ c d secret other audience issuer now h k n m. ap (get k) (accepted-content _ c d h);
  decode_stable = λ now later t secret audience issuer c d h k.
      accepted-content _ t.0 c h ∙ sym (accepted-content _ t.0 d k);
  strip_token-encode = λ c secret. refl;
}

abbrev pub bcrypt : Bcrypt
bcrypt = record {
  hashpw = λ p salt. Prim.Native.String.◌∷◌ "h" p;
  checkpw = λ p h. some (str_eq h (Prim.Native.String.◌∷◌ "h" p));
}

is_no_empty : (p : String) → str_eq (Prim.Native.String.◌∷◌ "h" p) "" ≡ false
is_no_empty p = elim (Bool-cases (str_eq (Prim.Native.String.◌∷◌ "h" p) "")) [
  | inl e ↦ let q = (eq_iff (Prim.Native.String.◌∷◌ "h" p) "").0 e in cc
  | inr e ↦ e
]

pub bcrypt-IsBcrypt : IsBcrypt bcrypt
bcrypt-IsBcrypt = record {
  checkpw-hashpw = λ p salt.
      ground (arith, eq_iff (Prim.Native.String.◌∷◌ "h" p) (Prim.Native.String.◌∷◌ "h" p));
  hashpw_some = λ p salt. is_no_empty p;
}

abbrev pub settings : Settings
settings = record {
  data_backend = DataBackend.postgres;
  auth_mode = AuthMode.native;
  jwt_secret = some "s";
  jwt_issuer = "i";
  jwt_audience = "a";
  access_token_ttl_seconds = 10;
  refresh_token_ttl_seconds = 100;
  google_client_id = none;
  google_client_secret = none;
}

-- A backend whose mailer gives `mailed`
abbrev pub app_with : Result (Unit {0}) → App Token
app_with mailed = record {
  jwt = jwt;
  bcrypt = bcrypt;
  settings = settings;
  app_url = "u";
  has_store = true;
  deliver = λ to letter. mailed;
  hosted = λ r. none;
  validate_email = λ e. some e;
  google_exchange = λ c u. none;
  google_decode = λ t. none;
  select_roles = λ t i. ok [];
  oidc_decode = λ t. none;
  text_of = λ t. null;
  py_str = λ v. "";
}

abbrev pub user : Fields → User
user metadata = record {
  id = 1;
  email = some "a@b.c";
  encrypted_password = some "hx";
  raw_app_meta_data = end;
  raw_user_meta_data = metadata;
  email_confirmed_at = none;
  last_sign_in_at = none;
  created_at = 0;
  updated_at = 0;
}

abbrev pub store : Fields → Store
store metadata = record {
  users = user metadata ∷ [];
  refresh_tokens = record { id = 2; user_id = 1; expires_at = 200000000; revoked_at = none } ∷ [];
  profiles = [];
  user_roles = record { user_id = 1; role = "grower" } ∷ [];
  grower_stats = [];
  user_settings = [];
  inspectors = [];
  next_id = 3;
}
