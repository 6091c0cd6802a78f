-- ===== src/Auth/Tokens.antt =====
-- The signed tokens (app/core/tokens.py) over PyJWT, and the passwords' hashes
-- (`_hash_password` and `_verify_password` of app/routers/auth.py) over bcrypt. Both libraries are
-- parameters, with what they document as hypotheses; instants are in microseconds.
pub mod Laws
use text.Mathlib.Text.{◌==◌ as str_eq}
use urban_farming_backend.Prelude.{
  ℕ, ◌+◌, ◌*◌, ◌≤◌, ◌≡◌, ◌≢◌, Bool, true, false, Option, none, some, String, List, [], ◌∷◌, any,
  if◌then◌else◌,
}
use urban_farming_backend.Json.{Json, Fields, str, uuid, stamp, obj, end, field, get, opt_text}
use urban_farming_backend.Db.{Result, ok, err, Error, app_error, value_error, key_error}
use urban_farming_backend.Json.{null}
use urban_farming_backend.Db.Rows.{Uuid, Time}
use urban_farming_backend.Auth.Store.{Op, ◌>>=◌, give, uuid4}

pub data AuthMode : Type 0 where
  supabase oidc native development : AuthMode

pub data DataBackend : Type 0 where
  supabase postgres : DataBackend

-- The settings that authentication reads (`Settings` of app/core/config.py).
pub record Settings : Type 0 where
  pub data_backend : DataBackend
  pub auth_mode : AuthMode
  pub jwt_secret : Option String
  pub jwt_issuer : String
  pub jwt_audience : String
  pub access_token_ttl_seconds : ℕ
  pub refresh_token_ttl_seconds : ℕ
  pub google_client_id : Option String
  pub google_client_secret : Option String

-- PyJWT with the algorithm HS256: `encode claims secret`, `decode now token secret audience issuer`,
-- which is `none` where it raises, and `strip` of the text of a token.
pub record Jwt (Token : Type 0) : Type 0 where
  pub encode : Fields → String → Token
  pub decode : Time → Token → String → String → String → Option Fields
  pub strip_token : Token → Token

abbrev pub second : ℕ
second = 1000000

-- The decoded claims are those that were encoded; the instants come back in whole seconds.
abbrev pub IsDecoded : Fields → Fields → Type 0
IsDecoded c d = (k : String) → k ≢ "iat" → k ≢ "exp" → get k d ≡ get k c

-- `sub` and `jti` are texts where they are there; a UUID is written as its text.
abbrev pub is_text_claim : Option Json → Bool
is_text_claim none = true
is_text_claim (some (str s)) = true
is_text_claim (some (uuid i)) = true
is_text_claim _ = false

-- What PyJWT documents: a token without a time before which it is not valid, whose subject and
-- identifier are texts, is accepted under the secret, the audience and the issuer that it was made
-- with, from the moment of issue up to its expiry; and a token has one content.
pub record IsJwt {Token : Type 0} (jwt : Jwt Token) : Type 0 where
  pub decode-encode :
      (c : Fields) (secret audience issuer : String) (now iat exp : Time)
      → get "iss" c ≡ some (str issuer)
      → get "aud" c ≡ some (str audience)
      → get "iat" c ≡ some (stamp iat)
      → get "exp" c ≡ some (stamp exp)
      → get "nbf" c ≡ none
      → is_text_claim (get "sub" c) ≡ true
      → is_text_claim (get "jti" c) ≡ true
      → iat ≤ now
      → now + second ≤ exp
      → jwt.decode now (jwt.encode c secret) secret audience issuer ≢ none
  pub decode_content :
      (c d : Fields) (secret other audience issuer : String) (now : Time)
      → jwt.decode now (jwt.encode c secret) other audience issuer ≡ some d
      → IsDecoded c d
  pub decode_stable :
      (now later : Time) (t : Token) (secret audience issuer : String) (c d : Fields)
      → jwt.decode now t secret audience issuer ≡ some c
      → jwt.decode later t secret audience issuer ≡ some d
      → c ≡ d
  pub strip_token-encode :
      (c : Fields) (secret : String) → jwt.strip_token (jwt.encode c secret) ≡ jwt.encode c secret

-- `bcrypt.hashpw` with a salt, and `bcrypt.checkpw`, which is `none` where it raises `ValueError`.
pub record Bcrypt : Type 0 where
  pub hashpw : String → String → String
  pub checkpw : String → String → Option Bool

-- What bcrypt documents: a password passes the check against its own hash.
pub record IsBcrypt (bcrypt : Bcrypt) : Type 0 where
  pub checkpw-hashpw : (p salt : String) → bcrypt.checkpw p (bcrypt.hashpw p salt) ≡ some true
  pub hashpw_some : (p salt : String) → str_eq (bcrypt.hashpw p salt) "" ≡ false

abbrev pub text_or_empty : Option String → String
text_or_empty none = ""
text_or_empty (some s) = s

abbrev pub verified : Option Bool → Bool
verified none = false
verified (some b) = b

-- `_verify_password`
unfoldable pub verify_password : Bcrypt → String → Option String → Bool
verify_password bcrypt password none = false
verify_password bcrypt password (some hash) =
    if str_eq hash "" then false else verified (bcrypt.checkpw password hash)

-- The 401 of `decode_token` and of its callers.
abbrev pub invalid_token : Error
invalid_token = app_error 401 "invalid_token" null

abbrev pub is_text : Option Json → String → Bool
is_text (some (str s)) t = str_eq s t
is_text _ t = false

-- `not expected_types or claims.get("type") in expected_types`
abbrev pub is_expected : List String → Fields → Bool
is_expected [] c = true
is_expected (t ∷ ts) c = any (is_text (get "type" c)) (t ∷ ts)

abbrev pub of_type : List String → Option Fields → Result Fields
of_type expected none = err invalid_token
of_type expected (some c) = if is_expected expected c then ok c else err invalid_token

-- `UUID(str(claims[k]))`
abbrev pub read_uuid : Option Json → Result Uuid
read_uuid none = err key_error
read_uuid (some (uuid i)) = ok i
read_uuid (some _) = err value_error

abbrev pub uuid_claim : String → Fields → Result Uuid
uuid_claim k c = read_uuid (get k c)

module _ (settings : Settings) where
  abbrev pub secret : String
  secret = text_or_empty settings.jwt_secret

  abbrev pub access_claims : Uuid → Option String → Fields → Time → Fields
  access_claims user_id email metadata now = field "iss" (str settings.jwt_issuer) (
      field "aud" (str settings.jwt_audience) (
        field "sub" (uuid user_id) (
          field "email" (opt_text email) (
            field "user_metadata" (obj metadata) (
              field "type" (str "access") (
                field "iat" (stamp now)
                  (field "exp" (stamp (now + settings.access_token_ttl_seconds * second)) end)))))))

  abbrev pub refresh_expiry : Time → Time
  refresh_expiry now = now + settings.refresh_token_ttl_seconds * second

  abbrev pub refresh_claims : Uuid → Uuid → Time → Fields
  refresh_claims user_id token_id now = field "iss" (str settings.jwt_issuer) (
      field "aud" (str settings.jwt_audience) (
        field "sub" (uuid user_id) (
          field "jti" (uuid token_id) (
            field "type" (str "refresh")
              (field "iat" (stamp now) (field "exp" (stamp (refresh_expiry now)) end))))))

  abbrev pub recovery_claims : Uuid → Option String → Time → Fields
  recovery_claims user_id email now = field "iss" (str settings.jwt_issuer) (
      field "aud" (str settings.jwt_audience) (
        field "sub" (uuid user_id) (
          field "email" (opt_text email) (
            field "type" (str "recovery")
              (field "iat" (stamp now) (field "exp" (stamp (now + 30 * 60 * second)) end))))))

module _ {Token : Type 0} (jwt : Jwt Token) (settings : Settings) where
  abbrev pub mint_access_token : Uuid → Option String → Fields → Time → Token × ℕ
  mint_access_token user_id email metadata now = (
    jwt.encode (access_claims settings user_id email metadata now) (secret settings),
    settings.access_token_ttl_seconds,
  )

  abbrev pub mint_refresh_token : Uuid → Time → Op (Token × Uuid × Time)
  mint_refresh_token user_id now = uuid4 >>= λ token_id. give (
    jwt.encode (refresh_claims settings user_id token_id now) (secret settings),
    token_id,
    refresh_expiry settings now,
  )

  abbrev pub mint_recovery_token : Uuid → Option String → Time → Token
  mint_recovery_token user_id email now =
      jwt.encode (recovery_claims settings user_id email now) (secret settings)

  unfoldable pub decode_token : Time → Token → List String → Result Fields
  decode_token now token expected =
      of_type expected
        (jwt.decode now token (secret settings) settings.jwt_audience settings.jwt_issuer)
