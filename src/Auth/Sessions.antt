-- ===== src/Auth/Sessions.antt =====
-- The endpoints of AUTH_MODE=native (app/routers/auth.py): `_native_session`, `_native_signup`,
-- `_native_login` and `_native_refresh`. A request is handled at one instant.
pub mod Rotation
pub mod Login
pub mod Race
use urban_farming_backend.Prelude.{
  ℕ, Bool, true, false, not, Option, none, some, String, List, [], ◌∷◌, if◌then◌else◌,
}
use urban_farming_backend.Json.{Fields, str, bool, end, field}
use urban_farming_backend.Db.{Result, ok, err, Error, app_error}
use urban_farming_backend.Json.{null}
use urban_farming_backend.Db.Rows.{Uuid, Time}
use urban_farming_backend.Auth.Store.{User, Op, ◌>>=◌, ◌>>◌, give, fail, try_result, require}
use urban_farming_backend.Auth.Store.Accounts.{
  NewUser, create_user, get_user_by_email, get_user_by_id, touch_last_sign_in, user_roles,
  ensure_provisioned,
}
use urban_farming_backend.Auth.Store.Tokens.{
  store_refresh_token, is_refresh_token_active, revoke_refresh_token,
}
use urban_farming_backend.Auth.Tokens.{
  Settings, Jwt, Bcrypt, verify_password, invalid_token, uuid_claim, mint_access_token,
  mint_refresh_token, decode_token,
}

-- The dictionary of `_public_user`
pub record PublicUser : Type 0 where
  pub id : Uuid
  pub email : Option String
  pub user_metadata : Fields
  pub created_at : Option Time

abbrev pub public_user : User → PublicUser
public_user u = record {
  id = u.id;
  email = u.email;
  user_metadata = u.raw_user_meta_data;
  created_at = some u.created_at;
}

-- The dictionary of `_native_session`
pub record Session (Token : Type 0) : Type 0 where
  pub access_token : Token
  pub token_type : String
  pub expires_in : ℕ
  pub refresh_token : Token

pub record SignedIn (Token : Type 0) : Type 0 where
  pub user : PublicUser
  pub session : Session Token
  pub roles : List String

pub record SignupRequest : Type 0 where
  pub email : String
  pub password : String
  pub full_name : String
  pub role : String

abbrev pub member_metadata : Fields → Fields
member_metadata d = field "founding_member" (bool true) (
    field "member_badge" (str "Founding Member") (
      field "beginner_guide_unlocked" (bool true)
        (field "priority_workshop_access" (bool true) (field "giveaway_entry" (bool true) d))))

abbrev pub signup_metadata : SignupRequest → Fields
signup_metadata p =
    field "full_name" (str p.full_name) (field "role" (str p.role) (member_metadata end))

-- `metadata or default`
abbrev pub fields_or : Fields → Fields → Fields
fields_or end d = d
fields_or (field k v f) d = field k v f

-- `roles or [role]`
abbrev pub roles_or : List String → String → List String
roles_or [] r = r ∷ []
roles_or (s ∷ ss) r = s ∷ ss

abbrev pub invalid_credentials : Error
invalid_credentials = app_error 401 "invalid_credentials" null

abbrev pub hash_of : Option User → Option String
hash_of none = none
hash_of (some u) = u.encrypted_password

module _ {Token : Type 0} (jwt : Jwt Token) (settings : Settings) where
  abbrev pub session_of : Uuid → Option String → Fields → Time → Token → Session Token
  session_of user_id email metadata now refresh_token = record {
    access_token = (mint_access_token jwt settings user_id email metadata now).0;
    token_type = "bearer";
    expires_in = (mint_access_token jwt settings user_id email metadata now).1;
    refresh_token = refresh_token;
  }

  unfoldable pub native_session : Uuid → Option String → Fields → Time → Op (Session Token)
  native_session user_id email metadata now =
      mint_refresh_token jwt settings user_id now >>= λ minted.
      store_refresh_token minted.1 user_id minted.2
      >> give (session_of user_id email metadata now minted.0)

  -- The session of an account, and what the sign-in endpoints answer
  unfoldable pub sign_in : User → List String → Time → Op (SignedIn Token)
  sign_in u roles now = native_session u.id u.email u.raw_user_meta_data now >>= λ session.
      give (record { user = public_user u; session = session; roles = roles })

  unfoldable pub finish_signup : SignupRequest → Time → User → Op (SignedIn Token)
  finish_signup p now u =
      ensure_provisioned u.id (some p.full_name) p.role
      >> (user_roles u.id >>= λ roles.
          native_session u.id u.email (fields_or u.raw_user_meta_data (signup_metadata p)) now
          >>= λ session.
              give
                (record { user = public_user u; session = session; roles = roles_or roles p.role }))

  unfoldable pub finish_login : Time → User → Op (SignedIn Token)
  finish_login now u =
      touch_last_sign_in u.id now >> (user_roles u.id >>= λ roles. sign_in u roles now)

  -- `if not user or not valid: raise`
  unfoldable pub admit : Time → Option User → Bool → Op (SignedIn Token)
  admit now none valid = fail invalid_credentials
  admit now (some u) valid = if valid then finish_login now u else fail invalid_credentials

  -- The reads of `_native_refresh`, up to its first write: the account and the token's id
  unfoldable pub refresh_check : Token → Time → Op (User × Uuid)
  refresh_check token now =
      try_result (decode_token jwt settings now token ("refresh" ∷ [])) >>= λ claims.
      try_result (uuid_claim "jti" claims) >>= λ token_id.
      try_result (uuid_claim "sub" claims) >>= λ user_id.
      is_refresh_token_active token_id now >>= λ active.
      if not active
      then fail invalid_token
      else (get_user_by_id user_id >>= λ user.
          require user invalid_token >>= λ u. give (u, token_id))

  -- The rest of `_native_refresh`
  unfoldable pub refresh_issue : Time → User × Uuid → Op (SignedIn Token)
  refresh_issue now (u, token_id) =
      revoke_refresh_token token_id now >> (user_roles u.id >>= λ roles. sign_in u roles now)

  unfoldable pub native_refresh : Token → Time → Op (SignedIn Token)
  native_refresh token now = refresh_check token now >>= refresh_issue now

abbrev pub signup_user : Bcrypt → SignupRequest → String → NewUser
signup_user bcrypt p salt = record {
  email = p.email;
  password_hash = some (bcrypt.hashpw p.password salt);
  user_metadata = signup_metadata p;
  app_metadata = end;
}

module _ {Token : Type 0} (jwt : Jwt Token) (bcrypt : Bcrypt) (settings : Settings) where
  unfoldable pub native_signup : SignupRequest → String → Time → Op (SignedIn Token)
  native_signup p salt now =
      create_user (signup_user bcrypt p salt) now >>= finish_signup jwt settings p now

  unfoldable pub native_login : String → String → Time → Op (SignedIn Token)
  native_login email password now = get_user_by_email email >>= λ user.
      admit jwt settings now user (verify_password bcrypt password (hash_of user))
