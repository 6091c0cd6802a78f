-- ===== src/Auth/Store.antt =====
-- The tables that `NativeAuthStore` (app/infrastructure/auth_store.py) reads and writes, as the
-- declarations of `REFRESH_TOKENS_DDL` and its statements name them, and operations on them. Each
-- operation is a transaction of its own, so what was written stays where a later one raises. The
-- database is one that has no `handle_new_user` trigger, which `ensure_provisioned` is there for.
pub mod Accounts
pub mod Tokens
pub mod Laws
pub mod Views
pub mod Steps
pub mod Provision
use urban_farming_backend.Prelude.{ℕ, suc, Bool, Option, none, some, String, List, [], ◌∷◌, ◌++◌}
use urban_farming_backend.Json.{Fields}
use urban_farming_backend.Db.{Result, ok, err, Error}
use urban_farming_backend.Db.Rows.{Uuid, Time}

-- `auth.users`
pub record User : Type 0 where
  pub id : Uuid
  pub email : Option String
  pub encrypted_password : Option String
  pub raw_app_meta_data : Fields
  pub raw_user_meta_data : Fields
  pub email_confirmed_at : Option Time
  pub last_sign_in_at : Option Time
  pub created_at : Time
  pub updated_at : Time

-- `auth.refresh_tokens`
pub record RefreshToken : Type 0 where
  pub id : Uuid
  pub user_id : Uuid
  pub expires_at : Time
  pub revoked_at : Option Time

pub record Profile : Type 0 where
  pub id : Uuid
  pub full_name : Option String

pub record UserRole : Type 0 where
  pub user_id : Uuid
  pub role : String

pub record InspectorName : Type 0 where
  pub user_id : Uuid
  pub name : String

-- Where a recovery link leads: a URL up to the token, or the token alone
pub data ResetUrl (Token : Type 0) : Type 0 where
  link : String → Token → ResetUrl Token
  bare : Token → ResetUrl Token

-- The mail that the authentication endpoints send: `welcome` with the name, the role, the URL and
-- whether a confirmation is required, `password_changed` with the name and the URL.
pub data Letter (Token : Type 0) : Type 0 where
  welcome : String → String → String → Bool → Letter Token
  password_changed : String → String → Letter Token
  password_reset : String → ResetUrl Token → Letter Token

pub record Store : Type 0 where
  pub users : List User
  pub refresh_tokens : List RefreshToken
  pub profiles : List Profile
  pub user_roles : List UserRole
  pub grower_stats : List Uuid
  pub user_settings : List Uuid
  pub inspectors : List InspectorName
  -- the next identifier that `uuid4()` gives: it was never given before
  pub next_id : Uuid

-- A handler: it gives a result or raises, and either way leaves a store.
abbrev pub Op : Type 0 → Type 0
Op A = Store → Result A × Store

module _ {A : Type 0} where
  abbrev pub give : A → Op A
  give a s = (ok a, s)

  abbrev pub fail : Error → Op A
  fail e s = (err e, s)

  abbrev pub try_result : Result A → Op A
  try_result x s = (x, s)

  -- What the store holds
  abbrev pub reading : (Store → A) → Op A
  reading f s = (ok (f s), s)

  -- `if row is None: raise e`
  abbrev pub require : Option A → Error → Op A
  require none e = fail e
  require (some a) e = give a

abbrev pub proceed : {A B : Type 0} → Result A × Store → (A → Op B) → Result B × Store
proceed (ok a, s) f = f a s
proceed (err e, s) f = (err e, s)

infixl 5 ◌>>=◌ ◌>>◌
abbrev pub ◌>>=◌ : {A B : Type 0} → Op A → (A → Op B) → Op B
◌>>=◌ m f s = proceed (m s) f

abbrev pub ◌>>◌ : {B : Type 0} → Op (Unit {0}) → Op B → Op B
m >> k = m >>= λ _. k

abbrev pub writing : (Store → Store) → Op (Unit {0})
writing f s = (ok tt, f s)

-- `uuid4()`
abbrev pub uuid4 : Op Uuid
uuid4 s = (ok s.next_id, record s { next_id = suc s.next_id })
