-- ===== src/Auth/Requests/Quiet.antt =====
-- The parts of the handlers that keep the open sessions, and those that take one step.
use urban_farming_backend.Prelude.{Bool-cases, inl, inr, refl, Option, String, List, arith, any}
use text.Mathlib.Text.{◌==◌ as str_eq}
use urban_farming_backend.Json.{Fields}
use urban_farming_backend.Db.Rows.{Uuid, Time}
use urban_farming_backend.Auth.Store.{User, ◌>>=◌, uuid4}
use urban_farming_backend.Auth.Store.Accounts.{
  is_clash, user_roles, roles_of, NewUser, insert_user, create_user, provisioned,
  ensure_provisioned, set_password, touch_last_sign_in,
}
use urban_farming_backend.Auth.Store.Tokens.{store_refresh_token, revoke_all_refresh_tokens}
use urban_farming_backend.Auth.Store.Views.{view-with_token, view-with_all_revoked}
use urban_farming_backend.Auth.Store.Steps.{
  opens, ends, Kept-refl, IsQuiet, IsStep, IsQuiet-bind, IsStep-after, IsStep-give, entry, exit,
}
use urban_farming_backend.Auth.Tokens.{Settings, Jwt, refresh_expiry}
use urban_farming_backend.Auth.Sessions.{public_user, native_session, sign_in, finish_login}

insert_user-IsQuiet : (n : NewUser) (now : Time) (id : Uuid) → IsQuiet (insert_user n now id)
unfolding insert_user
insert_user-IsQuiet n now id s = elim (Bool-cases (any (is_clash n id) s.users)) [
  | inl e ↦ rw e (Kept-refl s)
  | inr e ↦ rw e (record { ids = omega arith; same = λ j u. refl })
]

pub create_user-IsQuiet : (n : NewUser) (now : Time) → IsQuiet (create_user n now)
unfolding create_user
create_user-IsQuiet n now =
    IsQuiet-bind uuid4 (insert_user n now) (λ s. record { ids = omega arith; same = λ j u. refl })
      (λ id. insert_user-IsQuiet n now id)

pub ensure_provisioned-IsQuiet :
    (id : Uuid) (name : Option String) (role : String) → IsQuiet (ensure_provisioned id name role)
unfolding ensure_provisioned provisioned
ensure_provisioned-IsQuiet id name role s = elim (Bool-cases (str_eq role "inspector")) [
  | inl e ↦ rw e (record { ids = omega arith; same = λ j u. refl })
  | inr e ↦ rw e (record { ids = omega arith; same = λ j u. refl })
]

pub set_password-IsQuiet :
    (id : Uuid) (hash : String) (now : Time) → IsQuiet (set_password id hash now)
unfolding set_password
set_password-IsQuiet id hash now s = record { ids = omega arith; same = λ j u. refl }

pub touch_last_sign_in-IsQuiet : (id : Uuid) (now : Time) → IsQuiet (touch_last_sign_in id now)
unfolding touch_last_sign_in
touch_last_sign_in-IsQuiet id now s = record { ids = omega arith; same = λ j u. refl }

pub revoke_all_refresh_tokens-IsStep :
    (user_id : Uuid) (now : Time) → IsStep exit (revoke_all_refresh_tokens user_id now)
unfolding revoke_all_refresh_tokens
revoke_all_refresh_tokens-IsStep user_id now s =
    ends user_id (omega arith) (λ j u. view-with_all_revoked user_id j u now s)

module _ {Token : Type 0} (jwt : Jwt Token) (settings : Settings) where
  pub native_session-IsStep :
      (user_id : Uuid) (email : Option String) (metadata : Fields) (now : Time)
      → IsStep entry (native_session jwt settings user_id email metadata now)
  unfolding native_session store_refresh_token
  native_session-IsStep user_id email metadata now s =
      opens s.next_id user_id (omega arith) (omega arith)
        (λ j u. view-with_token s.next_id user_id j u (refresh_expiry settings now) s)

  pub sign_in-IsStep :
      (u : User) (roles : List String) (now : Time)
      → IsStep entry (sign_in jwt settings u roles now)
  unfolding sign_in
  sign_in-IsStep u roles now =
      IsStep-give entry (native_session jwt settings u.id u.email u.raw_user_meta_data now)
        (λ session. record { user = public_user u; session = session; roles = roles })
        (native_session-IsStep u.id u.email u.raw_user_meta_data now)

  pub finish_login-IsStep : (now : Time) (u : User) → IsStep entry (finish_login jwt settings now u)
  unfolding finish_login
  finish_login-IsStep now u =
      IsStep-after entry (touch_last_sign_in u.id now)
        (λ t. user_roles u.id >>= λ roles. sign_in jwt settings u roles now)
        (touch_last_sign_in-IsQuiet u.id now) (λ t s. sign_in-IsStep u (roles_of u.id s) now s)
