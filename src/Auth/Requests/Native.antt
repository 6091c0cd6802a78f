-- ===== src/Auth/Requests/Native.antt =====
-- The steps of the endpoints of the backend's own mode.
use mathlib.Core.Path.{subst}
use urban_farming_backend.Prelude.{
  ◌||◌, Bool-cases, inl, inr, ◌≡◌, refl, sym, ap, ◌∙◌, Bool, true, false, Option, none, some,
  String, List, [], ◌∷◌, arith, any, ◌&&◌, ◌==◌,
}
use urban_farming_backend.Db.{Result, ok, err}
use urban_farming_backend.Db.Rows.{Uuid, Time}
use urban_farming_backend.Auth.Store.{User, RefreshToken, Store, ◌>>=◌, give, proceed}
use urban_farming_backend.Auth.Store.Accounts.{
  create_user, ensure_provisioned, user_roles, roles_of,
}
use urban_farming_backend.Auth.Store.Tokens.{
  is_live, is_active, with_revoked, store_refresh_token, revoke_refresh_token,
}
use urban_farming_backend.Auth.Store.Views.{is_open, view-with_token, view-with_revoked}
use urban_farming_backend.Auth.Store.Steps.{
  Kept, Takes, entry, exchange, rotates, Kept-refl, IsStep, IsStep-after, IsStep-give,
}
use urban_farming_backend.Auth.Tokens.{Settings, Jwt, Bcrypt, refresh_expiry}
use urban_farming_backend.Auth.Sessions.{
  SignupRequest, public_user, roles_or, fields_or, signup_metadata, signup_user, native_session,
  sign_in, finish_signup, native_signup, admit, native_login, refresh_check, refresh_issue,
  native_refresh,
}
use urban_farming_backend.Auth.Sessions.Rotation.{refresh_check_sound}
use urban_farming_backend.Auth.Requests.Quiet.{
  create_user-IsQuiet, ensure_provisioned-IsQuiet, native_session-IsStep, finish_login-IsStep,
}

-- An active token is an open session of some account.
active-open :
    (id : Uuid) (now : Time) (xs : List RefreshToken)
    → any (λ t. t.id == id && is_live now t) xs ≡ true
    → (owner : Uuid) × (any (is_open id owner) xs ≡ true)
active-open id now [] h = cc
active-open id now (t ∷ xs) h = elim (Bool-cases (t.id == id && is_live now t)) [
  | inl e ↦ (t.user_id, ground arith)
  | inr e ↦ let (owner, k) = active-open id now xs (ground arith) in (owner, ground arith)
]

module _ {Token : Type 0} (jwt : Jwt Token) (settings : Settings) where
  finish_signup-IsStep :
      (p : SignupRequest) (now : Time) (u : User)
      → IsStep entry (finish_signup jwt settings p now u)
  unfolding finish_signup
  finish_signup-IsStep p now u =
      IsStep-after entry (ensure_provisioned u.id (some p.full_name) p.role)
        (λ t. user_roles u.id >>= λ roles.
          native_session jwt settings u.id u.email
            (fields_or u.raw_user_meta_data (signup_metadata p)) now
          >>= λ session.
              give
                (record { user = public_user u; session = session; roles = roles_or roles p.role }))
        (ensure_provisioned-IsQuiet u.id (some p.full_name) p.role)
        (λ t s.
          IsStep-give entry
            (native_session jwt settings u.id u.email
              (fields_or u.raw_user_meta_data (signup_metadata p)) now)
            (λ session. record {
              user = public_user u;
              session = session;
              roles = roles_or (roles_of u.id s) p.role;
            })
            (native_session-IsStep jwt settings u.id u.email _ now) s)

  admit-IsStep :
      (now : Time) (u : Option User) (valid : Bool) → IsStep entry (admit jwt settings now u valid)
  unfolding admit
  admit-IsStep now none valid s = Kept-refl s
  admit-IsStep now (some u) false s = Kept-refl s
  admit-IsStep now (some u) true s = finish_login-IsStep jwt settings now u s

  refresh_check_same :
      (token : Token) (now : Time) (s : Store) → (refresh_check jwt settings token now s).1 ≡ s
  unfolding refresh_check
  refresh_check_same token now s = ground arith

  refresh_issue-IsStep :
      (now : Time) (u : User) (id : Uuid) (s : Store)
      → is_active id now s ≡ true
      → Takes exchange s (refresh_issue jwt settings now (u, id) s)
  unfolding refresh_issue revoke_refresh_token sign_in native_session store_refresh_token
  refresh_issue-IsStep now u id s active =
      let (owner, live) = active-open id now s.refresh_tokens active in
      rotates id owner s.next_id u.id live (omega arith) (omega arith) (λ j k.
        view-with_token s.next_id u.id j k (refresh_expiry settings now) (with_revoked id now s)
        ∙ ap (λ b. b || s.next_id == j && u.id == k) (view-with_revoked id j k now s))

  pub native_refresh-IsStep :
      (token : Token) (now : Time) → IsStep exchange (native_refresh jwt settings token now)
  unfolding native_refresh
  native_refresh-IsStep token now s = go (refresh_check jwt settings token now s) refl
    where
      go :
          (x : Result (User × Uuid) × Store)
          → refresh_check jwt settings token now s ≡ x
          → Takes exchange s (proceed x (refresh_issue jwt settings now))
      go (ok (u, id), t) e =
          let (same, ready) = refresh_check_sound jwt settings token now u id s t e in
          subst (λ r. Takes exchange s (refresh_issue jwt settings now (u, id) r)) same
            (refresh_issue-IsStep now u id s ready.active)
      go (err x, t) e =
          subst (Kept s)
            (sym (refresh_check_same token now s)
              ∙ ap (λ (x : Result (User × Uuid) × Store). x.1) e)
            (Kept-refl s)

module _ {Token : Type 0} (jwt : Jwt Token) (bcrypt : Bcrypt) (settings : Settings) where
  pub native_signup-IsStep :
      (p : SignupRequest) (salt : String) (now : Time)
      → IsStep entry (native_signup jwt bcrypt settings p salt now)
  unfolding native_signup
  native_signup-IsStep p salt now =
      IsStep-after entry (create_user (signup_user bcrypt p salt) now)
        (finish_signup jwt settings p now) (create_user-IsQuiet _ now)
        (finish_signup-IsStep jwt settings p now)

  pub native_login-IsStep :
      (email password : String) (now : Time)
      → IsStep entry (native_login jwt bcrypt settings email password now)
  unfolding native_login
  native_login-IsStep email password now s = admit-IsStep jwt settings now _ _ s
