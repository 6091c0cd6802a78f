-- ===== src/Auth/Sessions/Login.antt =====
-- Signing in with a password (`_native_login` of app/routers/auth.py).
use text.Mathlib.Text.{◌==◌ as str_eq}
use text.Mathlib.TextEquality.{eq_iff}
use urban_farming_backend.Prelude.{
  ◌≡◌, ◌≢◌, refl, sym, ap, ◌∙◌, Bool, true, false, Bool-cases, inl, inr, Option, none, some, String,
  List, [], ◌∷◌, ◌++◌, arith, All, any, find, find-append, lower, lower_twice,
}
use urban_farming_backend.Db.{Result, ok, err}
use urban_farming_backend.Db.Rows.{Uuid, Time}
use urban_farming_backend.Auth.Store.{User, Store}
use urban_farming_backend.Auth.Store.Accounts.{
  NewUser, has_lower_email, is_clash, new_user, insert_user, create_user, user_by_email,
  provisioned, ensure_provisioned, touch_last_sign_in,
}
use urban_farming_backend.Auth.Store.Laws.{bind-eq-ok}
use urban_farming_backend.Auth.Store.Tokens.{store_refresh_token}
use urban_farming_backend.Auth.Tokens.{Settings, Jwt, Bcrypt, IsBcrypt, verified, verify_password}
use urban_farming_backend.Auth.Sessions.{
  SignedIn, SignupRequest, public_user, invalid_credentials, hash_of, signup_user, native_session,
  sign_in, finish_signup, native_signup, finish_login, admit, native_login,
}

-- The addresses of the accounts are in lower case.
abbrev pub IsLoweredEmail : Option String → Type 0
IsLoweredEmail none = Unit
IsLoweredEmail (some e) = lower e ≡ e

abbrev pub IsLowered : Store → Type 0
IsLowered s = All (λ (u : User). IsLoweredEmail u.email) s.users

create_user_sound :
    (n : NewUser) (now : Time) (s s' : Store) (u : User)
    → create_user n now s ≡ (ok u, s')
    → (u ≡ new_user n s.next_id now)
      × (s'.users ≡ s.users ++ (u ∷ []))
      × (any (is_clash n s.next_id) s.users ≡ false)
unfolding create_user insert_user
create_user_sound n now s s' u h = ground arith

lowered-has_email :
    (e : String) (o : Option String)
    → IsLoweredEmail o
    → elim o [ none ↦ false | some f ↦ str_eq (lower f) e ]
      ≡ elim o [ none ↦ false | some f ↦ str_eq f e ]
lowered-has_email e none h = refl
lowered-has_email e (some f) h = ap (λ g. str_eq g e) h

-- An account that was there has another address.
find_other :
    (n : NewUser) (id : Uuid) (us : List User)
    → All (λ u. IsLoweredEmail u.email) us
    → any (is_clash n id) us ≡ false
    → find (has_lower_email (lower n.email)) us ≡ none
find_other n id [] h k = refl
find_other n id (u ∷ us) h k =
    let same = lowered-has_email (lower n.email) u.email h.0 in
    ground (arith, same, find_other n id us h.1)

find_new :
    (n : NewUser) (id : Uuid) (now : Time) (us : List User)
    → All (λ u. IsLoweredEmail u.email) us
    → any (is_clash n id) us ≡ false
    → find (has_lower_email (lower n.email)) (us ++ (new_user n id now ∷ []))
      ≡ some (new_user n id now)
find_new n id now us h k = ground (
  arith,
  find-append (has_lower_email (lower n.email)) us (new_user n id now ∷ []),
  find_other n id us h k,
  lower_twice n.email,
  eq_iff (lower n.email) (lower n.email),
)

-- Why a password does not let in: `o` is the account of the address.
pub data IsWrong (bcrypt : Bcrypt) (password : String) (o : Option User) : Type 0 where
  unknown : o ≡ none → IsWrong bcrypt password o
  passwordless : (u : User) → o ≡ some u → u.encrypted_password ≡ none → IsWrong bcrypt password o
  unconfirmed :
      (u : User) (hash : String)
      → o ≡ some u
      → u.encrypted_password ≡ some hash
      → bcrypt.checkpw password hash ≢ some true
      → IsWrong bcrypt password o

not-verified : (o : Option Bool) → o ≢ some true → verified o ≡ false
not-verified none h = refl
not-verified (some true) h = elim (h refl) [ ]
not-verified (some false) h = refl

verify_password-IsWrong :
    (bcrypt : Bcrypt) (password : String) (o : Option User)
    → IsWrong bcrypt password o
    → verify_password bcrypt password (hash_of o) ≡ false
unfolding verify_password
verify_password-IsWrong bcrypt password o (unknown e) = rw e refl
verify_password-IsWrong bcrypt password o (passwordless u e n) = rw e (rw n refl)
verify_password-IsWrong bcrypt password o (unconfirmed u hash e h n) = rw e (
    rw h (elim (Bool-cases (str_eq hash "")) [
      | inl empty ↦ rw empty refl
      | inr full ↦ rw full (not-verified (bcrypt.checkpw password hash) n)
    ]))

module _ {Token : Type 0} (jwt : Jwt Token) (bcrypt : Bcrypt) (settings : Settings) where
  -- A login is refused in the same way, and changes nothing, where the address has no account, where
  -- its account has no password, and where bcrypt does not confirm the password against its hash.
  pub native_login_refused :
      (email password : String) (now : Time) (s : Store)
      → IsWrong bcrypt password (user_by_email email s)
      → native_login jwt bcrypt settings email password now s ≡ (err invalid_credentials, s)
  unfolding native_login admit
  native_login_refused email password now s wrong =
      let h = verify_password-IsWrong bcrypt password (user_by_email email s) wrong in
      ground (arith, h)

  finish_login_gives :
      (now : Time) (u : User) (s : Store)
      → (t : SignedIn Token) × ((finish_login jwt settings now u s).0 ≡ ok t)
        × (t.user ≡ public_user u)
  unfolding finish_login touch_last_sign_in sign_in native_session store_refresh_token
  finish_login_gives now u s = (_, refl, refl)

  -- A login to an account with the password that its hash was made of
  native_login_gives :
      IsBcrypt bcrypt
      → (email password salt : String) (now : Time) (s : Store) (u : User)
      → user_by_email email s ≡ some u
      → u.encrypted_password ≡ some (bcrypt.hashpw password salt)
      → native_login jwt bcrypt settings email password now s ≡ finish_login jwt settings now u s
  unfolding native_login admit verify_password
  native_login_gives laws email password salt now s u found hash =
      rw found (
        rw hash (rw (laws.hashpw_some password salt) (rw (laws.checkpw-hashpw password salt) refl)))

  finish_signup-users :
      (p : SignupRequest) (now : Time) (u : User) (s : Store)
      → (finish_signup jwt settings p now u s).1.users ≡ s.users
  unfolding finish_signup ensure_provisioned provisioned native_session store_refresh_token
  finish_signup-users p now u s = ground arith

  finish_signup-user :
      (p : SignupRequest) (now : Time) (u : User) (s s' : Store) (r : SignedIn Token)
      → finish_signup jwt settings p now u s ≡ (ok r, s')
      → r.user ≡ public_user u
  unfolding finish_signup ensure_provisioned native_session store_refresh_token
  finish_signup-user p now u s s' r h = ground arith

  -- Whoever signed up signs in, at any later time before the store changes, with the same password
  -- and the address in any case, and gets the same account. The stored addresses are in lower case.
  pub native_login-native_signup :
      IsBcrypt bcrypt
      → (p : SignupRequest) (email salt : String) (now later : Time) (s s' : Store)
        (r : SignedIn Token)
      → IsLowered s
      → lower email ≡ lower p.email
      → native_signup jwt bcrypt settings p salt now s ≡ (ok r, s')
      → (t : SignedIn Token) × ((native_login jwt bcrypt settings email p.password later s').0
          ≡ ok t)
        × (t.user ≡ r.user)
  unfolding native_signup
  native_login-native_signup laws p email salt now later s s' r lowered same h =
      let (u, s1, e, k) =
        bind-eq-ok (create_user (signup_user bcrypt p salt) now) (finish_signup jwt settings p now)
          s s' r h in
      let (made, added, fresh) = create_user_sound (signup_user bcrypt p salt) now s s1 u e in
      let users : s'.users ≡ s.users ++ (u ∷ []) =
        sym (ap (λ (x : Result (SignedIn Token) × Store). x.1.users) k)
        ∙ finish_signup-users p now u s1
        ∙ added in
      let found = find_new (signup_user bcrypt p salt) s.next_id now s.users lowered fresh in
      let owner = finish_signup-user p now u s1 s' r k in
      let stored : user_by_email email s' ≡ some u = ground (arith, found, made, users, same) in
      let (t, gives, named) = finish_login_gives later u s' in
      let entered =
        native_login_gives laws email p.password salt later s' u stored
          (ap (λ (x : User). x.encrypted_password) made) in
      (t, ap (λ (x : Result (SignedIn Token) × Store). x.0) entered ∙ gives, named ∙ sym owner)
