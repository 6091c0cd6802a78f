-- ===== src/Auth/Requests/Refinement.antt =====
-- The requests of app/routers/auth.py against the specification of the sessions.
use mathlib.Core.Path.{subst}
use urban_farming_backend.Prelude.{◌≡◌, ◌∙◌, ◌<◌, Bool, true, false, List, [], ◌∷◌, arith}
use urban_farming_backend.Prelude.{sym, ap, String, refl, any, ◌&&◌, ◌==◌, ==_refl}
use urban_farming_backend.Json.{Fields}
use urban_farming_backend.Db.{Result, ok, err}
use urban_farming_backend.Db.Rows.{Uuid, Time}
use urban_farming_backend.Auth.Store.Tokens.{
  is_live, with_revoked, with_all_revoked, revoke_all_refresh_tokens,
}
use urban_farming_backend.Auth.Store.Accounts.{set_password}
use urban_farming_backend.Auth.Tokens.{
  Settings, IsJwt, invalid_token, refresh_expiry, decode_token, uuid_claim,
}
use urban_farming_backend.Auth.Sessions.{SignedIn, native_refresh}
use urban_farming_backend.Auth.Sessions.Rotation.{
  IsRefreshable, after_refresh, native_refresh_sound, native_refresh_inactive,
}
use urban_farming_backend.Auth.Store.{User, RefreshToken, Store}
use urban_farming_backend.Auth.Store.Views.{
  IsFresh, any-below, is_open, view, view-with_token, view-with_revoked, view-with_all_revoked,
}
use urban_farming_backend.Auth.Store.Steps.{
  Effect, entry, exchange, exit, idle, Kept, Takes, SessionStep, keeps, opens, rotates, ends,
  IsQuiet-IsStep, same-IsQuiet,
}
use urban_farming_backend.Auth.App.{App}
use urban_farming_backend.Auth.Endpoints.{
  Message, native_logout, change_password, request_password_reset,
}
use urban_farming_backend.Auth.Requests.{
  Request, signing_up, logging_in, refreshing, google, logging_out, resetting, updating, outcome_of,
  handled, handle, handle_all,
}
use urban_farming_backend.Auth.Requests.Entries.{
  own_effect, signup-IsStep, login-IsStep, refresh-IsStep, google_sign_in-IsStep,
}
use urban_farming_backend.Auth.Requests.Exits.{
  logout-IsStep, request_password_reset_same, update_password-IsStep,
}

-- A step opens no session that was given out before.
SessionStep-closed :
    {s s' : Store} {e : Effect}
    → SessionStep s s' e
    → (id u : Uuid) → id < s.next_id
    → view s id u ≡ false
    → (id < s'.next_id) × (view s' id u ≡ false)
SessionStep-closed (keeps k) id u given gone = (omega (arith, given, k.ids), k.same id u ∙ gone)
SessionStep-closed (opens new user_id fresh below h) id u given gone =
    (omega (arith, given, fresh, below), ground (arith, h id u))
SessionStep-closed (rotates old owner new user_id live fresh below h) id u given gone =
    (omega (arith, given, fresh, below), ground (arith, h id u))
SessionStep-closed (ends user_id ids h) id u given gone =
    (omega (arith, given, ids), ground (arith, h id u))

-- The specification of a request: its step where it succeeds, and the sessions kept where it fails
abbrev pub Steps : Effect → Store → Bool × Store → Type 0
Steps e s (true, t) = SessionStep s t e
Steps e s (false, t) = Kept s t

Steps-closed :
    (e : Effect) (s : Store) (x : Bool × Store)
    → Steps e s x
    → (id u : Uuid) → id < s.next_id
    → view s id u ≡ false
    → (id < x.1.next_id) × (view x.1 id u ≡ false)
Steps-closed e s (true, t) h id u given gone = SessionStep-closed h id u given gone
Steps-closed e s (false, t) k id u given gone = (omega (arith, given, k.ids), k.same id u ∙ gone)

Takes-Steps :
    {A : Type 0} (e : Effect) (s : Store) (x : Result A × Store)
    → Takes e s x
    → Steps e s (outcome_of x)
Takes-Steps e s (ok a, t) h = h
Takes-Steps e s (err y, t) h = h

-- What each request does where it succeeds
abbrev pub effect_of : {Token : Type 0} → Settings → Request Token → Effect
effect_of settings (signing_up p redirect_to salt now) = own_effect settings entry
effect_of settings (logging_in email password now) = own_effect settings entry
effect_of settings (refreshing token t now) = own_effect settings exchange
effect_of settings (google proof role now) = own_effect settings entry
effect_of settings (logging_out scope authorization now) = own_effect settings exit
effect_of settings (resetting email redirect_to now) = idle
effect_of settings (updating authorization password salt now) = own_effect settings exit

-- A token that is no open session of any account is not active, at any time.
closed-inactive :
    (id : Uuid) (later : Time) (xs : List RefreshToken)
    → ((j : Uuid) → any (is_open id j) xs ≡ false)
    → any (λ t. t.id == id && is_live later t) xs ≡ false
closed-inactive id later [] h = refl
closed-inactive id later (t ∷ xs) h =
    let rest = closed-inactive id later xs (λ j. let k = h j in ground (arith, k)) in
    let head = h t.user_id in ground (arith, rest, head, ==_refl t.user_id)

module _ {Token : Type 0} (app : App Token) where
  pub handle-SessionStep :
      (r : Request Token) (s : Store) → Steps (effect_of app.settings r) s (handled app r s)
  unfolding handled
  handle-SessionStep (signing_up p redirect_to salt now) s =
      Takes-Steps _ s _ (signup-IsStep app p redirect_to salt now s)
  handle-SessionStep (logging_in email password now) s =
      Takes-Steps _ s _ (login-IsStep app email password now s)
  handle-SessionStep (refreshing token t now) s =
      Takes-Steps _ s _ (refresh-IsStep app token t now s)
  handle-SessionStep (google proof role now) s =
      Takes-Steps _ s _ (google_sign_in-IsStep app proof role now s)
  handle-SessionStep (logging_out scope authorization now) s =
      Takes-Steps _ s _ (logout-IsStep app scope authorization now s)
  handle-SessionStep (resetting email redirect_to now) s = Takes-Steps _ s _ (
      IsQuiet-IsStep (request_password_reset app email redirect_to now)
        (same-IsQuiet (request_password_reset app email redirect_to now)
          (request_password_reset_same app email redirect_to now))
        s)
  handle-SessionStep (updating authorization password salt now) s =
      Takes-Steps _ s _ (update_password-IsStep app authorization password salt now s)

  -- A refresh token that was given out and is not open is never open again, whatever requests come.
  pub handle_all-closed :
      (rs : List (Request Token)) (s : Store) (id u : Uuid)
      → id < s.next_id
      → view s id u ≡ false
      → view (handle_all app rs s) id u ≡ false
  unfolding handle_all
  handle_all-closed [] s id u given gone = gone
  handle_all-closed (r ∷ rs) s id u given gone =
      let (next, still) =
        Steps-closed (effect_of app.settings r) s (handled app r s) (handle-SessionStep r s) id u
          given gone in
      handle_all-closed rs (handle app r s) id u next still

  -- A refresh revokes the token it was made with, for every account.
  native_refresh-closed :
      (token : Token) (now : Time) (u : User) (id j : Uuid) (s : Store)
      → IsFresh s
      → IsRefreshable app.jwt app.settings token now u id s
      → (id < (after_refresh app.jwt app.settings u.id id now s).next_id)
        × (view (after_refresh app.jwt app.settings u.id id now s) id j ≡ false)
  native_refresh-closed token now u id j s fresh ready =
      let below : id < s.next_id =
        any-below id s.next_id (is_live now) s.refresh_tokens fresh ready.active in
      (
        omega (arith, below),
        view-with_token s.next_id u.id id j (refresh_expiry app.settings now)
              (with_revoked id now s)
            ∙ ground (arith, below, view-with_revoked id id j now s),
      )

  -- Once a refresh token has given a session, it gives no other, at any later time and whatever
  -- requests have been handled in between, one after another: it is refused as an invalid token, and
  -- nothing changes. The identifiers of the stored tokens were given before.
  pub native_refresh_once :
      IsJwt app.jwt
      → (token : Token) (now later : Time) (r : SignedIn Token) (s s' : Store)
        (rs : List (Request Token))
      → IsFresh s
      → native_refresh app.jwt app.settings token now s ≡ (ok r, s')
      → native_refresh app.jwt app.settings token later (handle_all app rs s')
        ≡ (err invalid_token, handle_all app rs s')
  native_refresh_once laws token now later r s s' rs fresh h =
      let (u, id, ready, done) = native_refresh_sound app.jwt app.settings token now r s s' h in
      let gone = λ (j : Uuid).
        let (given, closed) = native_refresh-closed token now u id j s fresh ready in
        handle_all-closed rs s' id j (subst (λ t. id < t.next_id) done given)
          (subst (λ t. view t id j ≡ false) done closed) in
      native_refresh_inactive app.jwt app.settings laws token now later u id s
        (handle_all app rs s') ready
        (closed-inactive id later (handle_all app rs s').refresh_tokens gone)

  native_logout_store :
      (token : Token) (now : Time) (s s' : Store) (claims : Fields) (user_id : Uuid) (m : Message)
      → decode_token app.jwt app.settings now token ("access" ∷ []) ≡ ok claims
      → uuid_claim "sub" claims ≡ ok user_id
      → native_logout app token now s ≡ (ok m, s')
      → s' ≡ with_all_revoked user_id now s
  unfolding native_logout revoke_all_refresh_tokens
  native_logout_store token now s s' claims user_id m decoded named done = ground arith

  -- Once a sign-out of the backend's own mode is done, no refresh token that was given out before is
  -- open for the account of the access token, whatever requests follow.
  pub native_logout-ends :
      (token : Token) (now : Time) (s s' : Store) (claims : Fields) (user_id : Uuid) (m : Message)
      (rs : List (Request Token)) (id : Uuid)
      → decode_token app.jwt app.settings now token ("access" ∷ []) ≡ ok claims
      → uuid_claim "sub" claims ≡ ok user_id
      → native_logout app token now s ≡ (ok m, s')
      → id < s.next_id
      → view (handle_all app rs s') id user_id ≡ false
  native_logout-ends token now s s' claims user_id m rs id decoded named done given =
      let after : s' ≡ with_all_revoked user_id now s =
        native_logout_store token now s s' claims user_id m decoded named done in
      handle_all-closed rs s' id user_id (subst (λ r. id < r.next_id) (sym after) given) (
        ap (λ r. view r id user_id) after
        ∙ view-with_all_revoked user_id id user_id now s
        ∙ ground arith)

  -- Once a password is changed, no refresh token that was given out before is open for the account,
  -- whatever requests follow.
  pub change_password-ends :
      (claims : Fields) (password salt : String) (now : Time) (user_id : Uuid) (s : Store)
      (rs : List (Request Token)) (id : Uuid)
      → id < s.next_id
      → view
          (handle_all app rs (change_password app claims password salt now user_id s).1)
          id
          user_id
        ≡ false
  unfolding change_password revoke_all_refresh_tokens set_password
  change_password-ends claims password salt now user_id s rs id given =
      handle_all-closed rs (change_password app claims password salt now user_id s).1 id user_id
        given (view-with_all_revoked user_id id user_id now s ∙ ground arith)
