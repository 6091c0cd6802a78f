-- ===== src/Auth/Identity/Kinds.antt =====
-- Each handler takes only tokens of the kind that it is for: the calls of `decode_token` in
-- app/routers/auth.py and app/core/security.py.
use urban_farming_backend.Prelude.{◌≡◌, refl, true, Option, String, [], ◌∷◌}
use urban_farming_backend.Json.{Fields}
use urban_farming_backend.Db.{err}
use urban_farming_backend.Db.Rows.{Uuid, Time}
use urban_farming_backend.Auth.Store.{Store}
use urban_farming_backend.Auth.Tokens.{
  IsJwt, access_claims, refresh_claims, secret, mint_recovery_token, decode_token, invalid_token,
}
use urban_farming_backend.Auth.Tokens.Laws.{decode_token_kind}
use urban_farming_backend.Auth.Sessions.{refresh_check, native_refresh}
use urban_farming_backend.Auth.App.{App}
use urban_farming_backend.Auth.Endpoints.{native_logout, native_update_password}
use urban_farming_backend.Auth.Identity.{native_user}

module _ {Token : Type 0} (app : App Token) where
  refresh_refused :
      (token : Token) (now : Time) (s : Store)
      → decode_token app.jwt app.settings now token ("refresh" ∷ []) ≡ err invalid_token
      → native_refresh app.jwt app.settings token now s ≡ (err invalid_token, s)
  unfolding native_refresh refresh_check
  refresh_refused token now s h = rw h refl

  user_refused :
      (token : Token) (now : Time) (s : Store)
      → decode_token app.jwt app.settings now token ("access" ∷ []) ≡ err invalid_token
      → native_user app token now s ≡ (err invalid_token, s)
  unfolding native_user
  user_refused token now s h = rw h refl

  logout_refused :
      (token : Token) (now : Time) (s : Store)
      → decode_token app.jwt app.settings now token ("access" ∷ []) ≡ err invalid_token
      → native_logout app token now s ≡ (err invalid_token, s)
  unfolding native_logout
  logout_refused token now s h = rw h refl

  update_refused :
      (token : Token) (password salt : String) (now : Time) (s : Store)
      → app.has_store ≡ true
      → decode_token app.jwt app.settings now token ("access" ∷ "recovery" ∷ []) ≡ err invalid_token
      → native_update_password app token password salt now s ≡ (err invalid_token, s)
  unfolding native_update_password
  update_refused token password salt now s there h = rw there (rw h refl)

  -- Where the store is there, the handlers of the backend's own mode refuse every token that was
  -- minted for another use, at any time, as an invalid token, and change nothing: a refresh refuses
  -- an access token and a recovery token, the caller's identity and a sign-out refuse a refresh token
  -- and a recovery token, and a password update refuses a refresh token.
  pub kinds_refused :
      IsJwt app.jwt
      → (user_id token_id : Uuid) (email : Option String) (metadata : Fields)
        (password salt : String) (minted now : Time) (s : Store)
      → app.has_store ≡ true
      → let access =
          app.jwt.encode
            (access_claims app.settings user_id email metadata minted)
            (secret app.settings) in
        let refresh =
          app.jwt.encode
            (refresh_claims app.settings user_id token_id minted)
            (secret app.settings) in
        let recovery = mint_recovery_token app.jwt app.settings user_id email minted in
        (native_refresh app.jwt app.settings access now s ≡ (err invalid_token, s))
        × (native_refresh app.jwt app.settings recovery now s ≡ (err invalid_token, s))
        × (native_user app refresh now s ≡ (err invalid_token, s))
        × (native_user app recovery now s ≡ (err invalid_token, s))
        × (native_logout app refresh now s ≡ (err invalid_token, s))
        × (native_logout app recovery now s ≡ (err invalid_token, s))
        × (native_update_password app refresh password salt now s ≡ (err invalid_token, s))
  kinds_refused laws user_id token_id email metadata password salt minted now s there =
      let (refresh, recovery, access, recovery_too, refresh_too) =
        decode_token_kind app.jwt laws app.settings user_id token_id email metadata minted now in
      (
        refresh_refused _ now s access,
        refresh_refused _ now s recovery_too,
        user_refused _ now s refresh,
        user_refused _ now s recovery,
        logout_refused _ now s refresh,
        logout_refused _ now s recovery,
        update_refused _ password salt now s there refresh_too,
      )
