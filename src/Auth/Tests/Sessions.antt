-- ===== src/Auth/Tests/Sessions.antt =====
-- Sessions of the sample account: refreshed once, refreshed twice at a time, signed up and signed in.
use urban_farming_backend.Prelude.{◌≡◌, refl, none, List, [], ◌∷◌, arith, lower}
use urban_farming_backend.Json.{end}
use urban_farming_backend.Db.{Result, ok, err}
use urban_farming_backend.Auth.Store.Accounts.{
  insert_user, create_user, ensure_provisioned, provisioned,
}
use urban_farming_backend.Auth.Store.Tokens.{store_refresh_token, revoke_refresh_token}
use urban_farming_backend.Auth.Tokens.{invalid_token, refresh_claims, decode_token}
use urban_farming_backend.Auth.Sessions.{
  SignedIn, SignupRequest, invalid_credentials, native_session, sign_in, finish_signup,
  native_signup, native_login, refresh_check, refresh_issue, native_refresh,
}
use urban_farming_backend.Auth.Sessions.Race.{IsDoubled, refresh_issue_race}
use urban_farming_backend.Auth.Sessions.Login.{
  unconfirmed, native_login_refused, native_login-native_signup,
}
use urban_farming_backend.Auth.Store.{Store}
use urban_farming_backend.Auth.Requests.{Request, logging_in, handle_all}
use urban_farming_backend.Auth.Requests.Refinement.{native_refresh_once}
use urban_farming_backend.Auth.Tests.{
  Token, jwt, jwt-IsJwt, bcrypt, bcrypt-IsBcrypt, settings, user, store, app_with,
}

-- A result, where there is one
abbrev given {ℓ} : {A : Type ℓ} → A → Result A → A
given d (ok a) = a
given d (err e) = d

abbrev refresh_token : Token
refresh_token = (refresh_claims settings 1 2 0, "s")

abbrev no_session : SignedIn Token
no_session = record {
  user = record { id = 0; email = none; user_metadata = end; created_at = none };
  session = record {
    access_token = refresh_token;
    token_type = "";
    expires_in = 0;
    refresh_token = refresh_token;
  };
  roles = [];
}

abbrev refreshed : Store
refreshed = (native_refresh jwt settings refresh_token 5000000 (store end)).1

abbrev between : List (Request Token)
between = logging_in "a@b.c" "x" 6000000 ∷ []

native_refresh_once_example :
    native_refresh jwt settings refresh_token 9000000
      (handle_all (app_with (ok tt)) between refreshed)
    ≡ (err invalid_token, handle_all (app_with (ok tt)) between refreshed)
unfolding native_refresh refresh_check refresh_issue decode_token revoke_refresh_token sign_in
    native_session store_refresh_token
native_refresh_once_example =
    native_refresh_once (app_with (ok tt)) jwt-IsJwt refresh_token 5000000 9000000
      (given no_session (native_refresh jwt settings refresh_token 5000000 (store end)).0)
      (store end) refreshed between (omega arith, tt) refl

refresh_issue_race_example : IsDoubled jwt settings (user end) 5000001 5000002 2 (store end)
unfolding refresh_check decode_token
refresh_issue_race_example =
    refresh_issue_race jwt settings refresh_token 5000000 5000001 5000002 (user end) 2 (store end)
      (omega arith, tt) refl

native_login_refused_example :
    native_login jwt bcrypt settings "a@b.c" "y" 5000000 (store end)
    ≡ (err invalid_credentials, store end)
unfolding lower
native_login_refused_example =
    native_login_refused jwt bcrypt settings "a@b.c" "y" 5000000 (store end)
      (unconfirmed (user end) "hx" refl refl (λ h. cc))

abbrev newcomer : SignupRequest
newcomer = record { email = "D@e.f"; password = "secret"; full_name = "D"; role = "buyer" }

native_login-native_signup_example :
    (t : SignedIn Token) × ((native_login jwt bcrypt settings "d@E.f" "secret" 7
        (native_signup jwt bcrypt settings newcomer "x" 6 (store end)).1).0
      ≡ ok t)
    × (t.user
        ≡ (given no_session (native_signup jwt bcrypt settings newcomer "x" 6 (store end)).0).user)
unfolding native_signup create_user insert_user finish_signup ensure_provisioned provisioned
    native_session store_refresh_token lower
native_login-native_signup_example =
    native_login-native_signup jwt bcrypt settings bcrypt-IsBcrypt newcomer "d@E.f" "x" 6 7
      (store end) (native_signup jwt bcrypt settings newcomer "x" 6 (store end)).1
      (given no_session (native_signup jwt bcrypt settings newcomer "x" 6 (store end)).0) (refl, tt)
      refl refl
