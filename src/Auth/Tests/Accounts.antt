-- ===== src/Auth/Tests/Accounts.antt =====
-- Requests of the sample account: its sessions end, its access token names it, and what a password
-- reset shows of it.
use urban_farming_backend.Prelude.{◌≡◌, refl, false, none, some, [], ◌∷◌, arith, lower, String}
use urban_farming_backend.Json.{Fields, end, field, str, null, get}
use urban_farming_backend.Db.{ok, err, app_error, attribute_error}
use urban_farming_backend.Auth.Store.{User}
use urban_farming_backend.Auth.Store.Accounts.{user_by_email}
use urban_farming_backend.Auth.Store.Tokens.{revoke_all_refresh_tokens}
use urban_farming_backend.Prelude.{true, any, ◌==◌}
use urban_farming_backend.Auth.Tokens.{Settings}
use urban_farming_backend.Auth.Upstream.{gotrue}
use urban_farming_backend.Auth.Upstream.Laws.{error_statuses, gotrue_status}
use urban_farming_backend.Auth.Store.Accounts.{provisioned}
use urban_farming_backend.Auth.Store.Provision.{provisioned-again}
use urban_farming_backend.Auth.Store.Views.{view}
use urban_farming_backend.Auth.Tokens.{
  invalid_token, mint_access_token, mint_recovery_token, refresh_claims, access_claims, secret,
  decode_token, AuthMode,
}
use urban_farming_backend.Auth.Identity.Kinds.{kinds_refused}
use urban_farming_backend.Auth.Sessions.{native_refresh}
use urban_farming_backend.Auth.App.{App}
use urban_farming_backend.Auth.Endpoints.{
  generic, native_logout, native_update_password, change_password, native_password_reset,
}
use urban_farming_backend.Auth.Endpoints.Laws.{
  native_password_reset-generic, native_password_reset_tells, native_password_reset_nameless,
}
use urban_farming_backend.Auth.Identity.{CurrentUser, native_user, get_current_user}
use urban_farming_backend.Auth.Identity.Laws.{IsAccount, get_current_user-mint_access_token}
use urban_farming_backend.Auth.Requests.{Request, logging_in, handle_all}
use urban_farming_backend.Auth.Requests.Refinement.{native_logout-ends, change_password-ends}
use urban_farming_backend.Auth.Tests.{Token, jwt, jwt-IsJwt, settings, app_with, user, store}

abbrev again : Request Token
again = logging_in "a@b.c" "x" 6000000

abbrev access_token : Token
access_token = (mint_access_token jwt settings 1 (some "a@b.c") end 4000000).0

native_logout-ends_example :
    view
      (handle_all
        (app_with (ok tt))
        (again ∷ [])
        (native_logout (app_with (ok tt)) access_token 5000000 (store end)).1)
      2
      1
    ≡ false
unfolding native_logout decode_token revoke_all_refresh_tokens
native_logout-ends_example =
    native_logout-ends (app_with (ok tt)) access_token 5000000 (store end)
      (native_logout (app_with (ok tt)) access_token 5000000 (store end)).1 access_token.0 1
      "Signed out" (again ∷ []) 2 refl refl refl (omega arith)

change_password-ends_example :
    view
      (handle_all
        (app_with (ok tt))
        (again ∷ [])
        (change_password (app_with (ok tt)) end "new" "x" 5000000 1 (store end)).1)
      2
      1
    ≡ false
change_password-ends_example =
    change_password-ends (app_with (ok tt)) end "new" "x" 5000000 1 (store end) (again ∷ []) 2
      (omega arith)

kinds_refused_example :
    let access = jwt.encode (access_claims settings 1 none end 5000000) (secret settings) in
    let refresh = jwt.encode (refresh_claims settings 1 2 5000000) (secret settings) in
    let recovery = mint_recovery_token jwt settings 1 none 5000000 in
    let app = app_with (ok tt) in
    let s = store end in
    (native_refresh jwt settings access 6000000 s ≡ (err invalid_token, s))
    × (native_refresh jwt settings recovery 6000000 s ≡ (err invalid_token, s))
    × (native_user app refresh 6000000 s ≡ (err invalid_token, s))
    × (native_user app recovery 6000000 s ≡ (err invalid_token, s))
    × (native_logout app refresh 6000000 s ≡ (err invalid_token, s))
    × (native_logout app recovery 6000000 s ≡ (err invalid_token, s))
    × (native_update_password app refresh "new" "x" 6000000 s ≡ (err invalid_token, s))
kinds_refused_example =
    kinds_refused (app_with (ok tt)) jwt-IsJwt 1 2 none end "new" "x" 5000000 6000000 (store end)
      refl

get_current_user-mint_access_token_example :
    (v : CurrentUser Token) × (get_current_user
        (app_with (ok tt))
        (some (record { scheme = "Bearer"; credentials = some access_token }))
        none
        none
        5000000
        (store end)
      ≡ (ok v, store end))
    × IsAccount (app_with (ok tt)) jwt-IsJwt 1 (some "a@b.c") end (store end) v
unfolding lower
get_current_user-mint_access_token_example =
    get_current_user-mint_access_token (app_with (ok tt)) jwt-IsJwt "Bearer" none none 1
      (some "a@b.c") end 4000000 5000000 (store end) refl refl refl (omega arith) (omega arith)

abbrev named : Fields
named = field "full_name" (str "A") end

abbrev nameless : Fields
nameless = field "full_name" null end

named-user :
    (u : User)
    → user_by_email "a@b.c" (store named) ≡ some u
    → (name : String) × (get "full_name" u.raw_user_meta_data ≡ some (str name))
unfolding lower
named-user u h = ("A", ground arith)

native_password_reset-generic_example :
    native_password_reset (app_with (ok tt)) "a@b.c" none 5000000 (store named)
    ≡ (ok (generic (app_with (ok tt))), store named)
native_password_reset-generic_example =
    native_password_reset-generic (app_with (ok tt)) refl "a@b.c" none 5000000 (store named)
      (λ to letter. refl) named-user

abbrev broken : App Token
broken = app_with (err (app_error 502 "email_delivery_failed" null))

native_password_reset_tells_example :
    (native_password_reset broken "x@y.z" none 5000000 (store named)
      ≡ (ok (generic broken), store named))
    × (native_password_reset broken "a@b.c" none 5000000 (store named)
        ≡ (err (app_error 502 "email_delivery_failed" null), store named))
unfolding lower
native_password_reset_tells_example =
    native_password_reset_tells broken refl "x@y.z" "a@b.c" "A" none 5000000 (store named)
      (app_error 502 "email_delivery_failed" null) (user named) (λ to letter. refl) refl refl refl

native_password_reset_nameless_example :
    native_password_reset (app_with (ok tt)) "a@b.c" none 5000000 (store nameless)
    ≡ (err attribute_error, store nameless)
unfolding lower
native_password_reset_nameless_example =
    native_password_reset_nameless (app_with (ok tt)) refl "a@b.c" none 5000000 (store nameless)
      (user nameless) refl refl

provisioned-again_example :
    provisioned 1 none "inspector" (provisioned 1 (some "A") "inspector" (store end))
    ≡ provisioned 1 (some "A") "inspector" (store end)
provisioned-again_example = provisioned-again 1 (some "A") none "inspector" (store end)

abbrev hosted_settings : Settings
hosted_settings = record settings { auth_mode = AuthMode.supabase }

gotrue_status_example : any (λ m. m == 502) error_statuses ≡ true
unfolding gotrue
gotrue_status_example =
    gotrue_status (λ v. "x") hosted_settings
      (some (record { status_code = 503; has_content = true; body = none })) 502 "x" null refl
