-- ===== src/Auth/Identity/Laws.antt =====
-- Whom an access token stands for.
use text.Mathlib.Text.{◌==◌ as str_eq}
use urban_farming_backend.Prelude.{
  ◌≡◌, refl, ap, ◌∙◌, ◌≤◌, ◌+◌, ◌*◌, true, Option, none, some, String, List, [], ◌∷◌, arith, lower,
}
use urban_farming_backend.Json.{null, field, Json, Fields, obj, end, json_or, opt_text}
use urban_farming_backend.Db.{ok}
use urban_farming_backend.Db.Rows.{Uuid, Time}
use urban_farming_backend.Auth.Store.{Store}
use urban_farming_backend.Auth.Store.Accounts.{roles_of}
use urban_farming_backend.Auth.Tokens.{
  AuthMode, IsJwt, second, access_claims, secret, mint_access_token, decode_token,
}
use urban_farming_backend.Auth.Tokens.Laws.{IsAccess, decode_token-mint_access_token}
use urban_farming_backend.Auth.App.{App}
use urban_farming_backend.Auth.Identity.{
  CurrentUser, checked_address, checked_email, checked_metadata, user_of_claims, native_user,
  get_current_user,
}

module _ {Token : Type 0} (app : App Token) (laws : IsJwt app.jwt) where
  kept_metadata : (d : Fields) → checked_metadata app (json_or (some (obj d)) (obj end)) ≡ ok d
  kept_metadata end = refl
  kept_metadata (field k v d) = refl

  -- An address that the validation takes as it is
  abbrev pub IsAddress : Option String → Type 0
  IsAddress none = Unit
  IsAddress (some e) = app.validate_email e ≡ some e

  kept_email :
      (email : Option String) → IsAddress email → checked_email app (opt_text email) ≡ ok email
  kept_email none h = refl
  kept_email (some e) h = ap (checked_address app) h

  -- A caller who is the account, with the roles that it has in the store
  pub record IsAccount (id : Uuid) (email : Option String) (metadata : Fields) (s : Store)
      (v : CurrentUser Token) : Type 0 where
    pub same_id : v.id ≡ id
    pub same_email : v.email ≡ email
    pub same_metadata : v.user_metadata ≡ metadata
    pub granted : v.roles ≡ roles_of id s

  abbrev account_user : Token → Uuid → Option String → Fields → Store → CurrentUser Token
  account_user token id email metadata s = record {
    id = id;
    email = email;
    roles = roles_of id s;
    user_metadata = metadata;
    access_token = some token;
  }

  user_of_claims_of :
      (token : Token) (s : Store) (c : Fields) (id : Uuid) (roles : List String)
      (email : Option String) (metadata : Fields)
      → IsAddress email
      → IsAccess id email metadata c
      → user_of_claims app token c id roles s ≡ (
        ok (record {
          id = id;
          email = email;
          roles = roles;
          user_metadata = metadata;
          access_token = some token;
        }),
        s,
      )
  unfolding user_of_claims
  user_of_claims_of token s c id roles email metadata valid access =
      let address =
        ap (λ o. checked_email app (elim o [ none ↦ null | some v ↦ v ])) access.address
        ∙ kept_email email valid in
      let kept =
        ap (λ o. checked_metadata app (json_or o (obj end))) access.metadata
        ∙ kept_metadata metadata in
      ground (arith, address, kept)

  native_user_of :
      (token : Token) (now : Time) (s : Store) (c : Fields) (id : Uuid) (email : Option String)
      (metadata : Fields)
      → IsAddress email
      → decode_token app.jwt app.settings now token ("access" ∷ []) ≡ ok c
      → IsAccess id email metadata c
      → native_user app token now s ≡ (ok (account_user token id email metadata s), s)
  unfolding native_user
  native_user_of token now s c id email metadata valid decoded access = rw decoded (
      rw access.subject
        (user_of_claims_of token s c id (roles_of id s) email metadata valid access))

  -- In the backend's own mode, a bearer header with an access token that was minted for an account
  -- makes its caller that account, from that moment up to a second before the token expires; the
  -- roles are those that the store has now. The account has no address, or one that pydantic's
  -- validation takes as it is.
  pub get_current_user-mint_access_token :
      (scheme : String) (x_user_id : Option Json) (x_user_role : Option (List String)) (id : Uuid)
      (email : Option String) (metadata : Fields) (minted now : Time) (s : Store)
      → IsAddress email
      → app.settings.auth_mode ≡ AuthMode.native
      → str_eq (lower scheme) "bearer" ≡ true
      → minted ≤ now
      → now + second ≤ minted + app.settings.access_token_ttl_seconds * second
      → (v : CurrentUser Token) × (get_current_user app
            (some (record {
              scheme = scheme;
              credentials =
                  some (mint_access_token app.jwt app.settings id email metadata minted).0;
            }))
            x_user_id
            x_user_role
            now
            s
          ≡ (ok v, s))
        × IsAccount id email metadata s v
  unfolding get_current_user
  get_current_user-mint_access_token scheme x_user_id x_user_role id email metadata minted now s
        valid own bearer after before =
      let token = (mint_access_token app.jwt app.settings id email metadata minted).0 in
      let (c, decoded, access) =
        decode_token-mint_access_token app.jwt laws app.settings id email metadata minted now after
          before in
      let whole =
        laws.strip_token-encode (access_claims app.settings id email metadata minted)
          (secret app.settings) in
      let gives = native_user_of token now s c id email metadata valid decoded access in
      (
        account_user token id email metadata s,
        ground (arith, own, bearer, whole, gives),
        record { same_id = refl; same_email = refl; same_metadata = refl; granted = refl },
      )
