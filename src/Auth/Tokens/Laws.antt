-- ===== src/Auth/Tokens/Laws.antt =====
-- A token that was minted is accepted with what it was made of, and only as what it was made for.
use text.Mathlib.Text.{◌==◌}
use text.Mathlib.TextEquality.{eq_iff}
use urban_farming_backend.Prelude.{
  ◌+◌, ◌*◌, ◌≤◌, ◌≡◌, ◌≢◌, refl, ap, sym, ◌∙◌, ◌⊎◌, inl, inr, Option-cases, true, false, Option,
  none, some, String, List, [], ◌∷◌, arith,
}
use urban_farming_backend.Json.{Fields, str, obj, get, opt_text}
use urban_farming_backend.Db.{ok, err}
use urban_farming_backend.Db.Rows.{Uuid, Time}
use urban_farming_backend.Auth.Tokens.{
  Settings, Jwt, IsJwt, IsDecoded, read_uuid, second, invalid_token, is_expected, of_type,
  uuid_claim, secret, access_claims, mint_access_token, refresh_claims, mint_recovery_token,
  decode_token,
}

of_type-refused :
    (expected : List String) (o : Option Fields)
    → ((d : Fields) → o ≡ some d → is_expected expected d ≡ false)
    → of_type expected o ≡ err invalid_token
of_type-refused expected none h = refl
of_type-refused expected (some d) h = rw (h d refl) refl

of_type-accepted :
    (expected : List String) (o : Option Fields)
    → o ≢ none
    → ((d : Fields) → o ≡ some d → is_expected expected d ≡ true)
    → (d : Fields) × (o ≡ some d) × (of_type expected o ≡ ok d)
of_type-accepted expected none there h = elim (there refl) [ ]
of_type-accepted expected (some d) there h = (d, refl, rw (h d refl) refl)

-- A decoded token has a content of one of the types that are expected.
pub of_type-eq-ok :
    (expected : List String) (o : Option Fields) (c : Fields)
    → of_type expected o ≡ ok c
    → (o ≡ some c) × (is_expected expected c ≡ true)
of_type-eq-ok expected none c h = cc
of_type-eq-ok expected (some d) c h = ground arith

-- What `decode_token` gives for an access token
pub record IsAccess (user_id : Uuid) (email : Option String) (meta d : Fields) : Type 0 where
  pub subject : uuid_claim "sub" d ≡ ok user_id
  pub address : get "email" d ≡ some (opt_text email)
  pub metadata : get "user_metadata" d ≡ some (obj meta)

-- A claim that is no instant is decoded as it was encoded.
IsDecoded-get :
    (k : String) (c d : Fields)
    → IsDecoded c d
    → (k == "iat") ≡ false
    → (k == "exp") ≡ false
    → get k d ≡ get k c
IsDecoded-get k c d h n m = h k (ground (arith, eq_iff k "iat")) (ground (arith, eq_iff k "exp"))

IsDecoded-IsAccess :
    (settings : Settings) (user_id : Uuid) (email : Option String) (metadata d : Fields)
    (minted : Time)
    → IsDecoded (access_claims settings user_id email metadata minted) d
    → IsAccess user_id email metadata d
IsDecoded-IsAccess settings user_id email metadata d minted h =
    let same =
      λ (k : String). IsDecoded-get k (access_claims settings user_id email metadata minted) d h in
    record {
      subject = ap read_uuid (same "sub" refl refl);
      address = same "email" refl refl;
      metadata = same "user_metadata" refl refl;
    }

module _ {Token : Type 0} (jwt : Jwt Token) (laws : IsJwt jwt) (settings : Settings) where
  content :
      (c d : Fields) (now : Time)
      → jwt.decode now
          (jwt.encode c (secret settings))
          (secret settings)
          settings.jwt_audience
          settings.jwt_issuer
        ≡ some d
      → IsDecoded c d
  content c d now e =
      laws.decode_content c d (secret settings) (secret settings) settings.jwt_audience
        settings.jwt_issuer now e

  -- A token whose type is not among those that are expected is refused, at any time.
  decode_token_other :
      (c : Fields) (t : String) (now : Time) (expected : List String)
      → get "type" c ≡ some (str t)
      → ((d : Fields) → get "type" d ≡ some (str t) → is_expected expected d ≡ false)
      → decode_token jwt settings now (jwt.encode c (secret settings)) expected ≡ err invalid_token
  unfolding decode_token
  decode_token_other c t now expected typed other =
      of_type-refused expected _
        (λ d e. other d (IsDecoded-get "type" c d (content c d now e) refl refl ∙ typed))

  -- A token is refused as one of another type, at any time: a refresh token and a recovery token
  -- as an access token, an access token and a recovery token as a refresh token, and a refresh
  -- token where a password is changed.
  pub decode_token_kind :
      (user_id token_id : Uuid) (email : Option String) (metadata : Fields) (minted now : Time)
      → let access =
          jwt.encode (access_claims settings user_id email metadata minted) (secret settings) in
        let refresh =
          jwt.encode (refresh_claims settings user_id token_id minted) (secret settings) in
        let recovery = mint_recovery_token jwt settings user_id email minted in
        (decode_token jwt settings now refresh ("access" ∷ []) ≡ err invalid_token)
        × (decode_token jwt settings now recovery ("access" ∷ []) ≡ err invalid_token)
        × (decode_token jwt settings now access ("refresh" ∷ []) ≡ err invalid_token)
        × (decode_token jwt settings now recovery ("refresh" ∷ []) ≡ err invalid_token)
        × (decode_token jwt settings now refresh ("access" ∷ "recovery" ∷ []) ≡ err invalid_token)
  decode_token_kind user_id token_id email metadata minted now = (
    decode_token_other _ "refresh" now _ refl (λ d e. ground arith),
    decode_token_other _ "recovery" now _ refl (λ d e. ground arith),
    decode_token_other _ "access" now _ refl (λ d e. ground arith),
    decode_token_other _ "recovery" now _ refl (λ d e. ground arith),
    decode_token_other _ "refresh" now _ refl (λ d e. ground arith),
  )

  -- From the moment it is minted up to a second before it expires, an access token is accepted, and
  -- gives back the account, the address and the metadata that it was minted for.
  pub decode_token-mint_access_token :
      (user_id : Uuid) (email : Option String) (metadata : Fields) (minted now : Time)
      → minted ≤ now
      → now + second ≤ minted + settings.access_token_ttl_seconds * second
      → (d : Fields) × (decode_token jwt settings now
            (mint_access_token jwt settings user_id email metadata minted).0
            ("access" ∷ [])
          ≡ ok d)
        × IsAccess user_id email metadata d
  unfolding decode_token
  decode_token-mint_access_token user_id email metadata minted now after before =
      let c = access_claims settings user_id email metadata minted in
      let there =
        laws.decode-encode c (secret settings) settings.jwt_audience settings.jwt_issuer now minted
          (minted + settings.access_token_ttl_seconds * second) refl refl refl refl refl refl refl
          after before in
      let (d, e, accepted) = of_type-accepted ("access" ∷ []) _ there (λ d e.
        let typed = IsDecoded-get "type" c d (content c d now e) refl refl in
        ground (arith, typed)) in
      (d, accepted, IsDecoded-IsAccess settings user_id email metadata d minted (content c d now e))

  -- A token that was accepted is accepted again with the same claims, or no longer.
  pub decode_token_again :
      (token : Token) (expected : List String) (now later : Time) (c : Fields)
      → decode_token jwt settings now token expected ≡ ok c
      → (decode_token jwt settings later token expected ≡ err invalid_token)
        ⊎ (decode_token jwt settings later token expected ≡ ok c)
  unfolding decode_token
  decode_token_again token expected now later c h =
      let decoded = λ (t : Time).
        jwt.decode t token (secret settings) settings.jwt_audience settings.jwt_issuer in
      let (first, typed) = of_type-eq-ok expected (decoded now) c h in
      elim (Option-cases (decoded later)) [
        | inl e ↦ inl (ap (of_type expected) e)
        | inr (d, e) ↦
            let same =
              laws.decode_stable now later token (secret settings) settings.jwt_audience
                settings.jwt_issuer c d first e in
            inr (ap (of_type expected) (e ∙ ap some (sym same)) ∙ ground (arith, typed))
      ]
