-- ===== src/Auth/Sessions/Rotation.antt =====
-- What a refresh reads and leaves, and the refusal of a token that is not active.
use urban_farming_backend.Prelude.{
  ap, sym, inl, inr, ◌≡◌, refl, ◌∙◌, true, false, not, some, [], ◌∷◌, arith, suc, ◌==◌,
  if◌then◌else◌, find_holds,
}
use urban_farming_backend.Db.{ok, err, Result}
use urban_farming_backend.Auth.Tokens.Laws.{decode_token_again}
use urban_farming_backend.Db.Rows.{Uuid, Time}
use urban_farming_backend.Json.{Fields}
use urban_farming_backend.Auth.Store.{User, Store, proceed, fail, Op, ◌>>=◌, give, require}
use urban_farming_backend.Auth.Store.Accounts.{user_by_id, get_user_by_id}
use urban_farming_backend.Auth.Store.Tokens.{
  is_active, with_token, with_revoked, store_refresh_token, revoke_refresh_token,
}
use urban_farming_backend.Auth.Store.Laws.{bind-eq-ok, try_result-eq-ok}
use urban_farming_backend.Auth.Tokens.{
  Settings, Jwt, IsJwt, invalid_token, uuid_claim, decode_token, refresh_expiry,
}
use urban_farming_backend.Auth.Sessions.{
  SignedIn, refresh_check, refresh_issue, native_refresh, sign_in, native_session,
}

module _ {Token : Type 0} (jwt : Jwt Token) (settings : Settings) where
  -- What the reads of a refresh establish
  pub record IsRefreshable (token : Token) (now : Time) (u : User) (id : Uuid) (s : Store)
      : Type 0 where
    pub claims : Fields
    pub decoded : decode_token jwt settings now token ("refresh" ∷ []) ≡ ok claims
    pub named : uuid_claim "jti" claims ≡ ok id
    pub owner : uuid_claim "sub" claims ≡ ok u.id
    pub active : is_active id now s ≡ true
    pub found : user_by_id u.id s ≡ some u

  reads : Uuid → Uuid → Time → Op (User × Uuid)
  reads token_id user_id now s =
      (if not (is_active token_id now s)
          then fail invalid_token
          else (get_user_by_id user_id >>= λ user.
              require user invalid_token >>= λ u. give (u, token_id)))
        s

  reads_sound :
      (token_id user_id id : Uuid) (now : Time) (u : User) (s s' : Store)
      → reads token_id user_id now s ≡ (ok (u, id), s')
      → (s ≡ s') × (token_id ≡ id) × (is_active id now s ≡ true) × (user_by_id user_id s ≡ some u)
  unfolding reads
  reads_sound token_id user_id id now u s s' h = ground arith

  pub refresh_check_sound :
      (token : Token) (now : Time) (u : User) (id : Uuid) (s s' : Store)
      → refresh_check jwt settings token now s ≡ (ok (u, id), s')
      → (s ≡ s') × IsRefreshable token now u id s
  unfolding refresh_check reads
  refresh_check_sound token now u id s s' h =
      let (c, e, h1) =
        try_result-eq-ok (decode_token jwt settings now token ("refresh" ∷ [])) _ s s' _ h in
      let (j, f, h2) = try_result-eq-ok (uuid_claim "jti" c) _ s s' _ h1 in
      let (i, g, h3) = try_result-eq-ok (uuid_claim "sub" c) _ s s' _ h2 in
      let (same, a, b, d) = reads_sound j i id now u s s' h3 in
      let owner : u.id ≡ i = ground (arith, find_holds (λ (v : User). v.id == i) s.users d) in
      (
        same,
        record {
          claims = c;
          decoded = e;
          named = ground (arith, f, a);
          owner = ground (arith, g, owner);
          active = b;
          found = ground (arith, d, owner);
        },
      )

  -- The store after a session of an account is opened
  abbrev pub after_session : Uuid → Time → Store → Store
  after_session user_id now s =
      with_token s.next_id user_id (refresh_expiry settings now)
        (record s { next_id = suc s.next_id })

  abbrev pub after_refresh : Uuid → Uuid → Time → Store → Store
  after_refresh user_id id now s = after_session user_id now (with_revoked id now s)

  pub refresh_issue_lem :
      (now : Time) (u : User) (id : Uuid) (s : Store)
      → (refresh_issue jwt settings now (u, id) s).1 ≡ after_refresh u.id id now s
  unfolding refresh_issue revoke_refresh_token sign_in native_session store_refresh_token
  refresh_issue_lem now u id s = refl

  -- A refresh that gives a session was of an active token, which it has revoked.
  pub native_refresh_sound :
      (token : Token) (now : Time) (r : SignedIn Token) (s s' : Store)
      → native_refresh jwt settings token now s ≡ (ok r, s')
      → (u : User) × (id : Uuid) × IsRefreshable token now u id s
        × (after_refresh u.id id now s ≡ s')
  unfolding native_refresh
  native_refresh_sound token now r s s' h =
      let (a, s1, e, k) =
        bind-eq-ok (refresh_check jwt settings token now) (refresh_issue jwt settings now) s s' r
          h in
      let (same, ready) = refresh_check_sound token now a.0 a.1 s s1 e in
      (
        a.0,
        a.1,
        ready,
        ap (after_refresh a.0.id a.1 now) same
            ∙ sym (refresh_issue_lem now a.0 a.1 s1)
            ∙ ap (λ (x : Result (SignedIn Token) × Store). x.1) k,
      )

  refused :
      (token : Token) (now : Time) (s : Store)
      → refresh_check jwt settings token now s ≡ (err invalid_token, s)
      → native_refresh jwt settings token now s ≡ (err invalid_token, s)
  unfolding native_refresh
  refused token now s h = ap (λ x. proceed x (refresh_issue jwt settings now)) h

  refresh_check_invalid :
      (token : Token) (now : Time) (s : Store)
      → decode_token jwt settings now token ("refresh" ∷ []) ≡ err invalid_token
      → refresh_check jwt settings token now s ≡ (err invalid_token, s)
  unfolding refresh_check
  refresh_check_invalid token now s h = ground arith

  refresh_check_inactive :
      (token : Token) (now : Time) (s : Store) (c : Fields) (id user_id : Uuid)
      → decode_token jwt settings now token ("refresh" ∷ []) ≡ ok c
      → uuid_claim "jti" c ≡ ok id
      → uuid_claim "sub" c ≡ ok user_id
      → is_active id now s ≡ false
      → refresh_check jwt settings token now s ≡ (err invalid_token, s)
  unfolding refresh_check
  refresh_check_inactive token now s c id user_id h j i inactive =
      rw h (rw j (rw i (rw inactive refl)))

  -- A token that was refreshed once is refused where it is not active.
  pub native_refresh_inactive :
      IsJwt jwt
      → (token : Token) (now later : Time) (u : User) (id : Uuid) (s r : Store)
      → IsRefreshable token now u id s
      → is_active id later r ≡ false
      → native_refresh jwt settings token later r ≡ (err invalid_token, r)
  native_refresh_inactive laws token now later u id s r ready inactive =
      refused token later r
        (elim (decode_token_again jwt laws settings token ("refresh" ∷ []) now later ready.claims
          ready.decoded) [
            | inl e ↦ refresh_check_invalid token later r e
            | inr e ↦
                refresh_check_inactive token later r ready.claims id u.id e ready.named ready.owner
                  inactive
          ])

  pub refresh_issue_gives :
      (now : Time) (u : User) (id : Uuid) (s : Store)
      → (t : SignedIn Token) × ((refresh_issue jwt settings now (u, id) s).0 ≡ ok t)
  unfolding refresh_issue revoke_refresh_token sign_in native_session store_refresh_token
  refresh_issue_gives now u id s = (_, refl)
