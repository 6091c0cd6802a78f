-- ===== src/Auth/Sessions/Race.antt =====
-- Two refreshes of one token at the same time: the check and the revocation of `_native_refresh`
-- (app/routers/auth.py) are separate transactions.
use urban_farming_backend.Prelude.{◌≡◌, ap, ◌∙◌, ◌<◌, suc, true, false, arith, ==_refl}
use urban_farming_backend.Db.{ok}
use urban_farming_backend.Db.Rows.{Uuid, Time}
use urban_farming_backend.Auth.Store.{User, Store}
use urban_farming_backend.Auth.Store.Tokens.{with_revoked}
use urban_farming_backend.Auth.Store.Views.{
  view, any-below, IsFresh, view-with_token, view-with_revoked,
}
use urban_farming_backend.Auth.Store.Tokens.{is_live}
use urban_farming_backend.Auth.Tokens.{Settings, Jwt, refresh_expiry}
use urban_farming_backend.Auth.Sessions.{SignedIn, refresh_check, refresh_issue}
use urban_farming_backend.Auth.Sessions.Rotation.{
  after_session, after_refresh, refresh_issue_lem, refresh_check_sound, refresh_issue_gives,
}

-- A session that is opened is open.
after_session-opens :
    {Token : Type 0} (jwt : Jwt Token) (settings : Settings) (user_id : Uuid) (now : Time)
    (s : Store)
    → view (after_session jwt settings user_id now s) s.next_id user_id ≡ true
after_session-opens jwt settings user_id now s =
    view-with_token s.next_id user_id s.next_id user_id (refresh_expiry settings now) s
    ∙ ground (arith, ==_refl s.next_id, ==_refl user_id)

module _ {Token : Type 0} (jwt : Jwt Token) (settings : Settings) where
  -- Two refreshes of one token
  pub record IsDoubled (u : User) (first second : Time) (id : Uuid) (s : Store) : Type 0 where
    pub answers :
        (a b : SignedIn Token) × ((refresh_issue jwt settings first (u, id) s).0 ≡ ok a)
        × ((refresh_issue jwt settings second
              (u, id)
              (refresh_issue jwt settings first (u, id) s).1).0
            ≡ ok b)
    pub one :
        view
          (refresh_issue jwt settings second
            (u, id)
            (refresh_issue jwt settings first (u, id) s).1).1
          s.next_id
          u.id
        ≡ true
    pub other :
        view
          (refresh_issue jwt settings second
            (u, id)
            (refresh_issue jwt settings first (u, id) s).1).1
          (suc s.next_id)
          u.id
        ≡ true
    -- the token that both were made with is closed
    pub gone :
        (j : Uuid)
        → view
            (refresh_issue jwt settings second
              (u, id)
              (refresh_issue jwt settings first (u, id) s).1).1
            id
            j
          ≡ false

  -- Where two refreshes of one token both make their checks before either revokes it, both give a
  -- session: the account has two open sessions in the place of the one, whose token is revoked.
  pub refresh_issue_race :
      (token : Token) (now first second : Time) (u : User) (id : Uuid) (s : Store)
      → IsFresh s
      → refresh_check jwt settings token now s ≡ (ok (u, id), s)
      → IsDoubled u first second id s
  refresh_issue_race token now first second u id s fresh checked =
      let ready = (refresh_check_sound jwt settings token now u id s s checked).1 in
      let below : id < s.next_id =
        any-below id s.next_id (is_live now) s.refresh_tokens fresh ready.active in
      let s1 = after_refresh jwt settings u.id id first s in
      let (a, gives) = refresh_issue_gives jwt settings first u id s in
      let (b, gives2) =
        refresh_issue_gives jwt settings second u id
          (refresh_issue jwt settings first (u, id) s).1 in
      let first_open = after_session-opens jwt settings u.id first (with_revoked id first s) in
      let still = view-with_revoked id s.next_id u.id second s1 in
      let kept =
        view-with_token s1.next_id u.id s.next_id u.id (refresh_expiry settings second)
          (with_revoked id second s1)
        ∙ ground (arith, still, first_open, below) in
      record {
        answers = (a, b, gives, gives2);
        one =
            ap (λ (r : Store). view (refresh_issue jwt settings second (u, id) r).1 s.next_id u.id)
              (refresh_issue_lem jwt settings first u id s)
            ∙ ap (λ (r : Store). view r s.next_id u.id)
                (refresh_issue_lem jwt settings second u id s1)
            ∙ kept;
        other =
            ap
              (λ (r : Store).
                view (refresh_issue jwt settings second (u, id) r).1 (suc s.next_id) u.id)
              (refresh_issue_lem jwt settings first u id s)
            ∙ ap (λ (r : Store). view r (suc s.next_id) u.id)
                (refresh_issue_lem jwt settings second u id s1)
            ∙ after_session-opens jwt settings u.id second (with_revoked id second s1);
        gone = λ j.
            ap (λ (r : Store). view (refresh_issue jwt settings second (u, id) r).1 id j)
              (refresh_issue_lem jwt settings first u id s)
            ∙ ap (λ (r : Store). view r id j) (refresh_issue_lem jwt settings second u id s1)
            ∙ view-with_token s1.next_id u.id id j (refresh_expiry settings second)
                (with_revoked id second s1)
            ∙ ground (arith, view-with_revoked id id j second s1, below);
      }
