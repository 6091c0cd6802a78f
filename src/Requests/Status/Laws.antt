-- ===== src/Requests/Status/Laws.antt =====
-- What the handler of a status update decides, and what the update then does.
use mathlib.Core.Path.{subst}
use urban_farming_backend.Prelude.{
  ◌≡◌, refl, ap, true, ◌&&◌, ◌||◌, ◌=?◌, arith, inl, inr, Bool-cases,
}
use urban_farming_backend.Db.{Db, ok, pure}
use urban_farming_backend.Db.Rows.{GardenRequest}
use urban_farming_backend.Db.Laws.{if-eq-ok, bind-eq-ok, ok-injective}
use urban_farming_backend.Db.Status.{
  RequestStatus, request_status_enum, submitted, inspection_scheduled, rejected, cancelled,
}
use urban_farming_backend.Gateway.Advancing.{Advance}
use urban_farming_backend.Requests.Status.{
  is_cancellable, choose, choose_visit, choose_approval, choose_rejection, choose_activation,
}
use urban_farming_backend.Requests.Status.Branches.{
  Review, find_visit, find_approval, find_rejection, find_activation, advance_with, nothing,
}
use urban_farming_backend.Requests.Lifecycle.{
  Step, schedule, approve, decline, decline_visited, start_work, activate, cancel,
}

-- The call of the transaction agrees with the request that was read.
pub record IsChosen (v : Review) (r : GardenRequest) (a : Advance) : Type 0 where
  pub same : a.request_id ≡ v.request_id
  pub expected : a.expected_status ≡ r.status
  pub target : a.request_payload.status ≡ v.payload.status
  pub moves : Step r.status v.payload.status

Step-at : {s t s' t' : RequestStatus} → Step s t → (t' =? t && s' =? s) ≡ true → Step s' t'
Step-at {s} {t} {s'} {t'} m e =
    let target : t ≡ t' = ground arith in
    let current : s ≡ s' = ground arith in subst (Step s') target (subst (λ x. Step x t) current m)

module _ (v : Review) (r : GardenRequest) (a : Advance) (db db' : Db) where
  choose_visit_sound :
      Step r.status v.payload.status → choose_visit v r db ≡ ok (a, db') → IsChosen v r a
  unfolding choose_visit
  choose_visit_sound m h =
      let (f, db1, e1, h1) = bind-eq-ok (find_visit r) _ db (a, db') h in
      subst (IsChosen v r) (ap (λ x. x.0) (ok-injective h1))
        (record { same = refl; expected = refl; target = refl; moves = m })

  choose_approval_sound :
      Step r.status v.payload.status → choose_approval v r db ≡ ok (a, db') → IsChosen v r a
  unfolding choose_approval
  choose_approval_sound m h =
      let (f, db1, e1, h1) = bind-eq-ok (find_approval r v.payload) _ db (a, db') h in
      subst (IsChosen v r) (ap (λ x. x.0) (ok-injective h1))
        (record { same = refl; expected = refl; target = refl; moves = m })

  choose_rejection_sound :
      Step r.status v.payload.status → choose_rejection v r db ≡ ok (a, db') → IsChosen v r a
  unfolding choose_rejection
  choose_rejection_sound m h =
      let (f, db1, e1, h1) =
        bind-eq-ok (find_rejection r) (λ f. pure (advance_with v r f)) db (a, db') h in
      subst (IsChosen v r) (ap (λ x. x.0) (ok-injective h1))
        (record { same = refl; expected = refl; target = refl; moves = m })

  choose_activation_sound :
      Step r.status v.payload.status → choose_activation v r db ≡ ok (a, db') → IsChosen v r a
  unfolding choose_activation
  choose_activation_sound m h =
      let (u, db1, e1, h1) = bind-eq-ok (find_activation r) _ db (a, db') h in
      subst (IsChosen v r) (ap (λ x. x.0) (ok-injective h1))
        (record { same = refl; expected = refl; target = refl; moves = m })

  choose_nothing_sound :
      Step r.status v.payload.status
      → pure (advance_with v r nothing) db ≡ ok (a, db')
      → IsChosen v r a
  choose_nothing_sound m h =
      subst (IsChosen v r) (ap (λ x. x.0) (ok-injective h))
        (record { same = refl; expected = refl; target = refl; moves = m })

  Step-decline :
      (v.payload.status =? rejected && (r.status =? submitted || r.status =? inspection_scheduled))
        ≡ true
      → Step r.status v.payload.status
  Step-decline e = elim (Bool-cases (r.status =? submitted)) [
    | inl s ↦ Step-at decline (ground arith)
    | inr n ↦ Step-at decline_visited (ground arith)
  ]

  Step-cancel :
      (v.payload.status =? cancelled && is_cancellable r.status) ≡ true
      → Step r.status v.payload.status
  Step-cancel e =
      let target : cancelled ≡ v.payload.status = ground arith in
      subst (Step r.status) target (cancel (ground arith))

  pub choose-IsChosen : choose v r db ≡ ok (a, db') → IsChosen v r a
  unfolding choose
  choose-IsChosen =
      if-eq-ok _ _ _ db (a, db') (λ c. choose_visit_sound (Step-at schedule c))
        (λ c.
          if-eq-ok _ _ _ db (a, db') (λ c. choose_approval_sound (Step-at approve c))
            (λ c.
              if-eq-ok _ _ _ db (a, db') (λ c. choose_rejection_sound (Step-decline c))
                (λ c.
                  if-eq-ok _ _ _ db (a, db') (λ c. choose_nothing_sound (Step-at start_work c))
                    (λ c.
                      if-eq-ok _ _ _ db (a, db') (λ c. choose_activation_sound (Step-at activate c))
                        (λ c.
                          if-eq-ok _ _ _ db (a, db') (λ c. choose_nothing_sound (Step-cancel c))
                            (λ c h. ground arith))))))
