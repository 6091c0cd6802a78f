-- ===== src/Requests/Status/Effects.antt =====
-- What a status update that commits has done.
use mathlib.Core.Path.{subst}
use urban_farming_backend.Prelude.{
  ◌≡◌, refl, sym, ap, ◌∙◌, Bool, true, false, Option, none, some, any, ◌&&◌, ◌||◌, ◌=?◌, ◌≤◌, ltb,
  strip, text_length, String, arith,
}
use urban_farming_backend.Db.{Db, Result, conflict, ok, err, pure}
use urban_farming_backend.Db.Rows.{GardenRequest, Report}
use urban_farming_backend.Db.Laws.{raise-eq-ok, if-eq-ok, or_raise-eq-ok}
use urban_farming_backend.Db.Status.{
  RequestStatus, request_status_enum, inspection_scheduled, accepted, submitted, final_install,
  rejected, needing_implements, live, cancelled, AssessmentStatus, Band, Band-discrete,
  RequestStatus-discrete,
}
use urban_farming_backend.Gateway.Tables.{request_by_id}
use urban_farming_backend.Gateway.Advancing.{Advance, is_awaiting}
use urban_farming_backend.Gateway.Advancing.Effects.{
  IsAdvanced, IsAwaited, decided_reports, update_garden_request_workflow-IsAdvanced,
}
use urban_farming_backend.Requests.Status.{
  is_cancellable, choose, choose_visit, choose_approval, choose_rejection, choose_activation,
  decide, after_decision, update_garden_request_status,
}
use urban_farming_backend.Requests.Status.Branches.{
  Review, of_property, submitted_report, text_of, lacks_rationale, nothing, advance_with,
  notes_or_kept,
}
use urban_farming_backend.Requests.Status.Laws.{IsChosen, choose-IsChosen}
use urban_farming_backend.Requests.Lifecycle.{Step}

decide-IsChosen :
    (v : Review) (a : Advance) (seen seen' : Db)
    → decide v seen ≡ ok (a, seen')
    → (q : GardenRequest) × (choose v q seen ≡ ok (a, seen')) × IsChosen v q a
unfolding decide
decide-IsChosen v a seen seen' h =
    let (q, found, h1) =
      or_raise-eq-ok (request_by_id v.request_id seen) _ (λ q. choose v q) seen (a, seen') h in
    (q, h1, choose-IsChosen v q a seen seen' h1)

-- What a status update has done: `a` is the call of the transaction, `r` the request before it.
pub record IsMoved (v : Review) (a : Advance) (r s : GardenRequest) (db db' : Db) : Type 0 where
  pub before : request_by_id v.request_id db ≡ some r
  pub after : request_by_id v.request_id db' ≡ some s
  pub moves : Step r.status s.status
  pub target : s.status ≡ v.payload.status
  pub advanced : IsAdvanced a r s db db'

decided_sound :
    (x : Result (Advance × Db)) (s : GardenRequest) (db db' : Db)
    → after_decision x db ≡ ok (s, db')
    → (a : Advance) × (seen' : Db) × (r : GardenRequest) × (x ≡ ok (a, seen'))
      × IsAdvanced a r s db db'
decided_sound (ok (a, seen')) s db db' h =
    let (r, advanced) = update_garden_request_workflow-IsAdvanced a s db db' h in
    (a, seen', r, refl, advanced)
decided_sound (err e) s db db' h = cc

chosen-IsMoved :
    (v : Review) (q : GardenRequest) (a : Advance) (r s : GardenRequest) (db db' : Db)
    → IsChosen v q a
    → IsAdvanced a r s db db'
    → IsMoved v a r s db db'
chosen-IsMoved v q a r s db db' chosen advanced =
    let target : s.status ≡ v.payload.status =
      sym (ap (λ (x : GardenRequest). x.status) advanced.returned) ∙ chosen.target in
    record {
      before = ap (λ i. request_by_id i db) (sym chosen.same) ∙ advanced.ready.found;
      after = ap (λ i. request_by_id i db') (sym chosen.same) ∙ advanced.stored;
      moves =
          subst (λ x. Step x s.status) (sym (advanced.ready.expected ∙ chosen.expected))
            (subst (Step q.status) (sym target) chosen.moves);
      target = target;
      advanced = advanced;
    }

-- A status update that commits makes a move of the life cycle, from the status that the request has
-- when the transaction runs, whatever the handler's own reads saw, to the status that was asked for;
-- and it has done what the transaction promises.
pub update_garden_request_status-IsMoved :
    (v : Review) (seen : Db) (s : GardenRequest) (db db' : Db)
    → update_garden_request_status v seen db ≡ ok (s, db')
    → (a : Advance) × (r : GardenRequest) × IsMoved v a r s db db'
unfolding update_garden_request_status
update_garden_request_status-IsMoved v seen s db db' h =
    let (a, seen', r, decided, advanced) = decided_sound (decide v seen) s db db' h in
    let (q, chose, chosen) = decide-IsChosen v a seen seen' decided in
    (a, r, chosen-IsMoved v q a r s db db' chosen advanced)

-- A branch for another target is not taken.
other_target :
    {A : Type 0} (x t : RequestStatus) (b : Bool)
    → x ≡ accepted
    → (accepted =? t) ≡ false
    → (x =? t && b) ≡ true
    → A
other_target x t b e ne c = ground arith

choose-accepted :
    (v : Review) (q : GardenRequest) (a : Advance) (db db' : Db)
    → v.payload.status ≡ accepted
    → choose v q db ≡ ok (a, db')
    → choose_approval v q db ≡ ok (a, db')
unfolding choose RequestStatus-discrete
choose-accepted v q a db db' e =
    if-eq-ok _ (choose_visit v q) _ db (a, db')
      (λ c h. other_target v.payload.status inspection_scheduled (q.status =? submitted) e refl c)
      (λ c.
        if-eq-ok (v.payload.status =? accepted && q.status =? inspection_scheduled)
          (choose_approval v q) _ db (a, db') (λ c h. h)
          (λ c.
            if-eq-ok _ (choose_rejection v q) _ db (a, db')
              (λ c h.
                other_target v.payload.status rejected
                  (q.status =? submitted || q.status =? inspection_scheduled) e refl c)
              (λ c.
                if-eq-ok _ (pure (advance_with v q nothing)) _ db (a, db')
                  (λ c h.
                    other_target v.payload.status needing_implements (q.status =? accepted) e refl
                      c)
                  (λ c.
                    if-eq-ok _ (choose_activation v q) _ db (a, db')
                      (λ c h.
                        other_target v.payload.status live (q.status =? final_install) e refl c)
                      (λ c.
                        if-eq-ok _ (pure (advance_with v q nothing)) _ db (a, db')
                          (λ c h.
                            other_target v.payload.status cancelled (is_cancellable q.status) e refl
                              c)
                          (λ c.
                            raise-eq-ok (conflict "invalid_request_transition") db (a, db')))))))

-- The report that an approval decides on.
choose_approval-read :
    (v : Review) (q : GardenRequest) (a : Advance) (db db' : Db) (o : Option Report)
    → of_property q.property_id (λ p. submitted_report p db) ≡ o
    → choose_approval v q db ≡ ok (a, db')
    → (t : Report) × (o ≡ some t)
      × (lacks_rationale t v.payload.admin_notes ≡ false)
      × (a.report_update
          ≡ some (record {
            report_id = t.id;
            status = AssessmentStatus.approved;
            notes = some (notes_or_kept v.payload.admin_notes t.assessment.notes);
          }))
unfolding choose_approval
choose_approval-read v q a db db' none e h = ground arith
choose_approval-read v q a db db' (some t) e h =
    let (given_reason, chosen) = approving t e h in
    (t, refl, given_reason, ap (λ (x : Advance). x.report_update) (sym chosen))
  where
    approving :
        (t : Report)
        → of_property q.property_id (λ p. submitted_report p db) ≡ some t
        → choose_approval v q db ≡ ok (a, db')
        → (lacks_rationale t v.payload.admin_notes ≡ false)
          × (advance_with v q
                (record { assignment_id = none; to_approve = some t; to_reject = none })
              ≡ a)
    approving t e h = ground arith

lacks_rationale-reason :
    (t : Report) (notes : Option String)
    → lacks_rationale t notes ≡ false
    → t.assessment.suitability_band ≡ some Band.not_suitable
    → 20 ≤ text_length (strip (text_of notes))
unfolding Band-discrete
lacks_rationale-reason t notes h e =
    let short : ltb (text_length (strip (text_of notes))) 20 ≡ false = rw e at h in
    ground (arith, short)

-- What an approval has decided on: the report `t`, which was awaiting a decision when the transaction
-- ran.
pub record IsApproved (v : Review) (t : Report) (seen db db' : Db) : Type 0 where
  pub request : GardenRequest
  pub known : request_by_id v.request_id seen ≡ some request
  pub latest : of_property request.property_id (λ p. submitted_report p seen) ≡ some t
  pub reasoned :
      t.assessment.suitability_band ≡ some Band.not_suitable
      → 20 ≤ text_length (strip (text_of v.payload.admin_notes))
  pub awaited : any (is_awaiting t.id) db.inspection_reports ≡ true
  pub decided :
      db'.inspection_reports
      ≡ decided_reports
          (some (record {
            report_id = t.id;
            status = AssessmentStatus.approved;
            notes = some (notes_or_kept v.payload.admin_notes t.assessment.notes);
          }))
          db.inspection_reports

-- An approval that commits decides on the report that the handler's own read gave as the latest one
-- submitted for the request's property. Where that read had the band `not_suitable`, the notes have at
-- least 20 characters without the blanks at their ends; the band of the row when the transaction runs
-- is not looked at. The row of that report is then still awaiting its decision; it is approved, with
-- the administrator's notes or else those that were read, and is the only one that changes.
pub update_garden_request_status-IsApproved :
    (v : Review) (seen : Db) (s : GardenRequest) (db db' : Db)
    → v.payload.status ≡ accepted
    → update_garden_request_status v seen db ≡ ok (s, db')
    → (t : Report) × IsApproved v t seen db db'
unfolding update_garden_request_status decide
update_garden_request_status-IsApproved v seen s db db' e h =
    let (a, seen', r, decided, advanced) = decided_sound (decide v seen) s db db' h in
    let (q, known, chose) =
      or_raise-eq-ok (request_by_id v.request_id seen) _ (λ q. choose v q) seen (a, seen')
        decided in
    let (t, latest, reasoned, update) =
      choose_approval-read v q a seen seen' _ refl (choose-accepted v q a seen seen' e chose) in
    (
      t,
      record {
        request = q;
        known = known;
        latest = latest;
        reasoned = lacks_rationale-reason t v.payload.admin_notes reasoned;
        awaited = subst (λ u. IsAwaited u db.inspection_reports) update advanced.awaited;
        decided = advanced.reports ∙ ap (λ u. decided_reports u db.inspection_reports) update;
      },
    )
