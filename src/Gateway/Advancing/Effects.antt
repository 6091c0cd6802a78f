-- ===== src/Gateway/Advancing/Effects.antt =====
-- What the writes of a recorded step of a request do.
use urban_farming_backend.Prelude.{
  ◌≡◌, refl, sym, ap, ◌∙◌, ◌≢◌, true, Option, none, some, List, any, update_where, arith,
}
use urban_farming_backend.Db.{Db, ok, pure}
use urban_farming_backend.Db.Rows.{GardenRequest, Report, Uuid}
use urban_farming_backend.Db.Laws.{bind-eq-ok, ok-injective}
use urban_farming_backend.Gateway.Tables.{request_by_id, with_request}
use urban_farming_backend.Gateway.Tables.Laws.{
  update_request-found, request_by_id-with_request, request_by_id-with_request_ne,
}
use urban_farming_backend.Gateway.Stages.{move_stages}
use urban_farming_backend.Gateway.Stages.Laws.{move_stages-rest}
use urban_farming_backend.Gateway.Advancing.{
  Advance, ReportUpdate, is_awaiting, decided, decide_report, advanced_request, move_request,
  stage_advanced, check_advancing, write_advancing, update_garden_request_workflow,
}
use urban_farming_backend.Gateway.Advancing.Laws.{IsAdvanceable, check_advancing_sound}

-- The reports after a decision, if there is one.
abbrev pub decided_reports : Option ReportUpdate → List Report → List Report
decided_reports none reports = reports
decided_reports (some u) reports = update_where (is_awaiting u.report_id) (decided u) reports

-- A report that is decided on was awaiting its decision.
abbrev pub IsAwaited : Option ReportUpdate → List Report → Type 0
IsAwaited none reports = Unit
IsAwaited (some u) reports = any (is_awaiting u.report_id) reports ≡ true

abbrev pub with_decision : Option ReportUpdate → Db → Db
with_decision u db = record db { inspection_reports = decided_reports u db.inspection_reports }

decide_report_sound :
    (u : Option ReportUpdate) (db db' : Db)
    → decide_report u db ≡ ok (tt, db')
    → (with_decision u db ≡ db') × IsAwaited u db.inspection_reports
unfolding decide_report
decide_report_sound none db db' h = (ground arith, tt)
decide_report_sound (some u) db db' h = ground arith

move_request_sound :
    (a : Advance) (r s : GardenRequest) (db db' : Db)
    → request_by_id a.request_id db ≡ some r
    → r.status ≡ a.expected_status
    → move_request a db ≡ ok (s, db')
    → (advanced_request a.request_payload r ≡ s)
      × (with_request a.request_id a.expected_status (advanced_request a.request_payload) db ≡ db')
unfolding move_request
move_request_sound a r s db db' found expected h = ground (
  arith,
  update_request-found a.request_id a.expected_status (advanced_request a.request_payload) db r
      found expected,
)

-- What a recorded step has done; `r` was the request before.
pub record IsAdvanced (a : Advance) (r s : GardenRequest) (db db' : Db) : Type 0 where
  pub ready : IsAdvanceable a r db
  pub returned : advanced_request a.request_payload r ≡ s
  pub stored : request_by_id a.request_id db' ≡ some s
  pub others : (j : Uuid) → j ≢ a.request_id → request_by_id j db' ≡ request_by_id j db
  pub awaited : IsAwaited a.report_update db.inspection_reports
  pub reports : db'.inspection_reports ≡ decided_reports a.report_update db.inspection_reports
  pub installations : db'.installations ≡ db.installations
  pub batches : db'.crop_batches ≡ db.crop_batches

write_advancing-IsAdvanced :
    (a : Advance) (r s : GardenRequest) (db db' : Db)
    → IsAdvanceable a r db
    → write_advancing a db ≡ ok (s, db')
    → IsAdvanced a r s db db'
unfolding write_advancing
write_advancing-IsAdvanced a r s db db' ready h =
    let f = advanced_request a.request_payload in
    let change = stage_advanced a.actor_id a.now in
    let (u, db1, e1, h1) = bind-eq-ok (decide_report a.report_update) _ db (s, db') h in
    let (to1, awaited) = decide_report_sound a.report_update db db1 e1 in
    let (q, db2, e2, h2) = bind-eq-ok (move_request a) _ db1 (s, db') h1 in
    let (returned, to2) =
      move_request_sound a r q db1 db2
        (ap (λ d. request_by_id a.request_id d) (sym to1) ∙ ready.found) ready.expected e2 in
    let (v, db3, e3, h3) =
      bind-eq-ok (move_stages change a.request_id a.stage_updates) (λ v. pure q) db2 (s, db') h2 in
    let out = ok-injective h3 in
    let to3 = move_stages-rest change a.request_id a.stage_updates db2 db3 e3 in
    let after =
      ap (λ (d : Db). record d { workflow_stages = db3.workflow_stages })
        (ap (with_request a.request_id a.expected_status f) to1 ∙ to2)
      ∙ to3
      ∙ ap (λ x. x.1) out in
    record {
      ready = ready;
      returned = returned ∙ ap (λ x. x.0) out;
      stored =
          ap (request_by_id a.request_id) (sym after)
          ∙ request_by_id-with_request a.request_id a.expected_status f (λ r. refl) db r ready.found
              ready.expected
          ∙ ap some (returned ∙ ap (λ x. x.0) out);
      others = λ j ne.
          ap (request_by_id j) (sym after)
          ∙ request_by_id-with_request_ne a.request_id a.expected_status f (λ r. refl) db j ne;
      awaited = awaited;
      reports = ap (λ (d : Db). d.inspection_reports) (sym after);
      installations = ap (λ (d : Db). d.installations) (sym after);
      batches = ap (λ (d : Db). d.crop_batches) (sym after);
    }

-- A step of a request that commits found the request in the expected status; if the step is to
-- `live`, its property has an approved report, an active and dated installation, and crop batches
-- that all grow; an assignment that is named is open on its property. The request then has the
-- columns of the payload, and is what the call returns; a report that is decided on was awaiting its
-- decision; other requests, other reports, the installations and the batches are as before.
pub update_garden_request_workflow-IsAdvanced :
    (a : Advance) (s : GardenRequest) (db db' : Db)
    → update_garden_request_workflow a db ≡ ok (s, db')
    → (r : GardenRequest) × IsAdvanced a r s db db'
unfolding update_garden_request_workflow
update_garden_request_workflow-IsAdvanced a s db db' h =
    let (r, db1, e1, h1) = bind-eq-ok (check_advancing a) (λ r. write_advancing a) db (s, db') h in
    let (same, ready) = check_advancing_sound a r db db1 e1 in
    (r, write_advancing-IsAdvanced a r s db db' ready (rw (← same) at h1))
