-- ===== src/Gateway/Submitting/Laws.antt =====
-- What a submitted inspection has checked and changed.
use mathlib.Core.Path.{subst}
use urban_farming_backend.Prelude.{
  ◌≡◌, refl, ◌≢◌, true, false, none, some, [], all, find_holds, find-update_where,
  find-update_where_ne, arith, ◌==◌, ◌&&◌, is_empty,
}
use urban_farming_backend.Db.{Db, ok}
use urban_farming_backend.Db.Rows.{Report, Assignment, Uuid}
use urban_farming_backend.Db.Status.{AssessmentStatus, assessment_status_enum}
use urban_farming_backend.Db.Laws.{checked-eq-ok, bind-ok}
use urban_farming_backend.Inspections.Evidence.Laws.{is_documented, inspection_evidence_gaps-empty}
use urban_farming_backend.Gateway.Submitting.{
  Submission, report_by_id, is_report_of, submitted_report, assignment_of, items_of, photos_of,
  gaps_of, check_submission, submitted, completed, with_submitted, with_completed, write_submission,
  submit_inspection_for_approval,
}

-- What has to hold before an inspection is submitted.
pub record IsSubmittable (c : Submission) (r : Report) (db : Db) : Type 0 where
  pub found : report_by_id c.report_id db ≡ some r
  pub own : is_report_of c r ≡ true
  pub unsubmitted : r.assessment_status ≢ AssessmentStatus.submitted_for_approval
  pub assigned : assignment_of c db ≢ none
  pub some_item : is_empty (items_of c.report_id db) ≡ false
  pub no_gap : gaps_of c.report_id db ≡ ([], [])

check_submission_sound :
    (c : Submission) (r : Report) (db db' : Db)
    → check_submission c db ≡ ok (r, db')
    → (db ≡ db') × IsSubmittable c r db
unfolding check_submission submitted_report
check_submission_sound c r db db' h = ground arith

check_submission-ready :
    (c : Submission) (r : Report) (db : Db)
    → IsSubmittable c r db
    → check_submission c db ≡ ok (r, db)
unfolding check_submission submitted_report
check_submission-ready c r db h = ground arith

abbrev pub after_submission : Submission → Db → Db
after_submission c db = with_completed c (with_submitted c db)

write_submission-ready :
    (c : Submission) (r : Report) (db : Db)
    → IsSubmittable c r db
    → write_submission c db ≡ ok (submitted c r, after_submission c db)
unfolding write_submission
write_submission-ready c r db h = ground arith

-- What a submitted inspection has done.
pub record IsSubmitted (c : Submission) (r s : Report) (db db' : Db) : Type 0 where
  pub ready : IsSubmittable c r db
  pub returned : submitted c r ≡ s
  pub documented : all (is_documented (photos_of c.report_id db)) (items_of c.report_id db) ≡ true
  pub stored : report_by_id c.report_id db' ≡ some s
  pub closed :
      (a : Assignment) → assignment_of c db ≡ some a → assignment_of c db' ≡ some (completed c a)
  pub others : (j : Uuid) → j ≢ c.report_id → report_by_id j db' ≡ report_by_id j db

after_submission-closed :
    (c : Submission) (a : Assignment) (db : Db)
    → assignment_of c db ≡ some a
    → assignment_of c (after_submission c db) ≡ some (completed c a)
after_submission-closed c a db found = ground (
  arith,
  find-update_where
      (λ (x : Assignment). x.id == c.assignment_id && x.inspector_id == c.inspector_id)
      (λ x. x.id == c.assignment_id) (completed c) (λ x. refl) db.inspection_assignments,
  find_holds (λ (x : Assignment). x.id == c.assignment_id && x.inspector_id == c.inspector_id)
      db.inspection_assignments found,
)

after_submission-stored :
    (c : Submission) (r : Report) (db : Db)
    → report_by_id c.report_id db ≡ some r
    → report_by_id c.report_id (after_submission c db) ≡ some (submitted c r)
after_submission-stored c r db found = ground (
  arith,
  find-update_where (λ (x : Report). x.id == c.report_id) (λ x. x.id == c.report_id) (submitted c)
      (λ x. refl) db.inspection_reports,
  find_holds (λ (x : Report). x.id == c.report_id) db.inspection_reports found,
)

after_submission-IsSubmitted :
    (c : Submission) (r : Report) (db : Db)
    → IsSubmittable c r db
    → IsSubmitted c r (submitted c r) db (after_submission c db)
after_submission-IsSubmitted c r db ready = record {
  ready = ready;
  returned = refl;
  documented =
      (inspection_evidence_gaps-empty (photos_of c.report_id db) (items_of c.report_id db)).0
        ready.no_gap;
  stored = after_submission-stored c r db ready.found;
  closed = λ a found. after_submission-closed c a db found;
  others = λ j ne.
      find-update_where_ne (λ x. x.id == j) (λ x. x.id == c.report_id) (submitted c) (λ x. refl)
        (λ x e. ground arith) db.inspection_reports;
}

-- A submission that commits is the inspector's own report, which was not awaiting approval, with a
-- checklist in which every item that requires a photo has a result and a photo. The report then
-- holds the assessment and awaits approval, its assignment is completed, and other reports are as
-- before.
pub submit_inspection_for_approval-IsSubmitted :
    (c : Submission) (s : Report) (db db' : Db)
    → submit_inspection_for_approval c db ≡ ok (s, db')
    → (r : Report) × IsSubmitted c r s db db'
unfolding submit_inspection_for_approval
submit_inspection_for_approval-IsSubmitted c s db db' h =
    let (r, ready, same) =
      checked-eq-ok (check_submission c) (λ r. write_submission c) db (λ r. IsSubmittable c r db)
        (λ r. (submitted c r, after_submission c db)) (λ r db1. check_submission_sound c r db db1)
        (λ r k. write_submission-ready c r db k) (s, db') h in
    (r, subst (λ y. IsSubmitted c r y.0 db y.1) same (after_submission-IsSubmitted c r db ready))

-- A submission that nothing is missing from is accepted: also of a report that was approved, or
-- rejected, or sent back.
pub submit_inspection_for_approval-commits :
    (c : Submission) (r : Report) (db : Db)
    → IsSubmittable c r db
    → submit_inspection_for_approval c db ≡ ok (submitted c r, after_submission c db)
unfolding submit_inspection_for_approval
submit_inspection_for_approval-commits c r db ready =
    bind-ok (check_submission c) (λ r. write_submission c) db db r _
      (check_submission-ready c r db ready) (write_submission-ready c r db ready)
