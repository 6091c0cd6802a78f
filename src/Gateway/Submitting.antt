-- ===== src/Gateway/Submitting.antt =====
-- `PostgresGateway.submit_inspection_for_approval` (app/infrastructure/postgres_gateway.py).
pub mod Laws
use urban_farming_backend.Prelude.{
  Bool, not, ◌&&◌, ◌||◌, Option, none, some, String, List, is_empty, any, find, where_,
  update_where, ◌==◌, ◌=?◌,
}
use urban_farming_backend.Json.{null}
use urban_farming_backend.Db.{
  Db, Tx, pure, query, or_raise, raise_if, execute, app_error, conflict, not_found, no_result_found,
  ◌>>=◌, ◌>>◌,
}
use urban_farming_backend.Db.Rows.{Assessment, Assignment, Report, ChecklistItem, Photo, Uuid, Time}
use urban_farming_backend.Db.Status.{AssignmentStatus, AssessmentStatus, assessment_status_enum}
use urban_farming_backend.Inspections.Evidence.{inspection_evidence_gaps}

-- The arguments of the call, and the database's `now()`.
pub record Submission : Type 0 where
  pub report_id : Uuid
  pub assignment_id : Uuid
  pub inspector_id : Uuid
  pub assessment : Assessment
  pub submitted_at : Time
  pub db_now : Time

abbrev pub report_by_id : Uuid → Db → Option Report
report_by_id report_id db = find (λ r. r.id == report_id) db.inspection_reports

abbrev pub is_report_of : Submission → Report → Bool
is_report_of c r = r.assignment_id == c.assignment_id && r.inspector_id == c.inspector_id

-- The locked report, the inspector's own, which is not yet submitted.
pub submitted_report : Submission → Tx Report
submitted_report c = do
  row ← query (report_by_id c.report_id)
  report ← or_raise row (not_found "inspection_report_not_found")
  raise_if (not (is_report_of c report)) (not_found "inspection_report_not_found")
  raise_if (report.assessment_status =? AssessmentStatus.submitted_for_approval)
      (conflict "assessment_already_submitted")
  pure report

-- `WHERE id=:assignment_id AND inspector_id=:inspector_id`
abbrev pub assignment_of : Submission → Db → Option Assignment
assignment_of c db =
    find (λ a. a.id == c.assignment_id && a.inspector_id == c.inspector_id)
      db.inspection_assignments

abbrev pub items_of : Uuid → Db → List ChecklistItem
items_of report_id db = where_ (λ i. i.report_id == report_id) db.inspection_checklist_items

abbrev pub photos_of : Uuid → Db → List Photo
photos_of report_id db = where_ (λ p. p.report_id == report_id) db.inspection_photos

abbrev pub gaps_of : Uuid → Db → List String × List String
gaps_of report_id db = inspection_evidence_gaps (photos_of report_id db) (items_of report_id db)

pub check_submission : Submission → Tx Report
check_submission c = do
  report ← submitted_report c
  row ← query (assignment_of c)
  assignment ← or_raise row (not_found "inspection_assignment_not_found")
  items ← query (items_of c.report_id)
  raise_if (is_empty items) (conflict "inspection_checklist_missing")
  gaps ← query (gaps_of c.report_id)
  raise_if (not (is_empty gaps.0) || not (is_empty gaps.1))
      (app_error 422 "inspection_evidence_incomplete" null)
  pure report

abbrev pub submitted : Submission → Report → Report
submitted c r = record r {
  assessment = c.assessment;
  assessment_status = AssessmentStatus.submitted_for_approval;
  submitted_at = some c.submitted_at;
  updated_at = c.db_now;
}

abbrev pub completed : Submission → Assignment → Assignment
completed c a = record a {
  status = AssignmentStatus.completed;
  completed_at = some c.submitted_at;
  updated_at = c.db_now;
}

abbrev pub with_submitted : Submission → Db → Db
with_submitted c db = record db {
  inspection_reports = update_where (λ r. r.id == c.report_id) (submitted c) db.inspection_reports;
}

abbrev pub with_completed : Submission → Db → Db
with_completed c db = record db {
  inspection_assignments =
      update_where (λ a. a.id == c.assignment_id) (completed c) db.inspection_assignments;
}

-- The update of the report, whose `.one()` raises where there is none, and of the assignment.
pub write_submission : Submission → Tx Report
write_submission c = do
  row ← query (report_by_id c.report_id)
  report ← or_raise row no_result_found
  execute (with_submitted c)
  execute (with_completed c)
  pure (submitted c report)

pub submit_inspection_for_approval : Submission → Tx Report
submit_inspection_for_approval c = do report ← check_submission c; write_submission c
