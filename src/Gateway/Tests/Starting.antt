-- ===== src/Gateway/Tests/Starting.antt =====
-- An inspection that is started twice on a database with an assignment and no report.
use urban_farming_backend.Prelude.{◌≡◌, refl, none, []}
use urban_farming_backend.Db.{Db, ok}
use urban_farming_backend.Db.Rows.{Assignment, Report}
use urban_farming_backend.Db.Status.{
  inspection_scheduled, AssignmentStatus, AssessmentStatus, AssignmentStatus-discrete,
}
use urban_farming_backend.Gateway.Sample.{sample, report_in, outcome, ok-outcome}
use urban_farming_backend.Gateway.Starting.{
  Start, checklist_template, open_report, start_inspection_report,
}
use urban_farming_backend.Gateway.Starting.Laws.{
  IsStarted, start_inspection_report-IsStarted, start_inspection_report-again,
}

abbrev assigned : Db
assigned =
    record (sample inspection_scheduled AssignmentStatus.pending AssessmentStatus.draft [] []) {
      inspection_reports = [];
    }

abbrev start : Start
start = record {
  assignment_id = 30;
  inspector_id = 3;
  gps_lat = none;
  gps_lng = none;
  template = checklist_template;
  db_now = 500;
}

abbrev once : Report × Db
once = outcome (start_inspection_report start assigned) (report_in AssessmentStatus.draft, assigned)

abbrev twice : Report × Db
twice = outcome (start_inspection_report start once.1) (report_in AssessmentStatus.draft, assigned)

once-runs : start_inspection_report start assigned ≡ ok once
unfolding start_inspection_report open_report AssignmentStatus-discrete
once-runs =
    ok-outcome (start_inspection_report start assigned) (report_in AssessmentStatus.draft, assigned)
      refl

twice-runs : start_inspection_report start once.1 ≡ ok twice
unfolding start_inspection_report open_report AssignmentStatus-discrete
twice-runs =
    ok-outcome (start_inspection_report start once.1) (report_in AssessmentStatus.draft, assigned)
      refl

start_inspection_report-IsStarted_example :
    (a : Assignment) × IsStarted start a once.0 assigned once.1
start_inspection_report-IsStarted_example =
    start_inspection_report-IsStarted start once.0 assigned once.1 once-runs

start_inspection_report-again_example :
    (twice.0 ≡ once.0)
    × (twice.1.inspection_reports ≡ once.1.inspection_reports)
    × (twice.1.inspection_checklist_items ≡ once.1.inspection_checklist_items)
start_inspection_report-again_example =
    start_inspection_report-again start start once.0 twice.0 assigned once.1 twice.1 refl refl
      once-runs twice-runs
