-- ===== src/Gateway/Tests/Submission.antt =====
-- A submission on the sample database, of a report that was approved before.
use urban_farming_backend.Prelude.{◌≡◌, refl, true, none, some, [], ◌∷◌}
use urban_farming_backend.Db.{Db, ok}
use urban_farming_backend.Db.Rows.{Report, ChecklistItem, Photo}
use urban_farming_backend.Db.Status.{
  final_install, AssignmentStatus, AssessmentStatus, CheckResult, CheckResult-discrete,
}
use urban_farming_backend.Gateway.Sample.{sample, report_in, blank_assessment}
use urban_farming_backend.Inspections.Evidence.{inspection_evidence_gaps, lacks_result, lacks_photo}
use urban_farming_backend.Gateway.Submitting.{Submission, submitted, submit_inspection_for_approval}
use urban_farming_backend.Gateway.Submitting.Laws.{
  IsSubmittable, IsSubmitted, after_submission, submit_inspection_for_approval-IsSubmitted,
  submit_inspection_for_approval-commits,
}

abbrev item : ChecklistItem
item = record {
  id = 90;
  report_id = 40;
  category = "Crop health";
  item_name = "Leaves";
  result = CheckResult.pass;
  comment = none;
  requires_photo = true;
  sort_order = 0;
}

abbrev photo : Photo
photo = record { id = 91; report_id = 40; checklist_item_id = some 90; photo_type = "other" }

abbrev inspected : Db
inspected =
    record (sample final_install AssignmentStatus.completed AssessmentStatus.approved [] []) {
      inspection_checklist_items = item ∷ [];
      inspection_photos = photo ∷ [];
    }

abbrev submission : Submission
submission = record {
  report_id = 40;
  assignment_id = 30;
  inspector_id = 3;
  assessment = blank_assessment;
  submitted_at = 500;
  db_now = 500;
}

submission-ready : IsSubmittable submission (report_in AssessmentStatus.approved) inspected
unfolding inspection_evidence_gaps lacks_result lacks_photo CheckResult-discrete
submission-ready = record {
  found = refl;
  own = refl;
  unsubmitted = λ e. cc;
  assigned = λ e. cc;
  some_item = refl;
  no_gap = refl;
}

submit_inspection_for_approval-commits_example :
    submit_inspection_for_approval submission inspected
    ≡ ok (
      submitted submission (report_in AssessmentStatus.approved),
      after_submission submission inspected,
    )
submit_inspection_for_approval-commits_example =
    submit_inspection_for_approval-commits submission (report_in AssessmentStatus.approved)
      inspected submission-ready

submit_inspection_for_approval-IsSubmitted_example :
    (r : Report) × IsSubmitted submission r
      (submitted submission (report_in AssessmentStatus.approved))
      inspected
      (after_submission submission inspected)
submit_inspection_for_approval-IsSubmitted_example =
    submit_inspection_for_approval-IsSubmitted submission
      (submitted submission (report_in AssessmentStatus.approved)) inspected
      (after_submission submission inspected) submit_inspection_for_approval-commits_example
