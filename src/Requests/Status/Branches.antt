-- ===== src/Requests/Status/Branches.antt =====
-- What the branches of `update_garden_request_status` (app/routers/gardens.py) read, and the calls of
-- the transaction that they make.
use urban_farming_backend.Prelude.{
  Bool, not, ◌&&◌, ◌||◌, Option, none, some, String, List, [], ◌∷◌, is_empty, is_some, all, find,
  where_, ltb, leb, ◌==◌, ◌=?◌, if◌then◌else◌, strip, text_length,
}
use text.Mathlib.Text.{◌==◌ as str_eq}
use urban_farming_backend.Json.{
  Json, str, uuid, stamp, obj, end, field, merge, as_dict, opt_text, opt_uuid,
}
use urban_farming_backend.Db.{Db, Tx, pure, query, or_raise, raise_if, conflict, ◌>>=◌, ◌>>◌}
use urban_farming_backend.Db.Rows.{GardenRequest, Assignment, Report, Installation, Uuid, Time}
use urban_farming_backend.Db.Status.{
  inspection_scheduled, accepted, needing_implements, RequestStatus, request_status_enum,
  AssessmentStatus, assessment_status_enum, InstallationStatus, installation_status_enum, Band,
  band_enum, StageKey, StageStatus,
}
use urban_farming_backend.Gateway.Tables.{approved_report, batches_of}
use urban_farming_backend.Gateway.Stages.{StageUpdate}
use urban_farming_backend.Gateway.Advancing.{
  RequestPayload, ReportUpdate, Advance, is_open, is_growing,
}

-- `GardenRequestStatusUpdate`
pub record StatusUpdate : Type 0 where
  pub status : RequestStatus
  pub admin_notes : Option String

-- The call: the user, and the instants at which the code reads the clock.
pub record Review : Type 0 where
  pub request_id : Uuid
  pub payload : StatusUpdate
  pub user_id : Uuid
  pub tracked_at : Time
  pub reviewed_at : Time
  pub now : StageUpdate → Time

-- What a branch has found: the variables `schedule_assignment_id`, `report_to_approve` and
-- `report_to_reject`.
pub record Found : Type 0 where
  pub assignment_id : Option Uuid
  pub to_approve : Option Report
  pub to_reject : Option Report

abbrev pub nothing : Found
nothing = record { assignment_id = none; to_approve = none; to_reject = none }

-- A read of the property's rows, which finds nothing without a property.
abbrev pub of_property {ℓ} : {A : Type ℓ} → Option Uuid → (Uuid → Option A) → Option A
of_property none f = none
of_property (some p) f = f p

-- `filters={"garden_id": ..., "status": ["pending", "in_progress"]}, limit=1`
abbrev pub visit_assignment : Uuid → Db → Option Assignment
visit_assignment property_id db =
    find (λ a. a.garden_id == property_id && is_open a.status) db.inspection_assignments

abbrev pub find_visit : GardenRequest → Tx Found
find_visit r = do
  row ← query (λ db. of_property r.property_id (λ p. visit_assignment p db))
  assignment ← or_raise row (conflict "inspector_assignment_required")
  pure (record { assignment_id = some assignment.id; to_approve = none; to_reject = none })

-- `submitted_at DESC`, where a null comes first.
abbrev pub is_later : Option Time → Option Time → Bool
is_later none b = Bool.true
is_later (some a) none = Bool.false
is_later (some a) (some b) = leb b a

abbrev pub later : Report → Option Report → Option Report
later r none = some r
later r (some s) = if is_later r.submitted_at s.submitted_at then some r else some s

abbrev pub latest : List Report → Option Report
latest [] = none
latest (r ∷ rest) = later r (latest rest)

-- `latest_inspection_report(..., assessment_status="submitted_for_approval")`
abbrev pub is_submitted_on : Uuid → Report → Bool
is_submitted_on property_id r =
    r.garden_id == property_id && r.assessment_status =? AssessmentStatus.submitted_for_approval

abbrev pub submitted_report : Uuid → Db → Option Report
submitted_report property_id db =
    latest (where_ (is_submitted_on property_id) db.inspection_reports)

-- `payload.admin_notes or ""`
abbrev pub text_of : Option String → String
text_of none = ""
text_of (some s) = s

abbrev pub is_unsuitable : Option Band → Bool
is_unsuitable none = Bool.false
is_unsuitable (some b) = b =? Band.not_suitable

-- The score is advisory: a site below it is approved with a reason of 20 characters.
abbrev pub lacks_rationale : Report → Option String → Bool
lacks_rationale report notes =
    is_unsuitable report.assessment.suitability_band && ltb (text_length (strip (text_of notes))) 20

abbrev pub find_approval : GardenRequest → StatusUpdate → Tx Found
find_approval r payload = do
  row ← query (λ db. of_property r.property_id (λ p. submitted_report p db))
  report ← or_raise row (conflict "inspection_report_required")
  raise_if (lacks_rationale report payload.admin_notes) (conflict "approval_rationale_required")
  pure (record { assignment_id = none; to_approve = some report; to_reject = none })

abbrev pub find_rejection : GardenRequest → Tx Found
find_rejection r = do
  row ← query (λ db. of_property r.property_id (λ p. submitted_report p db))
  pure (record {
    assignment_id = none;
    to_approve = none;
    to_reject = if r.status =? inspection_scheduled then row else none;
  })

-- `filters={"property_id": property_id, "status": "active"}, limit=1`
abbrev pub some_installation : Uuid → Db → Option Installation
some_installation property_id db =
    find (λ i. i.property_id == property_id && i.status =? InstallationStatus.active)
      db.installations

-- The handler's own check of an activation, which the transaction makes again.
abbrev pub find_activation : GardenRequest → Tx (Unit {0})
find_activation r = do
  report_row ← query (λ db. of_property r.property_id (λ p. approved_report p db))
  installation_row ← query (λ db. of_property r.property_id (λ p. some_installation p db))
  report ← or_raise report_row (conflict "activation_requirements_missing")
  installation ← or_raise installation_row (conflict "activation_requirements_missing")
  batches ← query (batches_of installation.id)
  raise_if (not (is_some installation.installed_at) || is_empty batches)
      (conflict "activation_requirements_missing")
  raise_if (not (all is_growing batches)) (conflict "planting_not_complete")

abbrev pub stage_to : StageKey → StageStatus → StageUpdate
stage_to key status = record {
  stage_key = key;
  status = status;
  evidence = end;
  next_action = none;
}

-- The list `stage_updates`.
abbrev pub stage_updates : Review → GardenRequest → Found → List StageUpdate
stage_updates v r f = elim v.payload.status [
  | inspection_scheduled ↦
      record (stage_to StageKey.property_details StageStatus.completed) {
        evidence =
            field "address" (opt_text r.address) (field "property_id" (opt_uuid r.property_id) end);
      }
      ∷ record (stage_to StageKey.preliminary_assessment StageStatus.completed) {
        evidence =
            field "result" (str "manual_review_passed") (field "reviewed_by" (uuid v.user_id) end);
      }
      ∷ record (stage_to StageKey.inspector_visit StageStatus.in_progress) {
        evidence = field "assignment_id" (opt_uuid f.assignment_id) end;
        next_action = some "Complete the site visit and submit the inspection report.";
      }
      ∷ []
  | accepted ↦
      record (stage_to StageKey.approval StageStatus.completed) {
        evidence = field "decision" (str "approved") (
            field "report_id" (opt_uuid (elim f.to_approve [ none ↦ none | some q ↦ some q.id ]))
              (field "rationale" (opt_text v.payload.admin_notes) end));
      }
      ∷ record (stage_to StageKey.installation StageStatus.ready) {
        next_action = some "Prepare and install the approved garden infrastructure.";
      }
      ∷ []
  | needing_implements ↦
      record (stage_to StageKey.installation StageStatus.in_progress) {
        evidence = field "work_started_by" (uuid v.user_id) end;
      }
      ∷ []
  | RequestStatus.rejected ↦
      record (stage_to StageKey.approval StageStatus.rejected) {
        evidence =
            field "decision" (str "rejected")
              (field "rationale" (opt_text v.payload.admin_notes) end);
      }
      ∷ []
  | RequestStatus.cancelled ↦
      record (stage_to StageKey.approval StageStatus.skipped) {
        evidence =
            field "decision" (str "cancelled")
              (field "rationale" (opt_text v.payload.admin_notes) end);
      }
      ∷ []
  | _ ↦ []
]

-- `payload.admin_notes or report_to_approve.get("notes")`
abbrev pub notes_or_kept : Option String → Option String → Option String
notes_or_kept none kept = kept
notes_or_kept (some s) kept = if str_eq s "" then kept else some s

-- `report_update`
abbrev pub report_update : Review → Found → Option ReportUpdate
report_update v f = elim f.to_approve [
  | some r ↦ some (record {
    report_id = r.id;
    status = AssessmentStatus.approved;
    notes = some (notes_or_kept v.payload.admin_notes r.assessment.notes);
  })
  | none ↦ elim f.to_reject [
    | some r ↦ some (record { report_id = r.id; status = AssessmentStatus.rejected; notes = none })
    | none ↦ none
  ]
]

-- `{"status": target, "reviewed_by": ..., "reviewed_at": ...}` and the notes, where there are any.
abbrev pub request_payload : Review → Option Json → RequestPayload
request_payload v details = record {
  status = v.payload.status;
  admin_notes = v.payload.admin_notes;
  details = details;
  reviewed_by = v.user_id;
  reviewed_at = v.reviewed_at;
}

-- The call of the transaction after a branch.
abbrev pub advance_with : Review → GardenRequest → Found → Advance
advance_with v r f = record {
  request_id = v.request_id;
  expected_status = r.status;
  request_payload = request_payload v none;
  actor_id = v.user_id;
  stage_updates = stage_updates v r f;
  assignment_id = f.assignment_id;
  report_update = report_update v f;
  now = v.now;
}

-- The call of the transaction for an activation.
abbrev pub activate_with : Review → GardenRequest → Advance
activate_with v r = record {
  request_id = v.request_id;
  expected_status = r.status;
  request_payload = request_payload v (
      some (
        obj (
          merge (as_dict r.details) (
            field "trackingState" (str "tracking") (
              field "trackingStartedAt" (stamp v.tracked_at)
                (field "trackingStartedBy" (uuid v.user_id) end))))));
  actor_id = v.user_id;
  stage_updates = [];
  assignment_id = none;
  report_update = none;
  now = v.now;
}
