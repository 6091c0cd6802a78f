-- ===== src/Gateway/Advancing.antt =====
-- `PostgresGateway.update_garden_request_workflow` (app/infrastructure/postgres_gateway.py).
pub mod Laws
pub mod Effects
use urban_farming_backend.Prelude.{
  Bool, not, ◌&&◌, ◌||◌, Option, none, some, String, List, is_empty, is_some, any, all, find,
  update_where, ◌==◌, ◌=?◌, if◌then◌else◌,
}
use urban_farming_backend.Json.{Json}
use urban_farming_backend.Db.{
  Db, Tx, pure, raise, query, or_raise, raise_if, execute, conflict, not_found, ◌>>=◌, ◌>>◌,
}
use urban_farming_backend.Db.Rows.{GardenRequest, Assignment, Report, CropBatch, Stage, Uuid, Time}
use urban_farming_backend.Db.Status.{
  live, RequestStatus, request_status_enum, AssignmentStatus, assignment_status_enum,
  AssessmentStatus, assessment_status_enum, BatchStatus, batch_status_enum, StageStatus,
  stage_status_enum,
}
use urban_farming_backend.Gateway.Tables.{
  request_by_id, is_same_id, approved_report, active_installation, batches_of, update_request,
}
use urban_farming_backend.Gateway.Stages.{StageUpdate, stage_moved, move_stages}

-- `request_payload`: a key that the dictionary may lack is an `Option`.
pub record RequestPayload : Type 0 where
  pub status : RequestStatus
  pub admin_notes : Option String
  pub details : Option Json
  pub reviewed_by : Uuid
  pub reviewed_at : Time

-- `report_update`, whose `notes` may be absent, and may be null.
pub record ReportUpdate : Type 0 where
  pub report_id : Uuid
  pub status : AssessmentStatus
  pub notes : Option (Option String)

-- The arguments of the call, and the clock, as the turn for each stage reads it.
pub record Advance : Type 0 where
  pub request_id : Uuid
  pub expected_status : RequestStatus
  pub request_payload : RequestPayload
  pub actor_id : Uuid
  pub stage_updates : List StageUpdate
  pub assignment_id : Option Uuid
  pub report_update : Option ReportUpdate
  pub now : StageUpdate → Time

unfoldable pub advancing_request : Advance → Tx GardenRequest
advancing_request a = do
  row ← query (request_by_id a.request_id)
  request ← or_raise row (not_found "request_not_found")
  raise_if (not (request.status =? a.expected_status)) (conflict "request_changed")
  pure request

-- `not (batch["status"] != "growing" or not batch["planted_at"])`
abbrev pub is_growing : CropBatch → Bool
is_growing b = b.status =? BatchStatus.growing && is_some b.planted_at

-- What an activation requires of the property.
unfoldable pub check_activation_of : Uuid → Tx (Unit {0})
check_activation_of property_id = do
  approved ← query (approved_report property_id)
  active ← query (active_installation property_id)
  report ← or_raise approved (conflict "activation_requirements_missing")
  installation ← or_raise active (conflict "activation_requirements_missing")
  raise_if (not (is_some installation.installed_at)) (conflict "activation_requirements_missing")
  batches ← query (batches_of installation.id)
  raise_if (is_empty batches) (conflict "activation_requirements_missing")
  raise_if (not (all is_growing batches)) (conflict "planting_not_complete")

unfoldable pub check_activation : Option Uuid → Tx (Unit {0})
check_activation none = raise (conflict "activation_requirements_missing")
check_activation (some property_id) = check_activation_of property_id

-- `if request_payload.get("status") == "live":`
unfoldable pub check_if_live : RequestStatus → Option Uuid → Tx (Unit {0})
check_if_live status property_id = if status =? live then check_activation property_id else pure tt

-- `status IN ('pending', 'in_progress')`
abbrev pub is_open : AssignmentStatus → Bool
is_open s = s =? AssignmentStatus.pending || s =? AssignmentStatus.in_progress

-- `WHERE id = :assignment_id AND garden_id = :property_id AND status IN ('pending', 'in_progress')`
abbrev pub open_assignment : Uuid → Option Uuid → Db → Option Assignment
open_assignment assignment_id property_id db =
    find (λ a. a.id == assignment_id && (is_same_id property_id a.garden_id && is_open a.status))
      db.inspection_assignments

unfoldable pub check_assignment : Option Uuid → Option Uuid → Tx (Unit {0})
check_assignment none property_id = pure tt
check_assignment (some assignment_id) property_id = do
  row ← query (open_assignment assignment_id property_id)
  assignment ← or_raise row (conflict "inspector_assignment_required")
  pure tt

-- The checks before the first write.
unfoldable pub check_advancing : Advance → Tx GardenRequest
check_advancing a = do
  request ← advancing_request a
  check_if_live a.request_payload.status request.property_id
  check_assignment a.assignment_id request.property_id
  pure request

-- `WHERE id = :report_id AND assessment_status = 'submitted_for_approval'`
abbrev pub is_awaiting : Uuid → Report → Bool
is_awaiting report_id r =
    r.id == report_id && r.assessment_status =? AssessmentStatus.submitted_for_approval

abbrev pub noted : Option (Option String) → Report → Report
noted none r = r
noted (some notes) r = record r { assessment = record r.assessment { notes = notes } }

abbrev pub decided : ReportUpdate → Report → Report
decided u r = record (noted u.notes r) { assessment_status = u.status }

abbrev pub with_decided : ReportUpdate → Db → Db
with_decided u db = record db {
  inspection_reports = update_where (is_awaiting u.report_id) (decided u) db.inspection_reports;
}

unfoldable pub decide_report : Option ReportUpdate → Tx (Unit {0})
decide_report none = pure tt
decide_report (some u) = do
  found ← query (λ db. any (is_awaiting u.report_id) db.inspection_reports)
  execute (with_decided u)
  raise_if (not found) (conflict "assessment_changed")

-- The value of a key that is present.
abbrev pub given {ℓ} : {A : Type ℓ} → Option A → A → A
given none kept = kept
given (some a) kept = a

-- `UPDATE public.garden_requests SET` with the keys of the payload.
abbrev pub advanced_request : RequestPayload → GardenRequest → GardenRequest
advanced_request p r = record r {
  status = p.status;
  admin_notes = elim p.admin_notes [ none ↦ r.admin_notes | some notes ↦ some notes ];
  details = given p.details r.details;
  reviewed_by = some p.reviewed_by;
  reviewed_at = some p.reviewed_at;
}

unfoldable pub move_request : Advance → Tx GardenRequest
move_request a = do
  row ← update_request a.request_id a.expected_status (advanced_request a.request_payload)
  or_raise row (conflict "request_changed")

-- The columns of a stage, `submitted_at` among them.
abbrev pub stage_advanced : Uuid → (StageUpdate → Time) → StageUpdate → Stage → Stage → Stage
stage_advanced actor_id now u read s = record (stage_moved actor_id (now u) u read s) {
  submitted_at = if u.status =? StageStatus.submitted then some (now u) else s.submitted_at;
}

unfoldable pub write_advancing : Advance → Tx GardenRequest
write_advancing a = do
  decide_report a.report_update
  updated_request ← move_request a
  move_stages (stage_advanced a.actor_id a.now) a.request_id a.stage_updates
  pure updated_request

unfoldable pub update_garden_request_workflow : Advance → Tx GardenRequest
update_garden_request_workflow a = do request ← check_advancing a; write_advancing a
