-- ===== src/Gateway/Allocating.antt =====
-- `PostgresGateway.complete_garden_allocation` (app/infrastructure/postgres_gateway.py).
pub mod Batches
pub mod Details
pub mod Loop
pub mod Laws
use Batches.{Crop, unsupported_crops, allocate_crops}
use Details.{allocated_details}
use urban_farming_backend.Json.{get_default}
use urban_farming_backend.Prelude.{
  ℕ, suc, Bool, not, ◌&&◌, ◌||◌, Option, none, some, String, List, [], ◌∷◌, ◌++◌, is_empty, is_some,
  any, find, where_, update_where, map, ◌==◌, ◌=?◌, if◌then◌else◌, sorted_set,
}
use text.Mathlib.Text.{◌==◌ as str_eq}
use urban_farming_backend.Json.{
  Json, null, bool, num, nil, arr, obj, str, uuid, Double, Fields, end, field, get, put, merge,
  as_dict, texts, uuids,
}
use urban_farming_backend.Db.{
  Db, Tx, pure, query, or_raise, raise_if, execute, app_error, conflict, not_found, fresh_id, ◌>>=◌,
  ◌>>◌,
}
use urban_farming_backend.Db.Rows.{
  GardenRequest, Property, Report, Installation, CropBatch, Stage, ActivityLog, Uuid, Time,
}
use urban_farming_backend.Db.Status.{
  implements_installed, seeds, request_status_enum, InstallationStatus, installation_status_enum,
  BatchStatus, RequestStatus, AssessmentStatus, assessment_status_enum, StageKey, StageStatus,
}
use urban_farming_backend.Gateway.Tables.{
  request_by_id, is_same_id, oldest, batches_of, stage_of, coalesce, update_request, update_stage,
  with_evidence,
}

-- The dictionary `property_payload` without the owner, whom the update does not set.
pub record PropertyPayload : Type 0 where
  pub label : String
  pub city : Option String
  pub address : Option String
  pub lat : Option Double
  pub lng : Option Double
  pub available_space_m2 : Option Double
  pub sunlight_hours : Option Double
  pub notes : Option String

-- The arguments of the call.
pub record Allocation : Type 0 where
  pub request_id : Uuid
  pub property_id : Uuid
  pub property_payload : PropertyPayload
  pub report_id : Uuid
  pub crops : List Crop
  pub detail_updates : Fields
  pub admin_notes : Option String
  pub actor_id : Uuid
  pub now : Time

-- What the checks before the first write have read.
pub record Allocating : Type 0 where
  pub request : GardenRequest
  pub report : Report

unfoldable pub allocatable_request : Allocation → Tx GardenRequest
allocatable_request a = do
  row ← query (request_by_id a.request_id)
  request ← or_raise row (not_found "request_not_found")
  raise_if
      (not (request.status =? implements_installed)
        || not (is_same_id request.property_id a.property_id))
      (conflict "request_changed")
  pure request

-- `WHERE id = :report_id AND garden_id = :property_id AND assessment_status = 'approved'`
abbrev pub report_approved_for : Uuid → Uuid → Db → Option Report
report_approved_for report_id property_id db =
    find
      (λ r.
        r.id == report_id
        && (r.garden_id == property_id && r.assessment_status =? AssessmentStatus.approved))
      db.inspection_reports

unfoldable pub check_allocating : Allocation → Tx Allocating
unfolding allocatable_request
check_allocating a = do
  request ← allocatable_request a
  row ← query (report_approved_for a.report_id a.property_id)
  report ← or_raise row (conflict "inspection_approval_required")
  let unsupported = unsupported_crops report.assessment.recommended_crops a.crops
  raise_if (not (is_empty unsupported)) (
      app_error 422 "crop_not_recommended"
        (obj (field "unsupportedCrops" (arr (texts unsupported)) end)))
  pure (record { request = request; report = report })

abbrev pub described : PropertyPayload → Property → Property
described payload p = record p {
  label = payload.label;
  address = payload.address;
  city = payload.city;
  lat = payload.lat;
  lng = payload.lng;
  available_space_m2 = payload.available_space_m2;
  sunlight_hours = payload.sunlight_hours;
  notes = payload.notes;
}

-- `WHERE id = :property_id AND owner_id = :owner_id`
abbrev pub is_property_of : Uuid → Uuid → Property → Bool
is_property_of property_id owner_id p = p.id == property_id && p.owner_id == owner_id

abbrev pub with_described : Allocation → Uuid → Db → Db
with_described a owner_id db = record db {
  properties =
      update_where (is_property_of a.property_id owner_id) (described a.property_payload)
        db.properties;
}

unfoldable pub describe_property : Allocation → Uuid → Tx (Unit {0})
describe_property a owner_id = do
  found ← query (λ db. any (is_property_of a.property_id owner_id) db.properties)
  execute (with_described a owner_id)
  raise_if (not found) (conflict "property_changed")

-- `status = 'active' AND installed_at IS NOT NULL ORDER BY created_at ASC LIMIT 1`
unfoldable pub completed_installation : Uuid → Db → Option Installation
completed_installation property_id db = oldest (
    where_
      (λ i.
        i.property_id == property_id
        && (i.status =? InstallationStatus.active && is_some i.installed_at))
      db.installations)

abbrev pub allocated_request : Allocation → Json → GardenRequest → GardenRequest
allocated_request a details r = record r {
  property_id = some a.property_id;
  status = seeds;
  reviewed_by = some a.actor_id;
  reviewed_at = some a.now;
  admin_notes = a.admin_notes;
  details = obj (allocated_details details a.detail_updates);
}

unfoldable pub move_to_seeds : Allocation → Json → Tx GardenRequest
move_to_seeds a details = do
  row ← update_request a.request_id implements_installed (allocated_request a details)
  or_raise row (conflict "request_changed")

abbrev pub activity : Uuid → Allocation → Uuid → Uuid → String → String → Json → ActivityLog
activity id a owner_id installation_id activity_type title details = record {
  id = id;
  owner_id = owner_id;
  property_id = some a.property_id;
  installation_id = some installation_id;
  activity_type = activity_type;
  title = title;
  details = details;
}

abbrev pub with_activity : ActivityLog → Db → Db
with_activity row db = record db { garden_activity_logs = db.garden_activity_logs ++ row ∷ [] }

unfoldable pub log_activity : Allocation → Uuid → Uuid → String → String → Json → Tx (Unit {0})
log_activity a owner_id installation_id activity_type title details = do
  id ← fresh_id
  execute (with_activity (activity id a owner_id installation_id activity_type title details))

-- The two rows of `activity_rows`.
unfoldable pub log_allocation : Allocation → Allocating → Uuid → Tx (Unit {0})
unfolding log_activity
log_allocation a c installation_id = do
  log_activity a c.request.owner_id installation_id "inspection" "Crop allocation recorded" (
      obj (
        field "meta" (get_default "inspectionNotes" a.detail_updates null)
          (field "approvedReportId" (uuid c.report.id) end)))
  log_activity a c.request.owner_id installation_id "planting" "Crops allocated" (
      obj (field "allocated_plants" (get_default "allocatedPlants" a.detail_updates (arr nil)) end))

-- The evidence that an allocation leaves on the stage `crop_allocation`.
abbrev pub allocation_evidence : Uuid → List Uuid → List String → Fields
allocation_evidence installation_id batch_ids recommended =
    field "installation_id" (uuid installation_id) (
      field "crop_batch_ids" (arr (uuids batch_ids))
        (field "recommended_crops" (arr (texts (sorted_set recommended))) end))

abbrev pub stage_allocated : Stage → Fields → Uuid → Time → Stage → Stage
stage_allocated read evidence actor_id now s = record s {
  status = StageStatus.completed;
  owner_user_id = some actor_id;
  evidence = with_evidence read.evidence evidence;
  started_at = coalesce s.started_at now;
  completed_at = some now;
  updated_at = now;
}

abbrev pub stage_maintainable : Stage → Uuid → Time → Stage → Stage
stage_maintainable read actor_id now s = record s {
  status = StageStatus.ready;
  owner_user_id = some actor_id;
  evidence = with_evidence read.evidence end;
  started_at = coalesce s.started_at now;
  next_action = "Plant allocated crops and record the planting date.";
  updated_at = now;
}

-- The dictionary that the call returns.
pub record Allocated : Type 0 where
  pub request_id : Uuid
  pub property_id : Uuid
  pub installation_id : Uuid
  pub allocated_plants : Json
  pub matched_plants : List String
  pub status : RequestStatus

-- The two stages, which are read after the other writes.
unfoldable pub allocation_stages : Allocation → Tx (Stage × Stage)
allocation_stages a = do
  first ← query (stage_of a.request_id StageKey.crop_allocation)
  second ← query (stage_of a.request_id StageKey.maintenance_tasks)
  crop_stage ← or_raise first (conflict "workflow_stage_missing")
  maintenance_stage ← or_raise second (conflict "workflow_stage_missing")
  pure (crop_stage, maintenance_stage)

unfoldable pub advance_stages : Allocation → Allocating → Uuid → List Uuid → Tx (Unit {0})
advance_stages a c installation_id batch_ids = do
  stages ← allocation_stages a
  update_stage stages.0.id (
      stage_allocated stages.0
        (allocation_evidence installation_id batch_ids c.report.assessment.recommended_crops)
        a.actor_id a.now)
  update_stage stages.1.id (stage_maintainable stages.1 a.actor_id a.now)

-- The checks, the update of the property and the choice of its installation.
unfoldable pub prepare_allocation : Allocation → Tx (Allocating × Installation)
unfolding check_allocating describe_property
prepare_allocation a = do
  c ← check_allocating a
  describe_property a c.request.owner_id
  row ← query (completed_installation a.property_id)
  installation ← or_raise row (conflict "installation_not_complete")
  pure (c, installation)

-- The batches, the request, the two activities and the stages.
unfoldable pub finish_allocation : Allocation → Allocating → Installation → Tx (Unit {0})
unfolding log_allocation
finish_allocation a c installation = do
  existing_batches ← query (batches_of installation.id)
  batch_ids ←
      allocate_crops c.request.owner_id installation.id a.crops
        (map (λ b. b.crop_id) existing_batches) (map (λ b. b.id) existing_batches)
  updated_request ← move_to_seeds a c.request.details
  log_allocation a c installation.id
  advance_stages a c installation.id batch_ids

unfoldable pub complete_garden_allocation : Allocation → Tx Allocated
complete_garden_allocation a = do
  prepared ← prepare_allocation a
  finish_allocation a prepared.0 prepared.1
  pure (record {
    request_id = a.request_id;
    property_id = a.property_id;
    installation_id = prepared.1.id;
    allocated_plants = get_default "allocatedPlants" a.detail_updates (arr nil);
    matched_plants = map (λ crop. crop.name) a.crops;
    status = seeds;
  })
