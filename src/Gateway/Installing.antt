-- ===== src/Gateway/Installing.antt =====
-- `PostgresGateway.complete_garden_installation` (app/infrastructure/postgres_gateway.py).
pub mod Laws
pub mod Effects
use urban_farming_backend.Prelude.{
  ℕ, Bool, not, ◌&&◌, ◌||◌, Option, none, some, String, List, [], ◌∷◌, ◌++◌, is_some, where_,
  update_where, ◌==◌, ◌=?◌,
}
use urban_farming_backend.Json.{Json, Double, Fields, end, field, arr, day, uuid, texts}
use urban_farming_backend.Db.{
  Db, Tx, pure, query, or_raise, raise_if, execute, conflict, not_found, fresh_id, ◌>>=◌, ◌>>◌,
}
use urban_farming_backend.Db.Rows.{
  GardenRequest, Report, Installation, CropBatch, Stage, Uuid, Time, Day,
}
use urban_farming_backend.Db.Status.{
  needing_implements, implements_installed, request_status_enum, InstallationStatus, StageKey,
  StageStatus, InstallType,
}
use urban_farming_backend.Gateway.Tables.{
  request_by_id, is_same_id, approved_report, oldest, stage_of, coalesce, update_request_row,
  update_stage, with_evidence,
}

-- The dictionary `payload`; the day is `date.fromisoformat(payload["installed_at"])`.
pub record InstallationPayload : Type 0 where
  pub install_type : InstallType
  pub size_m2 : Double
  pub capacity_units : ℕ
  pub installed_at : Day
  pub photos : List String
  pub maintenance_notes : Option String

-- What the checks have read.
pub record Installing : Type 0 where
  pub request : GardenRequest
  pub report : Report
  pub installation_stage : Stage
  pub allocation_stage : Stage

-- The locked request, which waits for the installation on this property.
installable_request : Uuid → Uuid → Tx GardenRequest
installable_request request_id property_id = do
  row ← query (request_by_id request_id)
  request ← or_raise row (not_found "request_not_found")
  raise_if
      (not (request.status =? needing_implements)
        || not (is_same_id request.property_id property_id))
      (conflict "request_changed")
  pure request

pub check_installing : Uuid → Uuid → Tx Installing
unfolding installable_request
check_installing request_id property_id = do
  request ← installable_request request_id property_id
  report_row ← query (approved_report property_id)
  report ← or_raise report_row (conflict "inspection_approval_required")
  first ← query (stage_of request_id StageKey.installation)
  second ← query (stage_of request_id StageKey.crop_allocation)
  installation_stage ← or_raise first (conflict "workflow_stage_missing")
  allocation_stage ← or_raise second (conflict "workflow_stage_missing")
  pure (record {
    request = request;
    report = report;
    installation_stage = installation_stage;
    allocation_stage = allocation_stage;
  })

-- `SELECT id FROM public.installations WHERE property_id = :property_id ORDER BY created_at ASC`
abbrev pub first_installation : Uuid → Db → Option Installation
first_installation property_id db =
    oldest (where_ (λ i. i.property_id == property_id) db.installations)

-- The columns that the update of an existing installation sets.
abbrev pub reinstalled : Uuid → InstallationPayload → Installation → Installation
reinstalled owner_id payload i = record i {
  owner_id = owner_id;
  install_type = payload.install_type;
  size_m2 = payload.size_m2;
  capacity_units = payload.capacity_units;
  status = InstallationStatus.active;
  installed_at = some payload.installed_at;
  photos = payload.photos;
  maintenance_notes = payload.maintenance_notes;
}

-- The row that is inserted where there is none.
abbrev pub new_installation : Uuid → Uuid → Uuid → InstallationPayload → Time → Installation
new_installation id owner_id property_id payload now = record {
  id = id;
  property_id = property_id;
  owner_id = owner_id;
  install_type = payload.install_type;
  size_m2 = payload.size_m2;
  capacity_units = payload.capacity_units;
  status = InstallationStatus.active;
  installed_at = some payload.installed_at;
  photos = payload.photos;
  maintenance_notes = payload.maintenance_notes;
  created_at = now;
}

abbrev pub with_installation : Uuid → (Installation → Installation) → Db → Db
with_installation id f db = record db {
  installations = update_where (λ i. i.id == id) f db.installations;
}

abbrev pub with_new_installation : Installation → Db → Db
with_new_installation i db = record db { installations = db.installations ++ i ∷ [] }

-- The update or the insertion; the row was locked, and its identifier is a primary key.
upsert_installation :
    Uuid → Uuid → InstallationPayload → Time → Option Installation → Tx Installation
upsert_installation owner_id property_id payload now (some i) = do
  execute (with_installation i.id (reinstalled owner_id payload))
  pure (reinstalled owner_id payload i)
upsert_installation owner_id property_id payload now none = do
  id ← fresh_id
  execute (with_new_installation (new_installation id owner_id property_id payload now))
  pure (new_installation id owner_id property_id payload now)

abbrev pub installed_request : GardenRequest → GardenRequest
installed_request r = record r { status = implements_installed }

abbrev pub installation_evidence : Uuid → InstallationPayload → Fields
installation_evidence id payload = field "installation_id" (uuid id) (
    field "installed_at" (day payload.installed_at)
      (field "photos" (arr (texts payload.photos)) end))

abbrev pub stage_installed : Stage → Uuid → InstallationPayload → Uuid → Time → Stage → Stage
stage_installed read id payload actor_id now s = record s {
  status = StageStatus.completed;
  owner_user_id = some actor_id;
  evidence = with_evidence read.evidence (installation_evidence id payload);
  started_at = coalesce s.started_at now;
  completed_at = some now;
  updated_at = now;
}

abbrev pub stage_allocatable : Stage → Uuid → Time → Stage → Stage
stage_allocatable read actor_id now s = record s {
  status = StageStatus.ready;
  owner_user_id = some actor_id;
  evidence = with_evidence read.evidence end;
  started_at = coalesce s.started_at now;
  updated_at = now;
  next_action = "Allocate approved crops to the installed garden.";
}

-- The request moves on, and so do its stages `installation` and `crop_allocation`.
advance_installing :
    Uuid → InstallationPayload → Uuid → Time → Installing → Installation → Tx GardenRequest
advance_installing request_id payload actor_id now c installation = do
  updated_request ← update_request_row request_id installed_request
  update_stage c.installation_stage.id
      (stage_installed c.installation_stage installation.id payload actor_id now)
  update_stage c.allocation_stage.id (stage_allocatable c.allocation_stage actor_id now)
  pure updated_request

pub write_installing :
    Uuid → Uuid → InstallationPayload → Uuid → Time → Installing → Tx (GardenRequest × Installation)
unfolding upsert_installation
write_installing request_id property_id payload actor_id now c = do
  existing ← query (first_installation property_id)
  installation ← upsert_installation c.request.owner_id property_id payload now existing
  updated_request ← advance_installing request_id payload actor_id now c installation
  pure (updated_request, installation)

pub complete_garden_installation :
    Uuid → Uuid → InstallationPayload → Uuid → Time → Tx (GardenRequest × Installation)
complete_garden_installation request_id property_id payload actor_id now = do
  checked ← check_installing request_id property_id
  write_installing request_id property_id payload actor_id now checked
