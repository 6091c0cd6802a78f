-- ===== src/Gateway/Tables.antt =====
-- The statements that several transactions share: the row of a request, the installation of a
-- property, the crop batches of an installation, the stages of a request's workflow.
pub mod Laws
pub mod Oldest
use urban_farming_backend.Prelude.{
  not, Bool, false, ◌&&◌, Option, none, some, List, [], ◌∷◌, any, find, where_, update_where, ◌==◌,
  ◌=?◌, leb, if◌then◌else◌,
}
use urban_farming_backend.Json.{Json, obj, merge, Fields, as_dict}
use mathlib.Core.Option
use urban_farming_backend.Db.{
  Db, Tx, ok, query, execute, raise_if, or_raise, pure, no_result_found, conflict, ◌>>=◌, ◌>>◌,
}
use urban_farming_backend.Db.Rows.{
  GardenRequest, Report, Installation, CropBatch, Stage, Workflow, Uuid,
}
use urban_farming_backend.Db.Status.{
  RequestStatus, request_status_enum, InstallationStatus, installation_status_enum, StageKey,
  stage_key_enum, stage_status_enum, AssessmentStatus, assessment_status_enum,
}

-- `is_same_id o i` is `column = :i` on a nullable column.
abbrev pub is_same_id : Option Uuid → Uuid → Bool
is_same_id none i = false
is_same_id (some j) i = j == i

-- `SELECT ... FROM public.garden_requests WHERE id = :request_id FOR UPDATE`
abbrev pub request_by_id : Uuid → Db → Option GardenRequest
request_by_id request_id db = find (λ r. r.id == request_id) db.garden_requests

-- The older of two rows, the first if they are of one age.
abbrev pub older : Installation → Option Installation → Option Installation
older i none = some i
older i (some j) = if leb i.created_at j.created_at then some i else some j

-- `ORDER BY created_at ASC LIMIT 1`
unfoldable pub oldest : List Installation → Option Installation
oldest [] = none
oldest (i ∷ is) = older i (oldest is)

-- `WHERE property_id = :property_id AND status = 'active' ORDER BY created_at ASC LIMIT 1`
unfoldable pub active_installation : Uuid → Db → Option Installation
unfolding oldest
active_installation property_id db = oldest (
    where_ (λ i. i.property_id == property_id && i.status =? InstallationStatus.active)
      db.installations)

-- `SELECT ... FROM public.inspection_reports WHERE garden_id = :property_id AND
-- assessment_status = 'approved' LIMIT 1`
unfoldable pub approved_report : Uuid → Db → Option Report
approved_report property_id db =
    find (λ r. r.garden_id == property_id && r.assessment_status =? AssessmentStatus.approved)
      db.inspection_reports

-- `SELECT ... FROM public.crop_batches WHERE installation_id = :installation_id`
abbrev pub batches_of : Uuid → Db → List CropBatch
batches_of installation_id db = where_ (λ b. b.installation_id == installation_id) db.crop_batches

-- The join of `workflow_stages` and `operational_workflows` on the workflow of a request.
unfoldable pub is_stage_of : Uuid → StageKey → List Workflow → Stage → Bool
is_stage_of request_id key workflows s =
    s.stage_key =? key
    && any (λ w. w.id == s.workflow_id && w.garden_request_id == request_id) workflows

abbrev pub stage_of : Uuid → StageKey → Db → Option Stage
stage_of request_id key db =
    find (is_stage_of request_id key db.operational_workflows) db.workflow_stages

-- `COALESCE(column, :now)`
abbrev pub coalesce {ℓ} : {A : Type ℓ} → Option A → A → Option A
coalesce none a = some a
coalesce (some b) a = some b

-- `WHERE id = :request_id AND status = :expected`
unfoldable pub is_request_in : Uuid → RequestStatus → GardenRequest → Bool
is_request_in request_id expected r = r.id == request_id && r.status =? expected

abbrev pub with_request : Uuid → RequestStatus → (GardenRequest → GardenRequest) → Db → Db
with_request request_id expected f db = record db {
  garden_requests = update_where (is_request_in request_id expected) f db.garden_requests;
}

-- `UPDATE public.garden_requests SET ... WHERE id = :request_id AND status = :expected RETURNING *`,
-- and the first row that it returns.
unfoldable pub update_request :
    Uuid → RequestStatus → (GardenRequest → GardenRequest) → Tx (Option GardenRequest)
update_request request_id expected f db = ok (
  Option.map f (find (is_request_in request_id expected) db.garden_requests),
  with_request request_id expected f db,
)

-- `UPDATE public.garden_requests SET ... WHERE id = :request_id`
abbrev pub with_request_row : Uuid → (GardenRequest → GardenRequest) → Db → Db
with_request_row request_id f db = record db {
  garden_requests = update_where (λ r. r.id == request_id) f db.garden_requests;
}

-- ... `RETURNING *`, and `.one()`
unfoldable pub update_request_row : Uuid → (GardenRequest → GardenRequest) → Tx GardenRequest
update_request_row request_id f = do
  row ← query (request_by_id request_id)
  r ← or_raise row no_result_found
  execute (with_request_row request_id f)
  pure (f r)

abbrev pub with_stage : Uuid → (Stage → Stage) → Db → Db
with_stage stage_id f db = record db {
  workflow_stages = update_where (λ s. s.id == stage_id) f db.workflow_stages;
}

-- `UPDATE public.workflow_stages SET ... WHERE id = :stage_id RETURNING id`, and the check that a
-- row was found.
unfoldable pub update_stage : Uuid → (Stage → Stage) → Tx (Unit {0})
update_stage stage_id f = do
  found ← query (λ db. any (λ s. s.id == stage_id) db.workflow_stages)
  execute (with_stage stage_id f)
  raise_if (not found) (conflict "workflow_stage_update_failed")

-- `{**(prior if isinstance(prior, dict) else {}), **evidence}`
abbrev pub with_evidence : Json → Fields → Json
with_evidence prior evidence = obj (merge (as_dict prior) evidence)
