-- ===== src/Gateway/Planting.antt =====
-- `PostgresGateway.complete_garden_planting` (app/infrastructure/postgres_gateway.py).
pub mod Laws
use urban_farming_backend.Prelude.{
  Bool, not, ◌&&◌, ◌||◌, some, List, is_some, is_empty, any, where_, update_where, length, map,
  ◌==◌, ◌=?◌,
}
use urban_farming_backend.Json.{Fields, end, field, arr, day, uuids}
use urban_farming_backend.Db.{
  Db, Tx, pure, query, or_raise, raise_if, execute, conflict, not_found, ◌>>=◌, ◌>>◌,
}
use urban_farming_backend.Db.Rows.{GardenRequest, Installation, CropBatch, Stage, Uuid, Time, Day}
use urban_farming_backend.Db.Status.{
  seeds, final_install, request_status_enum, BatchStatus, batch_status_enum, StageKey, StageStatus,
}
use urban_farming_backend.Gateway.Tables.{
  request_by_id, active_installation, batches_of, stage_of, coalesce, update_request, update_stage,
  with_evidence,
}

-- `status IN ('planned', 'growing')`
abbrev pub is_plantable : CropBatch → Bool
is_plantable b = b.status =? BatchStatus.planned || b.status =? BatchStatus.growing

-- What the checks have read.
pub record Planting : Type 0 where
  pub request : GardenRequest
  pub property : Uuid
  pub installation : Installation
  pub batches : List CropBatch
  pub stage : Stage

-- The locked request, which crops were allocated to.
planting_request : Uuid → Tx GardenRequest
planting_request request_id = do
  row ← query (request_by_id request_id)
  request ← or_raise row (not_found "request_not_found")
  raise_if (not (request.status =? seeds)) (conflict "allocation_required")
  pure request

-- The property's installation, which is installed.
planting_installation : Uuid → Tx Installation
planting_installation property_id = do
  row ← query (active_installation property_id)
  installation ← or_raise row (conflict "installation_not_complete")
  raise_if (not (is_some installation.installed_at)) (conflict "installation_not_complete")
  pure installation

-- The crop batches of the installation, each of which can be planted.
planting_batches : Uuid → Tx (List CropBatch)
planting_batches installation_id = do
  batches ← query (batches_of installation_id)
  raise_if (is_empty batches) (conflict "crop_allocation_required")
  raise_if (any (λ b. not (is_plantable b)) batches) (conflict "crop_batch_state_invalid")
  pure batches

-- Everything that is read and checked before the first write.
check_planting : Uuid → Tx Planting
unfolding planting_request planting_installation planting_batches
check_planting request_id = do
  request ← planting_request request_id
  property_id ← or_raise request.property_id (conflict "property_required")
  installation ← planting_installation property_id
  batches ← planting_batches installation.id
  row ← query (stage_of request_id StageKey.maintenance_tasks)
  stage ← or_raise row (conflict "workflow_stage_missing")
  pure (record {
    request = request;
    property = property_id;
    installation = installation;
    batches = batches;
    stage = stage;
  })

abbrev pub planted : Day → CropBatch → CropBatch
planted planted_at b = record b { status = BatchStatus.growing; planted_at = some planted_at }

pub is_planting_of : Uuid → CropBatch → Bool
is_planting_of installation_id b = b.installation_id == installation_id && is_plantable b

abbrev pub with_planted : Uuid → Day → Db → Db
with_planted installation_id planted_at db = record db {
  crop_batches = update_where (is_planting_of installation_id) (planted planted_at) db.crop_batches;
}

-- The update of the batches, and the check of how many it found.
plant_batches : Uuid → Day → List CropBatch → Tx (Unit {0})
plant_batches installation_id planted_at batches = do
  updated ← query (λ db. where_ (is_planting_of installation_id) db.crop_batches)
  execute (with_planted installation_id planted_at)
  raise_if (not (length updated == length batches)) (conflict "crop_batch_state_changed")

abbrev pub finished : GardenRequest → GardenRequest
finished r = record r { status = final_install }

-- The request moves from `seeds` to `final_install`.
finish_planting : Uuid → Tx GardenRequest
finish_planting request_id = do
  row ← update_request request_id seeds finished
  or_raise row (conflict "request_changed")

-- The evidence that a planting leaves on the stage `maintenance_tasks`.
abbrev pub planting_evidence : Day → List CropBatch → Fields
planting_evidence planted_at batches =
    field "planted_at" (day planted_at)
      (field "crop_batch_ids" (arr (uuids (map (λ b. b.id) batches))) end)

abbrev pub maintained : Planting → Day → Uuid → Time → Stage → Stage
maintained p planted_at actor_id now s = record s {
  status = StageStatus.in_progress;
  owner_user_id = some actor_id;
  evidence = with_evidence p.stage.evidence (planting_evidence planted_at p.batches);
  started_at = coalesce s.started_at now;
  updated_at = now;
}

-- The writes, in their order.
write_planting : Uuid → Day → Uuid → Time → Planting → Tx GardenRequest
unfolding plant_batches finish_planting
write_planting request_id planted_at actor_id now p = do
  plant_batches p.installation.id planted_at p.batches
  updated_request ← finish_planting request_id
  update_stage p.stage.id (maintained p planted_at actor_id now)
  pure updated_request

pub complete_garden_planting : Uuid → Day → Uuid → Time → Tx GardenRequest
complete_garden_planting request_id planted_at actor_id now = do
  checked ← check_planting request_id
  write_planting request_id planted_at actor_id now checked
