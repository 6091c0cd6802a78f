-- ===== src/Gateway/Stages.antt =====
-- The loop over `stage_updates` of `schedule_garden_request_inspection` and
-- `update_garden_request_workflow` (app/infrastructure/postgres_gateway.py).
pub mod Laws
use urban_farming_backend.Prelude.{
  Bool, ◌||◌, Option, none, some, String, List, [], ◌∷◌, ◌=?◌, if◌then◌else◌,
}
use urban_farming_backend.Json.{Fields}
use urban_farming_backend.Db.{Db, Tx, pure, query, or_raise, conflict, ◌>>=◌, ◌>>◌}
use urban_farming_backend.Db.Rows.{Stage, Uuid, Time}
use urban_farming_backend.Db.Status.{StageKey, StageStatus, stage_status_enum}
use urban_farming_backend.Gateway.Tables.{stage_of, update_stage, with_evidence, coalesce}

-- An entry of `stage_updates`.
pub record StageUpdate : Type 0 where
  pub stage_key : StageKey
  pub status : StageStatus
  pub evidence : Fields
  pub next_action : Option String

-- `COALESCE(:next_action, next_action)`
abbrev pub next_or_kept : Option String → String → String
next_or_kept none kept = kept
next_or_kept (some next) kept = next

-- `:status IN ('completed', 'rejected')`
abbrev pub is_closing : StageStatus → Bool
is_closing s = s =? StageStatus.completed || s =? StageStatus.rejected

-- The columns that both loops set; `read` is the row that the `SELECT` returned.
abbrev pub stage_moved : Uuid → Time → StageUpdate → Stage → Stage → Stage
stage_moved actor_id now u read s = record s {
  status = u.status;
  owner_user_id = some actor_id;
  evidence = with_evidence read.evidence u.evidence;
  started_at = coalesce s.started_at now;
  completed_at = if is_closing u.status then coalesce s.completed_at now else s.completed_at;
  next_action = next_or_kept u.next_action s.next_action;
}

module _ (change : StageUpdate → Stage → Stage → Stage) (request_id : Uuid) where
  -- One turn of the loop.
  unfoldable pub move_stage : StageUpdate → Tx (Unit {0})
  move_stage u = do
    row ← query (stage_of request_id u.stage_key)
    stage ← or_raise row (conflict "workflow_stage_missing")
    update_stage stage.id (change u stage)

  unfoldable pub move_stages : List StageUpdate → Tx (Unit {0})
  move_stages [] = pure tt
  move_stages (u ∷ us) = move_stage u >> move_stages us
