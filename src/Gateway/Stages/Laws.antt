-- ===== src/Gateway/Stages/Laws.antt =====
-- The loop over the stages changes the stages only, and each stage that it names is there.
use urban_farming_backend.Prelude.{◌≡◌, ap, ◌∙◌, some, List, [], ◌∷◌, arith}
use urban_farming_backend.Db.{Db, ok}
use urban_farming_backend.Db.Rows.{Stage, Uuid}
use urban_farming_backend.Db.Laws.{bind-eq-ok, or_raise-eq-ok}
use urban_farming_backend.Gateway.Tables.{stage_of, with_stage, update_stage}
use urban_farming_backend.Gateway.Tables.Laws.{update_stage-eq-ok}
use urban_farming_backend.Gateway.Stages.{StageUpdate, move_stage, move_stages}

module _ (change : StageUpdate → Stage → Stage → Stage) (request_id : Uuid) where
  pub move_stage-eq-ok :
      (u : StageUpdate) (db db' : Db)
      → move_stage change request_id u db ≡ ok (tt, db')
      → (s : Stage) × (stage_of request_id u.stage_key db ≡ some s)
        × (with_stage s.id (change u s) db ≡ db')
  unfolding move_stage
  move_stage-eq-ok u db db' h =
      let (s, found, h1) =
        or_raise-eq-ok (stage_of request_id u.stage_key db) _ (λ s. update_stage s.id (change u s))
          db (tt, db') h in
      (s, found, update_stage-eq-ok s.id (change u s) db db' h1)

  -- The other tables are as before.
  pub move_stages-rest :
      (us : List StageUpdate) (db db' : Db)
      → move_stages change request_id us db ≡ ok (tt, db')
      → record db { workflow_stages = db'.workflow_stages } ≡ db'
  unfolding move_stages
  move_stages-rest [] db db' h = ground arith
  move_stages-rest (u ∷ us) db db' h =
      let (x, db1, e1, h1) =
        bind-eq-ok (move_stage change request_id u) (λ x. move_stages change request_id us) db
          (tt, db') h in
      let (s, found, out) = move_stage-eq-ok u db db1 e1 in
      ap (λ (d : Db). record d { workflow_stages = db'.workflow_stages }) out
      ∙ move_stages-rest us db1 db' h1
