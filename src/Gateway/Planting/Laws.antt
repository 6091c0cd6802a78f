-- ===== src/Gateway/Planting/Laws.antt =====
-- What a recorded planting has checked and changed.
use mathlib.Core.Path.{subst}
use urban_farming_backend.Prelude.{
  not, true, false, ◌≡◌, refl, ◌≢◌, none, some, List, [], ◌∷◌, any, where_, ◌==◌, arith, where_-and,
  where_-update_where_ne, All, update_where,
}
use urban_farming_backend.Json.{Json, get, get-merge, as_dict, day}
use urban_farming_backend.Db.{Db, ok}
use urban_farming_backend.Db.Rows.{GardenRequest, CropBatch, Stage, Uuid, Time, Day}
use urban_farming_backend.Db.Status.{seeds, BatchStatus, StageKey, StageStatus}
use urban_farming_backend.Db.Laws.{checked-eq-ok}
use urban_farming_backend.Gateway.Tables.{
  request_by_id, active_installation, batches_of, stage_of, with_stage, with_request, with_evidence,
}
use urban_farming_backend.Gateway.Tables.Laws.{
  stage_of-with_stage, update_request-found, update_stage-HasStage, stage_of-HasStage,
  request_by_id-with_request, request_by_id-with_request_ne,
}
use urban_farming_backend.Gateway.Planting.{
  is_plantable, Planting, check_planting, with_planted, finished, maintained, planting_evidence,
  write_planting, planted, is_planting_of, complete_garden_planting,
}

-- What has to hold before a planting is recorded, and what the checks read then.
pub record IsReadyToPlant (request_id : Uuid) (db : Db) (p : Planting) : Type 0 where
  pub found : request_by_id request_id db ≡ some p.request
  pub allocated : p.request.status ≡ seeds
  pub linked : p.request.property_id ≡ some p.property
  pub active : active_installation p.property db ≡ some p.installation
  pub installed : p.installation.installed_at ≢ none
  pub batches : p.batches ≡ batches_of p.installation.id db
  pub some_batch : p.batches ≢ []
  pub plantable : any (λ b. not (is_plantable b)) p.batches ≡ false
  pub tracked : stage_of request_id StageKey.maintenance_tasks db ≡ some p.stage

check_planting_sound :
    (request_id : Uuid) (db db' : Db) (p : Planting)
    → check_planting request_id db ≡ ok (p, db')
    → (db ≡ db') × IsReadyToPlant request_id db p
unfolding check_planting
check_planting_sound request_id db db' p h = ground arith

check_planting-ready :
    (request_id : Uuid) (db : Db) (p : Planting)
    → IsReadyToPlant request_id db p
    → check_planting request_id db ≡ ok (p, db)
unfolding check_planting
check_planting-ready request_id db p h = ground arith

-- The database that a planting leaves.
abbrev pub after_planting : Uuid → Day → Uuid → Time → Planting → Db → Db
after_planting request_id planted_at actor now p db =
    with_stage p.stage.id (maintained p planted_at actor now)
      (with_request request_id seeds finished (with_planted p.installation.id planted_at db))

module _ (request_id : Uuid) (planted_at : Day) (actor : Uuid) (now : Time) (db : Db) where
  -- Once the checks have passed, no write fails.
  write_planting-ready :
      (p : Planting)
      → IsReadyToPlant request_id db p
      → write_planting request_id planted_at actor now p db
        ≡ ok (finished p.request, after_planting request_id planted_at actor now p db)
  unfolding write_planting is_planting_of
  write_planting-ready p h = ground (
    arith,
    where_-and (λ b. b.installation_id == p.installation.id) is_plantable db.crop_batches,
    update_request-found request_id seeds finished (with_planted p.installation.id planted_at db)
        p.request h.found h.allocated,
    update_stage-HasStage p.stage.id (maintained p planted_at actor now)
        (with_request request_id seeds finished (with_planted p.installation.id planted_at db))
        (stage_of-HasStage request_id StageKey.maintenance_tasks db p.stage h.tracked),
  )

abbrev pub IsGrowingSince : Day → CropBatch → Type 0
IsGrowingSince planted_at b = (b.status ≡ BatchStatus.growing) × (b.planted_at ≡ some planted_at)

batches_of-with_planted :
    (i : Uuid) (planted_at : Day) (bs : List CropBatch)
    → any (λ b. not (is_plantable b)) (where_ (λ b. b.installation_id == i) bs) ≡ false
    → All (IsGrowingSince planted_at) (
        where_
          (λ b. b.installation_id == i)
          (update_where (is_planting_of i) (planted planted_at) bs))
unfolding is_planting_of
batches_of-with_planted i planted_at [] h = tt
batches_of-with_planted i planted_at (b ∷ bs) h =
    ground (arith, batches_of-with_planted i planted_at bs)

get-planting_evidence :
    (planted_at : Day) (batches : List CropBatch) (prior : Json)
    → get "planted_at" (as_dict (with_evidence prior (planting_evidence planted_at batches)))
      ≡ some (day planted_at)
get-planting_evidence planted_at batches prior =
    get-merge "planted_at" (as_dict prior) (planting_evidence planted_at batches) (refl, (refl, tt))

is_planting_of_ne :
    (i j : Uuid) (b : CropBatch)
    → j ≢ i
    → (b.installation_id == j) ≡ true
    → is_planting_of i b ≡ false
unfolding is_planting_of
is_planting_of_ne i j b ne e = ground arith

-- What a recorded planting has done to the request, the crop batches and the workflow.
pub record IsPlanted (request_id : Uuid) (planted_at : Day) (p : Planting) (r : GardenRequest)
    (db db' : Db) : Type 0 where
  pub ready : IsReadyToPlant request_id db p
  pub stored : request_by_id request_id db' ≡ some r
  pub advanced : r ≡ finished p.request
  pub growing : All (IsGrowingSince planted_at) (batches_of p.installation.id db')
  pub elsewhere : (j : Uuid) → j ≢ p.installation.id → batches_of j db' ≡ batches_of j db
  pub others : (j : Uuid) → j ≢ request_id → request_by_id j db' ≡ request_by_id j db
  pub stage : Stage
  pub tracked : stage_of request_id StageKey.maintenance_tasks db' ≡ some stage
  pub in_progress : stage.status ≡ StageStatus.in_progress
  pub evidence : get "planted_at" (as_dict stage.evidence) ≡ some (day planted_at)

module _ (request_id : Uuid) (planted_at : Day) (actor : Uuid) (now : Time) (db : Db) where
  after_planting-IsPlanted :
      (p : Planting)
      → IsReadyToPlant request_id db p
      → IsPlanted request_id planted_at p
          (finished p.request)
          db
          (after_planting request_id planted_at actor now p db)
  after_planting-IsPlanted p h = record {
    ready = h;
    stored =
        request_by_id-with_request request_id seeds finished (λ r. refl)
          (with_planted p.installation.id planted_at db) p.request h.found h.allocated;
    advanced = refl;
    growing =
        batches_of-with_planted p.installation.id planted_at db.crop_batches
          (rw (← h.batches) h.plantable);
    elsewhere = λ j ne.
        where_-update_where_ne (λ b. b.installation_id == j) (is_planting_of p.installation.id)
          (planted planted_at) (λ b. refl) (λ b e. is_planting_of_ne p.installation.id j b ne e)
          db.crop_batches;
    others =
        request_by_id-with_request_ne request_id seeds finished (λ r. refl)
          (with_planted p.installation.id planted_at db);
    stage = maintained p planted_at actor now p.stage;
    tracked =
        stage_of-with_stage request_id StageKey.maintenance_tasks
          (maintained p planted_at actor now)
          (with_request request_id seeds finished (with_planted p.installation.id planted_at db))
          p.stage (λ t. refl) (λ t. refl) h.tracked;
    in_progress = refl;
    evidence = get-planting_evidence planted_at p.batches p.stage.evidence;
  }

  -- A planting that commits was ready: the request is in `seeds` and linked to a property that has
  -- an active, installed installation, whose crop batches are not none and can all be planted, and
  -- the request has a maintenance stage. It leaves the request in `final_install`, every batch of
  -- the installation growing since the date, and the stage in progress with the date as evidence;
  -- other requests and the batches of other installations are as before.
  pub complete_garden_planting-IsPlanted :
      (x : GardenRequest × Db)
      → complete_garden_planting request_id planted_at actor now db ≡ ok x
      → (p : Planting) × IsPlanted request_id planted_at p x.0 db x.1
  unfolding complete_garden_planting
  complete_garden_planting-IsPlanted x h =
      let (p, ready, same) =
        checked-eq-ok (check_planting request_id) (write_planting request_id planted_at actor now)
          db (IsReadyToPlant request_id db)
          (λ p. (finished p.request, after_planting request_id planted_at actor now p db))
          (λ p db'. check_planting_sound request_id db db' p)
          (write_planting-ready request_id planted_at actor now db) x h in
      (
        p,
        subst (λ y. IsPlanted request_id planted_at p y.0 db y.1) same
            (after_planting-IsPlanted p ready),
      )

  -- A request that is ready can be planted: no later step of the transaction refuses it.
  pub complete_garden_planting-commits :
      (p : Planting)
      → IsReadyToPlant request_id db p
      → complete_garden_planting request_id planted_at actor now db
        ≡ ok (finished p.request, after_planting request_id planted_at actor now p db)
  unfolding complete_garden_planting
  complete_garden_planting-commits p h = ground (
    arith,
    check_planting-ready request_id db p h,
    write_planting-ready request_id planted_at actor now db p h,
  )
