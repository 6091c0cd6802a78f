-- ===== src/Gateway/Allocating/Laws.antt =====
-- What a recorded allocation has checked and changed.
use mathlib.Core.Path.{subst}
use urban_farming_backend.Prelude.{
  where_, All, true, sym, true, ◌≡◌, refl, ap, ◌∙◌, ◌≢◌, some, List, [], ◌++◌, any, find, map, ◌==◌,
  arith,
}
use urban_farming_backend.Json.{Json}
use urban_farming_backend.Db.{Db, ok}
use urban_farming_backend.Db.Rows.{GardenRequest, Installation, CropBatch, Stage, Uuid}
use urban_farming_backend.Db.Status.{implements_installed, StageKey}
use urban_farming_backend.Db.Laws.{ok-injective, bind-eq-ok}
use urban_farming_backend.Gateway.Tables.{
  request_by_id, batches_of, stage_of, is_stage_of, with_request, with_stage, update_stage,
  update_request,
}
use urban_farming_backend.Gateway.Tables.Laws.{
  update_request-eq-ok, update_stage-eq-ok, request_by_id-with_request,
  request_by_id-with_request_ne,
}
use urban_farming_backend.Gateway.Allocating.Batches.{unsupported_crops, allocate_crops}
use urban_farming_backend.Gateway.Allocating.Loop.{
  IsPlannedFor, IsOnce, batches_of-new_batches, covered_by_batches, new_batches-IsPlannedFor,
  new_batches-IsOnce, new_batches, allocate_crops-eq,
}
use urban_farming_backend.Gateway.Allocating.{
  Allocation, Allocating, Allocated, is_property_of, report_approved_for, with_described,
  completed_installation, allocated_request, stage_allocated, stage_maintainable,
  allocation_evidence, allocation_stages, advance_stages, prepare_allocation, finish_allocation,
  complete_garden_allocation, move_to_seeds, log_allocation,
}

-- What the checks before the first batch establish.
pub record IsAllocatable (a : Allocation) (c : Allocating) (i : Installation) (db : Db)
    : Type 0 where
  pub found : request_by_id a.request_id db ≡ some c.request
  pub installed : c.request.status ≡ implements_installed
  pub linked : c.request.property_id ≡ some a.property_id
  pub approved : report_approved_for a.report_id a.property_id db ≡ some c.report
  pub recommended : unsupported_crops c.report.assessment.recommended_crops a.crops ≡ []
  pub owned : any (is_property_of a.property_id c.request.owner_id) db.properties ≡ true
  pub complete : completed_installation a.property_id db ≡ some i

-- The workflow has the two stages that an allocation moves.
pub record IsStaged (a : Allocation) (db : Db) : Type 0 where
  pub crop_stage : Stage
  pub maintenance_stage : Stage
  pub crop_allocation : stage_of a.request_id StageKey.crop_allocation db ≡ some crop_stage
  pub maintenance_tasks :
      stage_of a.request_id StageKey.maintenance_tasks db ≡ some maintenance_stage

prepare_allocation_sound :
    (a : Allocation) (c : Allocating) (i : Installation) (db db' : Db)
    → prepare_allocation a db ≡ ok ((c, i), db')
    → (with_described a c.request.owner_id db ≡ db') × IsAllocatable a c i db
unfolding prepare_allocation completed_installation
prepare_allocation_sound a c i db db' h = ground arith

allocation_stages_sound :
    (a : Allocation) (s : Stage × Stage) (db db' : Db)
    → allocation_stages a db ≡ ok (s, db')
    → (db ≡ db')
      × (stage_of a.request_id StageKey.crop_allocation db ≡ some s.0)
      × (stage_of a.request_id StageKey.maintenance_tasks db ≡ some s.1)
unfolding allocation_stages
allocation_stages_sound a s db db' h = ground arith

advance_stages_sound :
    (a : Allocation) (c : Allocating) (i : Uuid) (ids : List Uuid) (db db' : Db)
    → advance_stages a c i ids db ≡ ok (tt, db')
    → (s : Stage × Stage) × (stage_of a.request_id StageKey.crop_allocation db ≡ some s.0)
      × (stage_of a.request_id StageKey.maintenance_tasks db ≡ some s.1)
      × (with_stage s.1.id (stage_maintainable s.1 a.actor_id a.now) (
            with_stage s.0.id
              (stage_allocated s.0
                (allocation_evidence i ids c.report.assessment.recommended_crops)
                a.actor_id
                a.now)
              db)
          ≡ db')
unfolding advance_stages
advance_stages_sound a c i ids db db' h =
    let (s, db1, e1, h1) = bind-eq-ok (allocation_stages a) _ db (tt, db') h in
    let (same, first, second) = allocation_stages_sound a s db db1 e1 in
    let f =
      stage_allocated s.0 (allocation_evidence i ids c.report.assessment.recommended_crops)
        a.actor_id a.now in
    let g = stage_maintainable s.1 a.actor_id a.now in
    let (u, db2, e2, h2) =
      bind-eq-ok (update_stage s.0.id f) (λ u. update_stage s.1.id g) db1 (tt, db') h1 in
    (
      s,
      first,
      second,
      ap (λ d. with_stage s.1.id g (with_stage s.0.id f d)) same
          ∙ ap (with_stage s.1.id g) (update_stage-eq-ok s.0.id f db1 db2 e2)
          ∙ update_stage-eq-ok s.1.id g db2 db' h2,
    )

move_to_seeds_sound :
    (a : Allocation) (details : Json) (r : GardenRequest) (db db' : Db)
    → move_to_seeds a details db ≡ ok (r, db')
    → with_request a.request_id implements_installed (allocated_request a details) db ≡ db'
unfolding move_to_seeds
move_to_seeds_sound a details r db db' h =
    let f = allocated_request a details in
    let (o, db1, e1, h1) =
      bind-eq-ok (update_request a.request_id implements_installed f) _ db (r, db') h in
    update_request-eq-ok a.request_id implements_installed f o db db1 e1 ∙ ground arith

log_allocation-rest :
    (a : Allocation) (c : Allocating) (i : Uuid) (db db' : Db)
    → log_allocation a c i db ≡ ok (tt, db')
    → (db.garden_requests ≡ db'.garden_requests)
      × (db.crop_batches ≡ db'.crop_batches)
      × (db.inspection_reports ≡ db'.inspection_reports)
      × (db.installations ≡ db'.installations)
      × (db.workflow_stages ≡ db'.workflow_stages)
      × (db.operational_workflows ≡ db'.operational_workflows)
unfolding log_allocation
log_allocation-rest a c i db db' h = ground arith

finish_allocation_sound :
    (a : Allocation) (c : Allocating) (i : Installation) (db db' : Db)
    → finish_allocation a c i db ≡ ok (tt, db')
    → let known = map (λ b. b.crop_id) (batches_of i.id db) in
      let f = allocated_request a c.request.details in
      ((with_request a.request_id implements_installed f db).garden_requests ≡ db'.garden_requests)
      × (db.crop_batches ++ new_batches c.request.owner_id i.id db.next_id known a.crops
          ≡ db'.crop_batches)
      × (db.installations ≡ db'.installations)
      × (db.inspection_reports ≡ db'.inspection_reports)
      × IsStaged a db
unfolding finish_allocation
finish_allocation_sound a c i db db' h =
    let known = map (λ b. b.crop_id) (batches_of i.id db) in
    let ids = map (λ b. b.id) (batches_of i.id db) in
    let owner = c.request.owner_id in
    let bs = new_batches owner i.id db.next_id known a.crops in
    let (ids', db0, e0, h0) =
      bind-eq-ok (allocate_crops owner i.id a.crops known ids) _ db (tt, db') h in
    let planted =
      ap (λ x. x.1) (ok-injective (sym (allocate_crops-eq owner i.id a.crops known ids db) ∙ e0)) in
    let (r, db1, e1, h1) = bind-eq-ok (move_to_seeds a c.request.details) _ db0 (tt, db') h0 in
    let (u, db2, e2, h2) =
      bind-eq-ok (log_allocation a c i.id) (λ u. advance_stages a c i.id ids') db1 (tt, db') h1 in
    let moved =
      ap (with_request a.request_id implements_installed (allocated_request a c.request.details))
        planted
      ∙ move_to_seeds_sound a c.request.details r db0 db1 e1 in
    let (requests, batches, reports, installations, stages, workflows) =
      log_allocation-rest a c i.id db1 db2 e2 in
    let (s, first, second, out) = advance_stages_sound a c i.id ids' db2 db' h2 in
    let kept = λ (k : StageKey).
      ap (λ ws. find (is_stage_of a.request_id k ws) db.workflow_stages)
        (ap (λ d. d.operational_workflows) moved ∙ workflows)
      ∙ ap (find (is_stage_of a.request_id k db2.operational_workflows))
          (ap (λ d. d.workflow_stages) moved ∙ stages) in
    (
      ap (λ d. d.garden_requests) moved ∙ requests ∙ ap (λ d. d.garden_requests) out,
      ap (λ d. d.crop_batches) moved ∙ batches ∙ ap (λ d. d.crop_batches) out,
      ap (λ d. d.installations) moved ∙ installations ∙ ap (λ d. d.installations) out,
      ap (λ d. d.inspection_reports) moved ∙ reports ∙ ap (λ d. d.inspection_reports) out,
      record {
        crop_stage = s.0;
        maintenance_stage = s.1;
        crop_allocation = kept StageKey.crop_allocation ∙ first;
        maintenance_tasks = kept StageKey.maintenance_tasks ∙ second;
      },
    )

-- The batches that an allocation inserts.
abbrev pub planned_batches : Allocation → Allocating → Installation → Db → List CropBatch
planned_batches a c i db =
    new_batches c.request.owner_id i.id db.next_id (map (λ b. b.crop_id) (batches_of i.id db))
      a.crops

-- What a recorded allocation has done.
pub record IsAllocated (a : Allocation) (c : Allocating) (i : Installation) (db db' : Db)
    : Type 0 where
  pub ready : IsAllocatable a c i db
  pub staged : IsStaged a db
  pub stored :
      request_by_id a.request_id db' ≡ some (allocated_request a c.request.details c.request)
  pub batches : batches_of i.id db' ≡ batches_of i.id db ++ planned_batches a c i db
  pub planned : All (IsPlannedFor c.request.owner_id i.id) (planned_batches a c i db)
  pub once :
      IsOnce c.request.owner_id i.id
        (map (λ b. b.crop_id) (batches_of i.id db))
        (planned_batches a c i db)
  pub covered :
      (k : Uuid)
      → any (λ crop. crop.id == k) a.crops ≡ true
      → any (λ b. b.crop_id == k) (batches_of i.id db') ≡ true
  pub others : (j : Uuid) → j ≢ a.request_id → request_by_id j db' ≡ request_by_id j db
  pub installations : db'.installations ≡ db.installations

-- What the writes do, from the checks on.
finish_allocation-IsAllocated :
    (a : Allocation) (c : Allocating) (i : Installation) (db db' : Db)
    → IsAllocatable a c i db
    → finish_allocation a c i (with_described a c.request.owner_id db) ≡ ok (tt, db')
    → IsAllocated a c i db db'
finish_allocation-IsAllocated a c i db db' ready h =
    let f = allocated_request a c.request.details in
    let known = map (λ b. b.crop_id) (batches_of i.id db) in
    let owner = c.request.owner_id in
    let (requests, batches, installations, reports, staged) =
      finish_allocation_sound a c i (with_described a owner db) db' h in
    let grown =
      ap (where_ (λ (b : CropBatch). b.installation_id == i.id)) (sym batches)
      ∙ batches_of-new_batches owner i.id db.next_id known a.crops db.crop_batches in
    record {
      ready = ready;
      staged = record {
        crop_stage = staged.crop_stage;
        maintenance_stage = staged.maintenance_stage;
        crop_allocation = staged.crop_allocation;
        maintenance_tasks = staged.maintenance_tasks;
      };
      stored =
          ap (find (λ r. r.id == a.request_id)) (sym requests)
          ∙ request_by_id-with_request a.request_id implements_installed f (λ r. refl) db c.request
              ready.found ready.installed;
      batches = grown;
      planned = new_batches-IsPlannedFor owner i.id db.next_id known a.crops;
      once = new_batches-IsOnce owner i.id db.next_id known a.crops;
      covered = λ k h.
          ap (any (λ b. b.crop_id == k)) grown
          ∙ covered_by_batches owner i.id db.next_id a.crops (batches_of i.id db) k h;
      others = λ j ne.
          ap (find (λ r. r.id == j)) (sym requests)
          ∙ request_by_id-with_request_ne a.request_id implements_installed f (λ r. refl) db j ne;
      installations = sym installations;
    }

-- An allocation that commits was awaited: the request is in `implements_installed` and linked to
-- this property, which belongs to the owner of the request, the named report of the property is
-- approved, each crop is one that it recommends, the property has a completed installation, and the
-- request has the two stages of its workflow that are moved. It leaves the request in `seeds`; that installation
-- gains one planned batch of the owner for each crop that had none, in order and no crop twice, so
-- that every crop has one; other requests and the installations are as before.
pub complete_garden_allocation-IsAllocated :
    (a : Allocation) (x : Allocated × Db) (db : Db)
    → complete_garden_allocation a db ≡ ok x
    → (c : Allocating) × (i : Installation) × (x.0.installation_id ≡ i.id)
      × IsAllocated a c i db x.1
unfolding complete_garden_allocation
complete_garden_allocation-IsAllocated a x db h =
    let (p, db1, e1, h1) = bind-eq-ok (prepare_allocation a) _ db x h in
    let (same, ready) = prepare_allocation_sound a p.0 p.1 db db1 e1 in
    let (u, db2, e2, h2) = bind-eq-ok (finish_allocation a p.0 p.1) _ db1 x h1 in
    let done = ok-injective h2 in
    (
      p.0,
      p.1,
      sym (ap (λ y. y.0.installation_id) done),
      subst (IsAllocated a p.0 p.1 db) (ap (λ y. y.1) done)
          (finish_allocation-IsAllocated a p.0 p.1 db db2 ready (rw (← same) at e2)),
    )
