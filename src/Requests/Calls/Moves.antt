-- ===== src/Requests/Calls/Moves.antt =====
-- What one call does to the status of a request.
use mathlib.Core.Path.{subst}
use urban_farming_backend.Prelude.{
  ◌≡◌, refl, sym, ap, ◌∙◌, ◌≢◌, inl, inr, true, Bool-cases, Option, some, String, ◌==◌, ◌=?◌, arith,
  find,
}
use urban_farming_backend.Json.{Json}
use urban_farming_backend.Db.{Db, Result, ok, err}
use urban_farming_backend.Db.Rows.{GardenRequest, Installation, Uuid, Time, Day}
use urban_farming_backend.Db.Status.{
  RequestStatus, request_status_enum, submitted, inspection_scheduled,
}
use urban_farming_backend.Gateway.Tables.{request_by_id}
use urban_farming_backend.Gateway.Planting.{complete_garden_planting}
use urban_farming_backend.Gateway.Planting.Laws.{complete_garden_planting-IsPlanted}
use urban_farming_backend.Gateway.Installing.{InstallationPayload, complete_garden_installation}
use urban_farming_backend.Gateway.Installing.Effects.{complete_garden_installation-IsInstalled}
use urban_farming_backend.Gateway.Allocating.{
  Allocation, Allocated, allocated_request, complete_garden_allocation,
}
use urban_farming_backend.Gateway.Allocating.Laws.{complete_garden_allocation-IsAllocated}
use urban_farming_backend.Gateway.Scheduling.{
  Scheduling, Scheduled, is_schedulable, schedule_garden_request_inspection,
}
use urban_farming_backend.Gateway.Scheduling.Effects.{
  schedule_garden_request_inspection-IsVisitScheduled,
}
use urban_farming_backend.Requests.Status.{update_garden_request_status}
use urban_farming_backend.Requests.Status.Branches.{Review}
use urban_farming_backend.Requests.Status.Effects.{update_garden_request_status-IsMoved}
use urban_farming_backend.Requests.Lifecycle.{Step, schedule, install, allocate, plant}
use urban_farming_backend.Requests.Calls.{
  Call, scheduling, reviewing, installing, allocating, planting, after_call, perform,
}

-- One call leaves a status as it is, or makes one move of the life cycle.
pub data Moved (s t : RequestStatus) : Type 0 where
  unmoved : s ≡ t → Moved s t
  moved : Step s t → Moved s t

pub record HasMoved (j : Uuid) (r : GardenRequest) (db' : Db) : Type 0 where
  pub now : GardenRequest
  pub stored : request_by_id j db' ≡ some now
  pub move : Moved r.status now.status

-- Every request is still there, and has made one move at most.
abbrev pub Tracks : Db → Db → Type 0
Tracks db db' = (j : Uuid) (r : GardenRequest) → request_by_id j db ≡ some r → HasMoved j r db'

Tracks-refl : (db : Db) → Tracks db db
Tracks-refl db j r found = record { now = r; stored = found; move = unmoved refl }

-- A call that moves one request and leaves the others alone.
Moved-Tracks :
    (i : Uuid) (r s : GardenRequest) (db db' : Db)
    → request_by_id i db ≡ some r
    → request_by_id i db' ≡ some s
    → Moved r.status s.status
    → ((j : Uuid) → j ≢ i → request_by_id j db' ≡ request_by_id j db)
    → Tracks db db'
Moved-Tracks i r s db db' found stored move others j q known = elim (Bool-cases (j == i)) [
  | inl e ↦
      let same : j ≡ i = ground arith in
      let twice : r ≡ q = ground (arith, found, known, same) in
      record {
        now = s;
        stored = ap (λ k. request_by_id k db') same ∙ stored;
        move = subst (λ x. Moved x.status s.status) twice move;
      }
  | inr n ↦
      let apart : j ≢ i = ground arith in
      record { now = q; stored = others j apart ∙ known; move = unmoved refl }
]

along : {s t s' t' : RequestStatus} → Step s t → s' ≡ s → t' ≡ t → Moved s' t'
along {s} {t} {s'} {t'} m e f = moved (subst (Step s') (sym f) (subst (λ x. Step x t) (sym e) m))

-- A call that raises changes nothing.
after_call-Tracks :
    {A : Type 0} (x : Result (A × Db)) (db : Db)
    → ((a : A) (db' : Db) → x ≡ ok (a, db') → Tracks db db')
    → Tracks db (after_call db x)
after_call-Tracks (ok (a, db')) db h = h a db' refl
after_call-Tracks (err e) db h = Tracks-refl db

complete_garden_planting-Tracks :
    (i : Uuid) (day : Day) (actor : Uuid) (now : Time) (x : GardenRequest × Db) (db : Db)
    → complete_garden_planting i day actor now db ≡ ok x
    → Tracks db x.1
complete_garden_planting-Tracks i day actor now x db h =
    let (p, done) = complete_garden_planting-IsPlanted i day actor now db x h in
    Moved-Tracks i p.request x.0 db x.1 done.ready.found done.stored
      (along plant done.ready.allocated (ap (λ (r : GardenRequest). r.status) done.advanced))
      done.others

complete_garden_installation-Tracks :
    (i property : Uuid) (payload : InstallationPayload) (actor : Uuid) (now : Time)
    (x : (GardenRequest × Installation) × Db) (db : Db)
    → complete_garden_installation i property payload actor now db ≡ ok x
    → Tracks db x.1
complete_garden_installation-Tracks i property payload actor now x db h =
    let (c, done) = complete_garden_installation-IsInstalled i property payload actor now db x h in
    Moved-Tracks i c.request x.0.0 db x.1 done.ready.found done.stored
      (along install done.ready.waiting (ap (λ (r : GardenRequest). r.status) done.advanced))
      done.others

complete_garden_allocation-Tracks :
    (a : Allocation) (x : Allocated × Db) (db : Db)
    → complete_garden_allocation a db ≡ ok x
    → Tracks db x.1
complete_garden_allocation-Tracks a x db h =
    let (c, i, same, done) = complete_garden_allocation-IsAllocated a x db h in
    Moved-Tracks a.request_id c.request (allocated_request a c.request.details c.request) db x.1
      done.ready.found done.stored (along allocate done.ready.installed refl) done.others

update_garden_request_status-Tracks :
    (v : Review) (seen : Db) (s : GardenRequest) (db db' : Db)
    → update_garden_request_status v seen db ≡ ok (s, db')
    → Tracks db db'
update_garden_request_status-Tracks v seen s db db' h =
    let (a, r, done) = update_garden_request_status-IsMoved v seen s db db' h in
    Moved-Tracks a.request_id r s db db' done.advanced.ready.found done.advanced.stored
      (moved done.moves) done.advanced.others

schedulable-Moved :
    (s t : RequestStatus) → is_schedulable s ≡ true → t ≡ inspection_scheduled → Moved s t
schedulable-Moved s t ready waiting = elim (Bool-cases (s =? submitted)) [
  | inl e ↦ along schedule (ground arith) waiting
  | inr n ↦ unmoved (ground arith)
]

schedule_garden_request_inspection-Tracks :
    (bind_text : Json → Option String) (c : Scheduling) (s : Scheduled) (db db' : Db)
    → schedule_garden_request_inspection bind_text c db ≡ ok (s, db')
    → Tracks db db'
schedule_garden_request_inspection-Tracks bind_text c s db db' h =
    let (r, p, middle, done) =
      schedule_garden_request_inspection-IsVisitScheduled bind_text c s db db' h in
    let move =
      schedulable-Moved r.status s.request.status done.ready.schedulable done.visit.waiting in
    Moved-Tracks c.request_id r s.request db db' done.ready.found done.visit.stored move
      (λ j ne. done.visit.others j ne ∙ ap (find (λ q. q.id == j)) done.garden.requests)

pub perform-Tracks : (c : Call) (db : Db) → Tracks db (perform c db)
unfolding perform
perform-Tracks (scheduling bind_text c) db =
    after_call-Tracks _ db (λ s db'. schedule_garden_request_inspection-Tracks bind_text c s db db')
perform-Tracks (reviewing v seen) db =
    after_call-Tracks _ db (λ s db'. update_garden_request_status-Tracks v seen s db db')
perform-Tracks (installing i property payload actor now) db =
    after_call-Tracks _ db
      (λ a db'. complete_garden_installation-Tracks i property payload actor now (a, db') db)
perform-Tracks (allocating a) db =
    after_call-Tracks _ db (λ x db'. complete_garden_allocation-Tracks a (x, db') db)
perform-Tracks (planting i day actor now) db =
    after_call-Tracks _ db (λ r db'. complete_garden_planting-Tracks i day actor now (r, db') db)
