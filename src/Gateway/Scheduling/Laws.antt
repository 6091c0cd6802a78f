-- ===== src/Gateway/Scheduling/Laws.antt =====
-- What a recorded schedule of an inspection has checked and changed.
pub mod Assigning
use mathlib.Core.Path.{subst}
use urban_farming_backend.Prelude.{
  ◌≡◌, refl, sym, ap, ◌∙◌, ◌≢◌, true, Option, none, some, String, List, any, find, arith, ◌==◌,
  ◌&&◌, ◌⊎◌, inl, inr, ◌=?◌,
}
use urban_farming_backend.Json.{Json}
use urban_farming_backend.Db.{Db, Tx, ok, pure, ◌>>=◌, ◌>>◌}
use urban_farming_backend.Db.Rows.{GardenRequest, Inspector, Assignment, Uuid}
use urban_farming_backend.Db.Status.{inspection_scheduled, request_status_enum}
use urban_farming_backend.Db.Laws.{bind-eq-ok, ok-injective}
use urban_farming_backend.Gateway.Tables.{request_by_id, with_request, update_request}
use urban_farming_backend.Gateway.Tables.Laws.{
  update_request-found, request_by_id-with_request, request_by_id-with_request_ne,
}
use urban_farming_backend.Gateway.Stages.{stage_moved, move_stages}
use urban_farming_backend.Gateway.Stages.Laws.{move_stages-rest}
use urban_farming_backend.Gateway.Scheduling.{
  Scheduling, Scheduled, is_schedulable, active_inspector, check_scheduling, is_open_on,
  current_assignment, assign, scheduled_request, schedule_stages, schedule_with, move_to_scheduled,
  schedule_on,
}
use Assigning.{
  assigned_to, with_assigned, assign-eq, IsAssignedTo, assign-IsAssignedTo, with_assigned-rest,
}

-- What has to hold before a visit is scheduled.
pub record IsSchedulable (c : Scheduling) (r : GardenRequest) (db : Db) : Type 0 where
  pub found : request_by_id c.request_id db ≡ some r
  pub schedulable : is_schedulable r.status ≡ true
  pub inspected : active_inspector c.schedule.inspector_id db ≢ none

pub check_scheduling_sound :
    (c : Scheduling) (r : GardenRequest) (db db' : Db)
    → check_scheduling c db ≡ ok (r, db')
    → (db ≡ db') × IsSchedulable c r db
unfolding check_scheduling
check_scheduling_sound c r db db' h = ground arith

move_to_scheduled_sound :
    (c : Scheduling) (r s : GardenRequest) (p a : Uuid) (db db' : Db)
    → request_by_id c.request_id db ≡ some r
    → move_to_scheduled c r p a db ≡ ok (s, db')
    → (scheduled_request c r p a r ≡ s)
      × (with_request c.request_id r.status (scheduled_request c r p a) db ≡ db')
unfolding move_to_scheduled
move_to_scheduled_sound c r s p a db db' found h =
    ground (
      arith,
      update_request-found c.request_id r.status (scheduled_request c r p a) db r found refl,
    )

schedule_with_sound :
    (c : Scheduling) (r : GardenRequest) (p : Uuid) (b : Assignment) (s : Scheduled) (db db' : Db)
    → request_by_id c.request_id db ≡ some r
    → schedule_with c r p b db ≡ ok (s, db')
    → (record { request = scheduled_request c r p b.id r; assignment = b } ≡ s)
      × (record (with_request c.request_id r.status (scheduled_request c r p b.id) db) {
        workflow_stages = db'.workflow_stages;
      }
          ≡ db')
unfolding schedule_with
schedule_with_sound c r p b s db db' found h =
    let change = stage_moved c.actor_id c.now in
    let us = schedule_stages c r p b.id in
    let (q, db1, e1, h1) = bind-eq-ok (move_to_scheduled c r p b.id) _ db (s, db') h in
    let (returned, to1) = move_to_scheduled_sound c r q p b.id db db1 found e1 in
    let (u, db2, e2, h2) =
      bind-eq-ok (move_stages change c.request_id us)
        (λ u. pure (record { request = q; assignment = b })) db1 (s, db') h1 in
    let out = ok-injective h2 in
    (
      ap (λ (x : GardenRequest). record { request = x; assignment = b }) returned
          ∙ ap (λ x. x.0) out,
      ap (λ (d : Db). record d { workflow_stages = db'.workflow_stages }) to1
          ∙ ap (λ (d : Db). record db1 { workflow_stages = d.workflow_stages })
              (sym (ap (λ x. x.1) out))
          ∙ move_stages-rest change c.request_id us db1 db2 e2
          ∙ ap (λ x. x.1) out,
    )

-- A request that is scheduled, or scheduled again, waits for the visit.
scheduled_request-status :
    (c : Scheduling) (r : GardenRequest) (p a : Uuid)
    → is_schedulable r.status ≡ true
    → (scheduled_request c r p a r).status ≡ inspection_scheduled
scheduled_request-status c r p a h = ground arith

-- What scheduling on a property `p` has done; `db` is the database once the property is known.
pub record IsScheduled (c : Scheduling) (r : GardenRequest) (p : Uuid) (s : Scheduled) (db db' : Db)
    : Type 0 where
  pub stored : request_by_id c.request_id db' ≡ some s.request
  pub waiting : s.request.status ≡ inspection_scheduled
  pub linked : s.request.property_id ≡ some p
  pub assigned : IsAssignedTo c p s.assignment db'
  pub assignments :
      db'.inspection_assignments
      ≡ (with_assigned c p (current_assignment p db) db).inspection_assignments
  pub others : (j : Uuid) → j ≢ c.request_id → request_by_id j db' ≡ request_by_id j db
  pub properties : db'.properties ≡ db.properties

pub schedule_on-IsScheduled :
    (c : Scheduling) (r : GardenRequest) (p : Uuid) (s : Scheduled) (db db' : Db)
    → request_by_id c.request_id db ≡ some r
    → is_schedulable r.status ≡ true
    → schedule_on c r p db ≡ ok (s, db')
    → IsScheduled c r p s db db'
unfolding schedule_on
schedule_on-IsScheduled c r p s db db' found ready h =
    let o = current_assignment p db in
    let a = assigned_to c p o db in
    let middle = with_assigned c p o db in
    let (same_requests, same_properties) = with_assigned-rest c p o db in
    let found' = ap (find (λ q. q.id == c.request_id)) same_requests ∙ found in
    let (b, db1, e1, h1) = bind-eq-ok (assign c p o) (λ b. schedule_with c r p b) db (s, db') h in
    let made = ok-injective (sym (assign-eq c p o db) ∙ e1) in
    let (returned, after) =
      schedule_with_sound c r p a s middle db' found'
        (rw (← ap (λ x. x.0) made, ← ap (λ x. x.1) made) at h1) in
    let f = scheduled_request c r p a.id in
    let same_assignment = ap (λ (x : Scheduled). x.assignment) returned in
    record {
      stored =
          ap (request_by_id c.request_id) (sym after)
          ∙ request_by_id-with_request c.request_id r.status f (λ q. refl) middle r found' refl
          ∙ ap (λ (x : Scheduled). some x.request) returned;
      waiting =
          sym (ap (λ (x : Scheduled). x.request.status) returned)
          ∙ scheduled_request-status c r p a.id ready;
      linked = sym (ap (λ (x : Scheduled). x.request.property_id) returned);
      assigned =
          subst (λ x. IsAssignedTo c p x db') same_assignment
            (subst (IsAssignedTo c p a) after (assign-IsAssignedTo c p db o refl));
      assignments = ap (λ (d : Db). d.inspection_assignments) (sym after);
      others = λ j ne.
          ap (request_by_id j) (sym after)
          ∙ request_by_id-with_request_ne c.request_id r.status f (λ q. refl) middle j ne
          ∙ ap (find (λ q. q.id == j)) same_requests;
      properties = ap (λ (d : Db). d.properties) (sym after) ∙ same_properties;
    }
