-- ===== src/Gateway/Scheduling/Effects.antt =====
-- A whole schedule of an inspection, and a second one.
use urban_farming_backend.Prelude.{
  ◌≡◌, refl, sym, ap, ◌∙◌, ◌≢◌, true, Bool, Option, none, some, String, List, [], ◌∷◌, any, where_,
  update_where, find, arith, ◌==◌, ◌&&◌, length, any-append, any_of_find, find-and, ==_refl,
}
use urban_farming_backend.Json.{Json, get, as_dict}
use urban_farming_backend.Db.{Db, ok}
use urban_farming_backend.Db.Rows.{GardenRequest, Property, Assignment, Uuid}
use urban_farming_backend.Db.Laws.{bind-eq-ok, ok-injective}
use urban_farming_backend.Gateway.Tables.{request_by_id}
use urban_farming_backend.Gateway.Scheduling.{
  Scheduling, Scheduled, check_scheduling, property_of, property_by_id, property_notes, notes_or,
  newest, is_open_on, current_assignment, reassigned, link_property, schedule_on,
  schedule_garden_request_inspection,
}
use urban_farming_backend.Gateway.Scheduling.Laws.{
  IsSchedulable, check_scheduling_sound, IsScheduled, schedule_on-IsScheduled,
}
use urban_farming_backend.Gateway.Scheduling.Laws.Assigning.{with_assigned, is_assigned_to}

abbrev pub is_garden_of : Uuid → Uuid → Property → Bool
is_garden_of property_id owner_id p = p.id == property_id && p.owner_id == owner_id

-- The property `p` that a request is linked to.
pub record IsLinked (r : GardenRequest) (o : Option Uuid) (p : Uuid) (db db' : Db) : Type 0 where
  pub requests : db'.garden_requests ≡ db.garden_requests
  pub assignments : db'.inspection_assignments ≡ db.inspection_assignments
  pub owned : any (is_garden_of p r.owner_id) db'.properties ≡ true
  pub kept : (q : Uuid) → o ≡ some q → (q ≡ p) × (db'.properties ≡ db.properties)

module _ (bind_text : Json → Option String) where
  notes_or_sound :
      (j : Option Json) (o n : Option String) (db db' : Db)
      → notes_or bind_text j o db ≡ ok (n, db')
      → db ≡ db'
  notes_or_sound none o n db db' h = ground arith
  notes_or_sound (some j) o n db db' h = ground arith

  link_property-kept :
      (r : GardenRequest) (q p : Uuid) (row : Option Property) (db db' : Db)
      → property_by_id q db ≡ row
      → link_property bind_text r (some q) db ≡ ok (p, db')
      → (q ≡ p) × (db ≡ db') × (any (is_garden_of q r.owner_id) db.properties ≡ true)
  unfolding link_property
  link_property-kept r q p none db db' e h = ground arith
  link_property-kept r q p (some g) db db' e h =
      let owned = find-and (λ x. x.id == q) (λ x. x.owner_id == r.owner_id) db.properties g e in
      let (a, b, c) = link_property-row r q p g db db' e h in
      (a, b, any_of_find (is_garden_of q r.owner_id) db.properties g (owned c))
    where
      link_property-row :
          (r : GardenRequest) (q p : Uuid) (g : Property) (db db' : Db)
          → property_by_id q db ≡ some g
          → link_property bind_text r (some q) db ≡ ok (p, db')
          → (q ≡ p) × (db ≡ db') × ((g.owner_id == r.owner_id) ≡ true)
      link_property-row r q p g db db' e h = ground arith

  link_property_sound :
      (r : GardenRequest) (o : Option Uuid) (p : Uuid) (db db' : Db)
      → link_property bind_text r o db ≡ ok (p, db')
      → IsLinked r o p db db'
  unfolding link_property
  link_property_sound r none p db db' h =
      let (n, db1, e1, h1) = bind-eq-ok (property_notes bind_text r) _ db (p, db') h in
      let same = notes_or_sound (get "notes" (as_dict r.details)) r.admin_notes n db db1 e1 in
      let out = ok-injective h1 in
      let made = property_of db1.next_id n r in
      let same_id = ap (λ x. x.0) out in
      let after = ap (λ x. x.1) out in
      record {
        requests =
            ap (λ (d : Db). d.garden_requests) (sym after)
            ∙ ap (λ (d : Db). d.garden_requests) (sym same);
        assignments =
            ap (λ (d : Db). d.inspection_assignments) (sym after)
            ∙ ap (λ (d : Db). d.inspection_assignments) (sym same);
        owned =
            ap (any (is_garden_of p r.owner_id)) (ap (λ (d : Db). d.properties) (sym after))
            ∙ any-append (is_garden_of p r.owner_id) db1.properties (made ∷ [])
            ∙ ground (arith, same_id, ==_refl p, ==_refl r.owner_id);
        kept = λ q e. ground arith;
      }
  link_property_sound r (some q) p db db' h =
      let (same_id, same, owned) = link_property-kept r q p _ db db' refl h in
      record {
        requests = ap (λ (d : Db). d.garden_requests) (sym same);
        assignments = ap (λ (d : Db). d.inspection_assignments) (sym same);
        owned = rw (← same_id, ← same) owned;
        kept = λ k e. (ground arith, ap (λ (d : Db). d.properties) (sym same));
      }

-- What a recorded schedule has done; `middle` is the database once the property `p` is known.
pub record IsVisitScheduled (c : Scheduling) (r : GardenRequest) (p : Uuid) (s : Scheduled)
    (db middle db' : Db) : Type 0 where
  pub ready : IsSchedulable c r db
  pub garden : IsLinked r r.property_id p db middle
  pub visit : IsScheduled c r p s middle db'

module _ (bind_text : Json → Option String) (c : Scheduling) (s : Scheduled) (db db' : Db) where
  -- A visit that is scheduled belongs to a request that was submitted, or already scheduled, and has
  -- an active inspector. The request is afterwards the one returned, waits for the visit
  -- (`inspection_scheduled`) and is linked to a property of its owner, the one that it was linked to
  -- if it was; the assignment returned is in the table, open, on that property and the named
  -- inspector's; other requests are as before.
  pub schedule_garden_request_inspection-IsVisitScheduled :
      schedule_garden_request_inspection bind_text c db ≡ ok (s, db')
      → (r : GardenRequest) × (p : Uuid) × (middle : Db) × IsVisitScheduled c r p s db middle db'
  unfolding schedule_garden_request_inspection
  schedule_garden_request_inspection-IsVisitScheduled h =
      let (r, db1, e1, h1) = bind-eq-ok (check_scheduling c) _ db (s, db') h in
      let (same, ready) = check_scheduling_sound c r db db1 e1 in
      let (p, db2, e2, h2) =
        bind-eq-ok (link_property bind_text r r.property_id) (λ p. schedule_on c r p) db1 (s, db')
          h1 in
      let linked = link_property_sound bind_text r r.property_id p db db2 (rw (← same) at e2) in
      (
        r,
        p,
        db2,
        record {
          ready = ready;
          garden = linked;
          visit =
              schedule_on-IsScheduled c r p s db2 db'
                (ap (find (λ q. q.id == c.request_id)) linked.requests ∙ ready.found)
                ready.schedulable h2;
        },
      )

-- A table with an open assignment has a current one, and changing it adds no row.
length-update_where {ℓ} :
    {A : Type ℓ} (q : A → Bool) (f : A → A) (xs : List A) → length (update_where q f xs) ≡ length xs
length-update_where q f [] = refl
length-update_where q f (x ∷ xs) = ground (arith, length-update_where q f xs)

newest-some :
    (c : Scheduling) (p : Uuid) (a : Assignment) (xs : List Assignment)
    → any (is_assigned_to c p a) xs ≡ true
    → newest (where_ (is_open_on p) xs) ≢ none
newest-some c p a [] h = ground arith
newest-some c p a (x ∷ xs) h = ground (arith, newest-some c p a xs)

with_assigned-length :
    (c : Scheduling) (p : Uuid) (o : Option Assignment) (db : Db)
    → o ≢ none
    → length (with_assigned c p o db).inspection_assignments ≡ length db.inspection_assignments
with_assigned-length c p none db h = elim (h refl) [ ]
with_assigned-length c p (some a) db h =
    length-update_where (λ b. b.id == a.id) (reassigned c) db.inspection_assignments

-- A request that is scheduled a second time, with whatever schedule, gets no second property and no
-- second assignment.
pub schedule_garden_request_inspection-again :
    (bind_text : Json → Option String) (c d : Scheduling) (s t : Scheduled) (db db1 db2 : Db)
    → c.request_id ≡ d.request_id
    → schedule_garden_request_inspection bind_text c db ≡ ok (s, db1)
    → schedule_garden_request_inspection bind_text d db1 ≡ ok (t, db2)
    → (db2.properties ≡ db1.properties)
      × (length db2.inspection_assignments ≡ length db1.inspection_assignments)
schedule_garden_request_inspection-again bind_text c d s t db db1 db2 same h k =
    let (r, p, m, first) =
      schedule_garden_request_inspection-IsVisitScheduled bind_text c s db db1 h in
    let (q, g, n, second) =
      schedule_garden_request_inspection-IsVisitScheduled bind_text d t db1 db2 k in
    let found =
      sym second.ready.found ∙ ap (λ i. request_by_id i db1) (sym same) ∙ first.visit.stored in
    let linked =
      ap (λ (x : Option GardenRequest). elim x [ none ↦ none | some y ↦ y.property_id ]) found
      ∙ first.visit.linked in
    let (same_garden, kept) = second.garden.kept p linked in
    let still = second.garden.assignments in
    let open_one =
      newest-some c p s.assignment n.inspection_assignments
        (ap (any (is_assigned_to c p s.assignment)) still ∙ first.visit.assigned) in
    (
      second.visit.properties ∙ kept,
      ap length second.visit.assignments
          ∙ with_assigned-length d g (current_assignment g n) n (rw same_garden at open_one)
          ∙ ap length still,
    )
