-- ===== src/Gateway/Scheduling/Laws/Assigning.antt =====
-- The assignment that a schedule changes or makes is an open one of the property.
use urban_farming_backend.Prelude.{
  ◌≡◌, refl, ◌∙◌, Bool, true, Option, none, some, List, [], ◌∷◌, any, where_, update_where, arith,
  ◌==◌, ◌&&◌, suc, any-append, ==_refl,
}
use urban_farming_backend.Db.{Db, ok}
use urban_farming_backend.Db.Rows.{Assignment, Uuid}
use urban_farming_backend.Gateway.Scheduling.{
  Scheduling, newest, is_open_on, current_assignment, reassigned, new_assignment, with_reassigned,
  with_assignment, assign,
}

-- The assignment that the call returns, and the database after it is written.
abbrev pub assigned_to : Scheduling → Uuid → Option Assignment → Db → Assignment
assigned_to c p (some a) db = reassigned c a
assigned_to c p none db = new_assignment db.next_id p c

abbrev pub with_assigned : Scheduling → Uuid → Option Assignment → Db → Db
with_assigned c p (some a) db = with_reassigned c a.id db
with_assigned c p none db =
    with_assignment (new_assignment db.next_id p c) (record db { next_id = suc db.next_id })

pub assign-eq :
    (c : Scheduling) (p : Uuid) (o : Option Assignment) (db : Db)
    → assign c p o db ≡ ok (assigned_to c p o db, with_assigned c p o db)
unfolding assign
assign-eq c p none db = refl
assign-eq c p (some a) db = refl

-- The assignment is in the table, open, on the property, and the named inspector's.
abbrev pub is_assigned_to : Scheduling → Uuid → Assignment → Assignment → Bool
is_assigned_to c p a b =
    b.id == a.id && (is_open_on p b && b.inspector_id == c.schedule.inspector_id)

abbrev pub IsAssignedTo : Scheduling → Uuid → Assignment → Db → Type 0
IsAssignedTo c p a db = any (is_assigned_to c p a) db.inspection_assignments ≡ true

any-reassigned :
    (c : Scheduling) (p : Uuid) (a : Assignment) (xs : List Assignment)
    → any (λ b. b.id == a.id && is_open_on p b) xs ≡ true
    → any (is_assigned_to c p (reassigned c a)) (update_where (λ b. b.id == a.id) (reassigned c) xs)
      ≡ true
any-reassigned c p a [] h = h
any-reassigned c p a (x ∷ xs) h =
    ground (arith, any-reassigned c p a xs, ==_refl c.schedule.inspector_id)

any_of_newest :
    (p : Uuid) (xs : List Assignment) (a : Assignment)
    → newest (where_ (is_open_on p) xs) ≡ some a
    → any (λ b. b.id == a.id && is_open_on p b) xs ≡ true
any_of_newest p [] a h = cc
any_of_newest p (x ∷ xs) a h = go (any_of_newest p xs) _ refl
  where
    go :
        ((b : Assignment)
          → newest (where_ (is_open_on p) xs) ≡ some b
          → any (λ d. d.id == b.id && is_open_on p d) xs ≡ true)
        → (n : Option Assignment) → newest (where_ (is_open_on p) xs) ≡ n
        → any (λ b. b.id == a.id && is_open_on p b) (x ∷ xs) ≡ true
    go rest none e = ground (arith, ==_refl a.id)
    go rest (some b) e = ground (arith, ==_refl a.id, rest b e)

pub assign-IsAssignedTo :
    (c : Scheduling) (p : Uuid) (db : Db) (o : Option Assignment)
    → current_assignment p db ≡ o
    → IsAssignedTo c p (assigned_to c p o db) (with_assigned c p o db)
assign-IsAssignedTo c p db (some a) e =
    any-reassigned c p a db.inspection_assignments (any_of_newest p db.inspection_assignments a e)
assign-IsAssignedTo c p db none e =
    let n = new_assignment db.next_id p c in
    any-append (is_assigned_to c p n) db.inspection_assignments (n ∷ [])
    ∙ ground (arith, ==_refl c.schedule.inspector_id, ==_refl p, ==_refl db.next_id)

-- The other tables that a schedule reads.
pub with_assigned-rest :
    (c : Scheduling) (p : Uuid) (o : Option Assignment) (db : Db)
    → ((with_assigned c p o db).garden_requests ≡ db.garden_requests)
      × ((with_assigned c p o db).properties ≡ db.properties)
with_assigned-rest c p none db = (refl, refl)
with_assigned-rest c p (some a) db = (refl, refl)
