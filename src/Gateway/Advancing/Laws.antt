-- ===== src/Gateway/Advancing/Laws.antt =====
-- What a recorded step of a request has checked and changed.
use mathlib.Core.Path.{subst}
use urban_farming_backend.Prelude.{
  ◌≡◌, refl, sym, ap, ◌∙◌, true, false, Option, none, some, all, arith, is_empty, is_some,
}
use urban_farming_backend.Db.{Db, ok, pure}
use urban_farming_backend.Db.Rows.{GardenRequest, Report, Installation, Assignment, Uuid}
use urban_farming_backend.Db.Status.{live, request_status_enum, RequestStatus}
use urban_farming_backend.Db.Laws.{bind-eq-ok, ok-injective}
use urban_farming_backend.Gateway.Tables.{
  request_by_id, approved_report, active_installation, batches_of,
}
use urban_farming_backend.Gateway.Advancing.{
  Advance, is_growing, check_activation_of, check_if_live, advancing_request, check_activation,
  open_assignment, check_assignment, check_advancing,
}

-- What the activation of a garden requires of its property.
pub record IsActivatable (property_id : Option Uuid) (db : Db) : Type 0 where
  pub property : Uuid
  pub report : Report
  pub installation : Installation
  pub linked : property_id ≡ some property
  pub approved : approved_report property db ≡ some report
  pub active : active_installation property db ≡ some installation
  pub installed : is_some installation.installed_at ≡ true
  pub some_batch : is_empty (batches_of installation.id db) ≡ false
  pub growing : all is_growing (batches_of installation.id db) ≡ true

check_activation-found :
    (p : Uuid) (r : Report) (i : Installation) (db db' : Db)
    → check_activation (some p) db ≡ ok (tt, db')
    → approved_report p db ≡ some r
    → active_installation p db ≡ some i
    → (db ≡ db')
      × (is_some i.installed_at ≡ true)
      × (is_empty (batches_of i.id db) ≡ false)
      × (all is_growing (batches_of i.id db) ≡ true)
unfolding check_activation check_activation_of
check_activation-found p r i db db' h approved active = ground arith

check_activation-read :
    (p : Uuid) (db db' : Db)
    → check_activation (some p) db ≡ ok (tt, db')
    → (o : Option Report) (n : Option Installation) → approved_report p db ≡ o
    → active_installation p db ≡ n
    → (db ≡ db') × IsActivatable (some p) db
unfolding check_activation check_activation_of
check_activation-read p db db' h none n approved active = ground arith
check_activation-read p db db' h (some r) none approved active = ground arith
check_activation-read p db db' h (some r) (some i) approved active =
    let (same, installed, some_batch, growing) =
      check_activation-found p r i db db' h approved active in
    (
      same,
      record {
        property = p;
        report = r;
        installation = i;
        linked = refl;
        approved = approved;
        active = active;
        installed = installed;
        some_batch = some_batch;
        growing = growing;
      },
    )

check_activation_sound :
    (property_id : Option Uuid) (db db' : Db)
    → check_activation property_id db ≡ ok (tt, db')
    → (db ≡ db') × IsActivatable property_id db
unfolding check_activation
check_activation_sound none db db' h = ground arith
check_activation_sound (some p) db db' h = check_activation-read p db db' h _ _ refl refl

-- An assignment that is named is open, on the property of the request.
abbrev pub IsAssigned : Option Uuid → Option Uuid → Db → Type 0
IsAssigned none property_id db = Unit
IsAssigned (some i) property_id db = (a : Assignment) × (open_assignment i property_id db ≡ some a)

check_assignment-read :
    (i : Uuid) (property_id : Option Uuid) (db db' : Db) (o : Option Assignment)
    → check_assignment (some i) property_id db ≡ ok (tt, db')
    → open_assignment i property_id db ≡ o
    → (db ≡ db') × IsAssigned (some i) property_id db
unfolding check_assignment
check_assignment-read i property_id db db' none h e = ground arith
check_assignment-read i property_id db db' (some a) h e = (ground arith, (a, e))

check_assignment_sound :
    (i property_id : Option Uuid) (db db' : Db)
    → check_assignment i property_id db ≡ ok (tt, db')
    → (db ≡ db') × IsAssigned i property_id db
unfolding check_assignment
check_assignment_sound none property_id db db' h = (ground arith, tt)
check_assignment_sound (some i) property_id db db' h =
    check_assignment-read i property_id db db' _ h refl

-- What has to hold before a step is recorded.
pub record IsAdvanceable (a : Advance) (r : GardenRequest) (db : Db) : Type 0 where
  pub found : request_by_id a.request_id db ≡ some r
  pub expected : r.status ≡ a.expected_status
  pub activatable : a.request_payload.status ≡ live → IsActivatable r.property_id db
  pub assigned : IsAssigned a.assignment_id r.property_id db

check_if_live_sound :
    (status : RequestStatus) (property_id : Option Uuid) (db db' : Db)
    → check_if_live status property_id db ≡ ok (tt, db')
    → (db ≡ db') × (status ≡ live → IsActivatable property_id db)
unfolding check_if_live
check_if_live_sound status property_id db db' h =
    elim (request_status_enum.compare_eq status live) [
      | yes e ↦
          let (same, active) = check_activation_sound property_id db db' (ground arith) in
          (same, λ e. active)
      | no n ↦ (ground arith, λ e. elim (n e) [ ])
    ]

advancing_request_sound :
    (a : Advance) (r : GardenRequest) (db db' : Db)
    → advancing_request a db ≡ ok (r, db')
    → (db ≡ db') × (request_by_id a.request_id db ≡ some r) × (r.status ≡ a.expected_status)
unfolding advancing_request
advancing_request_sound a r db db' h = ground arith

pub check_advancing_sound :
    (a : Advance) (r : GardenRequest) (db db' : Db)
    → check_advancing a db ≡ ok (r, db')
    → (db ≡ db') × IsAdvanceable a r db
unfolding check_advancing
check_advancing_sound a r db db' h =
    let (q, db1, e1, h1) = bind-eq-ok (advancing_request a) _ db (r, db') h in
    let (same1, found, expected) = advancing_request_sound a q db db1 e1 in
    let (u, db2, e2, h2) =
      bind-eq-ok (check_if_live a.request_payload.status q.property_id) _ db1 (r, db') h1 in
    let (same2, activatable) =
      check_if_live_sound a.request_payload.status q.property_id db1 db2 e2 in
    let (v, db3, e3, h3) =
      bind-eq-ok (check_assignment a.assignment_id q.property_id) (λ v. pure q) db2 (r, db') h2 in
    let (same3, assigned) = check_assignment_sound a.assignment_id q.property_id db2 db3 e3 in
    let out = ok-injective h3 in
    (
      same1 ∙ same2 ∙ same3 ∙ ap (λ x. x.1) out,
      subst (λ x. IsAdvanceable a x db) (ap (λ x. x.0) out)
          (record {
            found = found;
            expected = expected;
            activatable = λ e. subst (IsActivatable q.property_id) (sym same1) (activatable e);
            assigned =
                subst (IsAssigned a.assignment_id q.property_id) (sym (same1 ∙ same2)) assigned;
          }),
    )
