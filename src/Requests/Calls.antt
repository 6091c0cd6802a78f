-- ===== src/Requests/Calls.antt =====
-- The calls by which a garden request moves on, as the transactions of
-- app/infrastructure/postgres_gateway.py and the status endpoint of app/routers/gardens.py make them,
-- in any order. A call that raises is rolled back. The generic data endpoint, which can write a status
-- without a check (Data), is not among them.
pub mod Moves
pub mod Laws
mod Tests
use urban_farming_backend.Prelude.{
  Option, none, some, String, List, [], ◌∷◌, ◌++◌, ◌=?◌, if◌then◌else◌,
}
use urban_farming_backend.Json.{Json}
use urban_farming_backend.Db.{Db, Result, ok, err}
use urban_farming_backend.Db.Rows.{Uuid, Time, Day}
use urban_farming_backend.Db.Status.{RequestStatus, request_status_enum}
use urban_farming_backend.Gateway.Tables.{request_by_id}
use urban_farming_backend.Gateway.Planting.{complete_garden_planting}
use urban_farming_backend.Gateway.Installing.{InstallationPayload, complete_garden_installation}
use urban_farming_backend.Gateway.Allocating.{Allocation, complete_garden_allocation}
use urban_farming_backend.Gateway.Scheduling.{Scheduling, schedule_garden_request_inspection}
use urban_farming_backend.Requests.Status.{update_garden_request_status}
use urban_farming_backend.Requests.Status.Branches.{Review}

pub data Call : Type 0 where
  scheduling : (Json → Option String) → Scheduling → Call
  reviewing : Review → Db → Call
  installing : Uuid → Uuid → InstallationPayload → Uuid → Time → Call
  allocating : Allocation → Call
  planting : Uuid → Day → Uuid → Time → Call

-- The database after a transaction.
abbrev pub after_call {ℓ} : {A : Type ℓ} → Db → Result (A × Db) → Db
after_call db (ok (a, db')) = db'
after_call db (err e) = db

unfoldable pub perform : Call → Db → Db
perform (scheduling bind_text c) db =
    after_call db (schedule_garden_request_inspection bind_text c db)
perform (reviewing v seen) db = after_call db (update_garden_request_status v seen db)
perform (installing request_id property_id payload actor_id now) db =
    after_call db (complete_garden_installation request_id property_id payload actor_id now db)
perform (allocating a) db = after_call db (complete_garden_allocation a db)
perform (planting request_id planted_at actor_id now) db =
    after_call db (complete_garden_planting request_id planted_at actor_id now db)

unfoldable pub perform_all : List Call → Db → Db
perform_all [] db = db
perform_all (c ∷ calls) db = perform_all calls (perform c db)

-- The status of a request, where there is one.
abbrev pub status_at : Uuid → Db → Option RequestStatus
status_at j db = elim (request_by_id j db) [ none ↦ none | some r ↦ some r.status ]

-- The status after a call, where the call changed it.
abbrev pub change : RequestStatus → RequestStatus → List RequestStatus
change s t = if s =? t then [] else t ∷ []

abbrev pub changes : Option RequestStatus → Option RequestStatus → List RequestStatus
changes (some s) (some t) = change s t
changes _ _ = []

-- The statuses that a request gets by the calls, one after another.
unfoldable pub history : Uuid → List Call → Db → List RequestStatus
unfolding perform
history j [] db = []
history j (c ∷ calls) db =
    changes (status_at j db) (status_at j (perform c db)) ++ history j calls (perform c db)
