-- ===== src/Requests/Calls/Laws.antt =====
-- What the calls do to the status of a request, in sequence.
use mathlib.Core.Path.{subst}
use urban_farming_backend.Prelude.{◌≡◌, sym, ap, ◌∙◌, true, some, List, [], ◌∷◌, ◌++◌, arith}
use urban_farming_backend.Db.{Db}
use urban_farming_backend.Db.Rows.{GardenRequest, Uuid}
use urban_farming_backend.Db.Status.{RequestStatus, request_status_enum, live}
use urban_farming_backend.Gateway.Tables.{request_by_id}
use urban_farming_backend.Requests.Lifecycle.{
  Run, stop, step, way_to_live, is_final, Run-way_to_live, Run-is_final, Step-other,
  RequestStatus-same,
}
use urban_farming_backend.Requests.Calls.{
  Call, perform, perform_all, status_at, change, changes, history,
}
use urban_farming_backend.Requests.Calls.Moves.{Moved, unmoved, moved, perform-Tracks}

-- A request that has run through the statuses `path`.
pub record HasRun (j : Uuid) (r : GardenRequest) (path : List RequestStatus) (db' : Db)
    : Type 0 where
  pub now : GardenRequest
  pub stored : request_by_id j db' ≡ some now
  pub run : Run r.status path now.status

-- A move that changes a status is a step of the life cycle.
change-Run :
    (s t u : RequestStatus) (path : List RequestStatus)
    → Moved s t
    → Run t path u
    → Run s (change s t ++ path) u
change-Run s t u path (unmoved e) run =
    rw (RequestStatus-same s t e) (subst (λ x. Run x path u) (sym e) run)
change-Run s t u path (moved m) run = rw (Step-other m) (step m run)

changes-at :
    (j : Uuid) (r s : GardenRequest) (db db' : Db)
    → request_by_id j db ≡ some r
    → request_by_id j db' ≡ some s
    → changes (status_at j db) (status_at j db') ≡ change r.status s.status
changes-at j r s db db' found stored = ground (arith, found, stored)

-- Whatever calls of these five kinds are made (a visit is scheduled, a status set by its endpoint, an
-- installation, an allocation or a planting recorded), in whatever order and with whatever arguments,
-- failing ones included, a request that is there stays there, and the statuses that the calls give it,
-- one after another, are each reached from the one before by one move of the life cycle.
pub perform_all-HasRun :
    (calls : List Call) (db : Db) (j : Uuid) (r : GardenRequest)
    → request_by_id j db ≡ some r
    → HasRun j r (history j calls db) (perform_all calls db)
unfolding perform_all history
perform_all-HasRun [] db j r found = record { now = r; stored = found; run = stop }
perform_all-HasRun (c ∷ calls) db j r found =
    let first = perform-Tracks c db j r found in
    let rest = perform_all-HasRun calls (perform c db) j first.now first.stored in
    let path = history j calls (perform c db) in
    record {
      now = rest.now;
      stored = rest.stored;
      run =
          subst (λ p. Run r.status (p ++ path) rest.now.status)
            (sym (changes-at j r first.now db (perform c db) found first.stored))
            (change-Run r.status first.now.status rest.now.status path first.move rest.run);
    }

-- Where a request is live after calls of these five kinds (a visit is scheduled, a status set by its
-- endpoint, an installation, an allocation or a planting recorded), the statuses that the calls gave
-- it are all those that follow its first status up to `live`, each once and in the order of the life
-- cycle, and no other.
pub perform_all-way_to_live :
    (calls : List Call) (db : Db) (j : Uuid) (r s : GardenRequest)
    → request_by_id j db ≡ some r
    → request_by_id j (perform_all calls db) ≡ some s
    → s.status ≡ live
    → history j calls db ≡ way_to_live r.status
perform_all-way_to_live calls db j r s found after active =
    let ran = perform_all-HasRun calls db j r found in
    let same : ran.now ≡ s = ground (arith, ran.stored, after) in
    Run-way_to_live ran.run (ap (λ (q : GardenRequest). q.status) same ∙ active)

-- No calls of these five kinds (a visit is scheduled, a status set by its endpoint, an installation,
-- an allocation or a planting recorded) change the status of a request that is live, rejected or
-- cancelled.
pub perform_all-is_final :
    (calls : List Call) (db : Db) (j : Uuid) (r : GardenRequest)
    → request_by_id j db ≡ some r
    → is_final r.status ≡ true
    → (s : GardenRequest) × (request_by_id j (perform_all calls db) ≡ some s)
      × (s.status ≡ r.status)
      × (history j calls db ≡ [])
perform_all-is_final calls db j r found final =
    let ran = perform_all-HasRun calls db j r found in
    let (quiet, same) = Run-is_final ran.run final in (ran.now, ran.stored, sym same, quiet)
