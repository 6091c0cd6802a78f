-- ===== src/Requests/Lifecycle.antt =====
-- The life of a garden request: the moves of its status as a relation, and the runs of such moves.
-- It is a specification, against which the status endpoint of app/routers/gardens.py and the
-- transactions of app/infrastructure/postgres_gateway.py are checked.
use urban_farming_backend.Prelude.{
  ◌≡◌, refl, sym, ap, Bool, true, false, List, ◌=?◌, [], ◌∷◌, arith,
}
use urban_farming_backend.Db.Status.{
  RequestStatus, request_status_enum, submitted, inspection_scheduled, accepted, needing_implements,
  implements_installed, seeds, final_install, live, rejected, cancelled, RequestStatus-discrete,
}
use urban_farming_backend.Requests.Status.{is_cancellable}

-- The moves, one constructor for each accepted pair of statuses.
pub data Step : RequestStatus → RequestStatus → Type 0 where
  schedule : Step submitted inspection_scheduled
  approve : Step inspection_scheduled accepted
  decline : Step submitted rejected
  decline_visited : Step inspection_scheduled rejected
  start_work : Step accepted needing_implements
  install : Step needing_implements implements_installed
  allocate : Step implements_installed seeds
  plant : Step seeds final_install
  activate : Step final_install live
  cancel : {s : RequestStatus} → is_cancellable s ≡ true → Step s cancelled

-- A run, with the statuses that it passes through after the first.
pub data Run : RequestStatus → List RequestStatus → RequestStatus → Type 0 where
  stop : {s : RequestStatus} → Run s [] s
  step :
      {s t u : RequestStatus} {path : List RequestStatus}
      → Step s t
      → Run t path u
      → Run s (t ∷ path) u

-- The only way to an active garden.
abbrev pub way_from_seeds : List RequestStatus
way_from_seeds = final_install ∷ live ∷ []

abbrev pub way_from_accepted : List RequestStatus
way_from_accepted = needing_implements ∷ implements_installed ∷ seeds ∷ way_from_seeds

abbrev pub way_to_live : RequestStatus → List RequestStatus
way_to_live submitted = inspection_scheduled ∷ accepted ∷ way_from_accepted
way_to_live inspection_scheduled = accepted ∷ way_from_accepted
way_to_live accepted = way_from_accepted
way_to_live needing_implements = implements_installed ∷ seeds ∷ way_from_seeds
way_to_live implements_installed = seeds ∷ way_from_seeds
way_to_live seeds = way_from_seeds
way_to_live final_install = live ∷ []
way_to_live live = []
way_to_live rejected = []
way_to_live cancelled = []

-- A status that no move leaves.
abbrev pub is_final : RequestStatus → Bool
is_final live = true
is_final rejected = true
is_final cancelled = true
is_final _ = false

is_cancellable-is_final : (s : RequestStatus) → is_cancellable s ≡ true → is_final s ≡ false
unfolding RequestStatus-discrete
is_cancellable-is_final s e = ground arith

Step-is_final : {s t : RequestStatus} → Step s t → is_final s ≡ false
Step-is_final schedule = refl
Step-is_final approve = refl
Step-is_final decline = refl
Step-is_final decline_visited = refl
Step-is_final start_work = refl
Step-is_final install = refl
Step-is_final allocate = refl
Step-is_final plant = refl
Step-is_final activate = refl
Step-is_final (cancel {s} e) = is_cancellable-is_final s e

pub RequestStatus-same : (s t : RequestStatus) → s ≡ t → (s =? t) ≡ true
RequestStatus-same s t e = ground arith

-- A move changes the status.
pub Step-other : {s t : RequestStatus} → Step s t → (s =? t) ≡ false
unfolding RequestStatus-discrete
Step-other schedule = refl
Step-other approve = refl
Step-other decline = refl
Step-other decline_visited = refl
Step-other start_work = refl
Step-other install = refl
Step-other allocate = refl
Step-other plant = refl
Step-other activate = refl
Step-other (cancel {s} e) = ground arith

-- A garden that is active, and a request that was rejected or cancelled, stay so.
pub Run-is_final :
    {s t : RequestStatus} {path : List RequestStatus}
    → Run s path t
    → is_final s ≡ true
    → (path ≡ []) × (s ≡ t)
Run-is_final stop e = (refl, refl)
Run-is_final (step m run) e = ground (arith, Step-is_final m)

-- A request that becomes active has passed every status on the way, in order, and no other.
pub Run-way_to_live :
    {s t : RequestStatus} {path : List RequestStatus}
    → Run s path t
    → t ≡ live
    → path ≡ way_to_live s
Run-way_to_live (stop {s}) e = sym (ap way_to_live e)
Run-way_to_live (step schedule run) e = ap (◌∷◌ inspection_scheduled) (Run-way_to_live run e)
Run-way_to_live (step approve run) e = ap (◌∷◌ accepted) (Run-way_to_live run e)
Run-way_to_live (step start_work run) e = ap (◌∷◌ needing_implements) (Run-way_to_live run e)
Run-way_to_live (step install run) e = ap (◌∷◌ implements_installed) (Run-way_to_live run e)
Run-way_to_live (step allocate run) e = ap (◌∷◌ seeds) (Run-way_to_live run e)
Run-way_to_live (step plant run) e = ap (◌∷◌ final_install) (Run-way_to_live run e)
Run-way_to_live (step activate run) e = ap (◌∷◌ live) (Run-way_to_live run e)
Run-way_to_live (step decline run) e = ground (arith, Run-is_final run refl)
Run-way_to_live (step decline_visited run) e = ground (arith, Run-is_final run refl)
Run-way_to_live (step (cancel c) run) e = ground (arith, Run-is_final run refl)
