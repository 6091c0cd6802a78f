-- ===== src/Gateway/Tests.antt =====
-- Runs of the transactions on the sample database, and the theorems at them.
mod Advance
mod Allocation
mod Installation
mod Visit
mod Submission
mod Starting
mod Conversion
use urban_farming_backend.Prelude.{◌≡◌, refl, none, some, [], ◌∷◌, arith, ◌≢◌}
use urban_farming_backend.Db.{Db, ok}
use urban_farming_backend.Db.Status.{
  seeds, AssignmentStatus, AssessmentStatus, BatchStatus, StageKey, InstallationStatus-discrete,
  StageKey-discrete, BatchStatus-discrete,
}
use urban_farming_backend.Gateway.Sample.{sample, installation, batch_in, request_in, stage}
use urban_farming_backend.Gateway.Tables.{active_installation, is_stage_of}
use urban_farming_backend.Gateway.Planting.{Planting, complete_garden_planting, finished}
use urban_farming_backend.Gateway.Planting.Laws.{
  IsReadyToPlant, IsPlanted, after_planting, complete_garden_planting-IsPlanted,
  complete_garden_planting-commits,
}

abbrev allocated : Db
allocated =
    sample seeds AssignmentStatus.completed AssessmentStatus.approved (installation ∷ [])
      (batch_in BatchStatus.planned none ∷ [])

abbrev planting : Planting
planting = record {
  request = request_in seeds;
  property = 20;
  installation = installation;
  batches = batch_in BatchStatus.planned none ∷ [];
  stage = stage 87 StageKey.maintenance_tasks;
}

planting-ready : IsReadyToPlant 10 allocated planting
unfolding active_installation is_stage_of InstallationStatus-discrete StageKey-discrete
    BatchStatus-discrete
planting-ready = record {
  found = refl;
  allocated = refl;
  linked = refl;
  active = refl;
  installed = cc;
  batches = refl;
  some_batch = cc;
  plantable = refl;
  tracked = refl;
}

complete_garden_planting-commits_example :
    complete_garden_planting 10 9 4 500 allocated
    ≡ ok (finished (request_in seeds), after_planting 10 9 4 500 planting allocated)
complete_garden_planting-commits_example =
    complete_garden_planting-commits 10 9 4 500 allocated planting planting-ready

complete_garden_planting-IsPlanted_example :
    (p : Planting) × IsPlanted 10 9 p
      (finished (request_in seeds))
      allocated
      (after_planting 10 9 4 500 planting allocated)
complete_garden_planting-IsPlanted_example =
    complete_garden_planting-IsPlanted 10 9 4 500 allocated
      (finished (request_in seeds), after_planting 10 9 4 500 planting allocated)
      complete_garden_planting-commits_example
