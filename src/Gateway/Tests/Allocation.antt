-- ===== src/Gateway/Tests/Allocation.antt =====
-- An allocation of crops on the sample database.
use urban_farming_backend.Prelude.{◌≡◌, refl, none, [], ◌∷◌}
use urban_farming_backend.Json.{end, null}
use urban_farming_backend.Db.{Db, ok}
use urban_farming_backend.Db.Rows.{Installation}
use urban_farming_backend.Db.Status.{
  implements_installed, seeds, AssignmentStatus, AssessmentStatus, RequestStatus-discrete,
  AssessmentStatus-discrete, InstallationStatus-discrete, StageKey-discrete,
}
use urban_farming_backend.Gateway.Sample.{sample, installation, outcome, ok-outcome}
use urban_farming_backend.Gateway.Tables.{
  oldest, update_request, is_request_in, is_stage_of, update_stage,
}
use urban_farming_backend.Gateway.Allocating.Batches.{Crop, allocate_crops}
use urban_farming_backend.Gateway.Allocating.{
  Allocation, Allocating, Allocated, allocatable_request, check_allocating, describe_property,
  completed_installation, move_to_seeds, log_activity, log_allocation, allocation_stages,
  advance_stages, prepare_allocation, finish_allocation, complete_garden_allocation,
}
use urban_farming_backend.Gateway.Allocating.Laws.{
  IsAllocated, complete_garden_allocation-IsAllocated,
}

abbrev installed_garden : Db
installed_garden =
    sample implements_installed AssignmentStatus.completed AssessmentStatus.approved
      (installation ∷ []) []

abbrev spinach : Crop
spinach = record { id = 6; name = "spinach"; est_yield_kg_per_unit = none }

abbrev allocation : Allocation
allocation = record {
  request_id = 10;
  property_id = 20;
  property_payload = record {
    label = "yard";
    city = none;
    address = none;
    lat = none;
    lng = none;
    available_space_m2 = none;
    sunlight_hours = none;
    notes = none;
  };
  report_id = 40;
  crops = spinach ∷ [];
  detail_updates = end;
  admin_notes = none;
  actor_id = 4;
  now = 500;
}

abbrev nothing_allocated : Allocated × Db
nothing_allocated = (
  record {
    request_id = 0;
    property_id = 0;
    installation_id = 0;
    allocated_plants = null;
    matched_plants = [];
    status = seeds;
  },
  installed_garden,
)

abbrev allocated : Allocated × Db
allocated = outcome (complete_garden_allocation allocation installed_garden) nothing_allocated

allocation-runs : complete_garden_allocation allocation installed_garden ≡ ok allocated
unfolding complete_garden_allocation prepare_allocation check_allocating allocatable_request
    describe_property completed_installation oldest finish_allocation allocate_crops move_to_seeds
    log_allocation log_activity advance_stages allocation_stages update_request is_request_in
    update_stage is_stage_of RequestStatus-discrete AssessmentStatus-discrete
    InstallationStatus-discrete StageKey-discrete
allocation-runs =
    ok-outcome (complete_garden_allocation allocation installed_garden) nothing_allocated refl

complete_garden_allocation-IsAllocated_example :
    (c : Allocating) × (i : Installation) × (allocated.0.installation_id ≡ i.id)
    × IsAllocated allocation c i installed_garden allocated.1
complete_garden_allocation-IsAllocated_example =
    complete_garden_allocation-IsAllocated allocation allocated installed_garden allocation-runs
