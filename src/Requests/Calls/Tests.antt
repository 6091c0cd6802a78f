-- ===== src/Requests/Calls/Tests.antt =====
-- Calls on the sample database: a refused planting, and an activation.
use urban_farming_backend.Prelude.{◌≡◌, refl, none, some, List, [], ◌∷◌}
use urban_farming_backend.Db.{Db}
use urban_farming_backend.Db.Rows.{GardenRequest}
use urban_farming_backend.Db.Status.{
  final_install, live, AssignmentStatus, AssessmentStatus, BatchStatus, RequestStatus-discrete,
  AssessmentStatus-discrete, InstallationStatus-discrete, BatchStatus-discrete,
}
use urban_farming_backend.Gateway.Sample.{sample, request_in, installation, batch_in}
use urban_farming_backend.Gateway.Tables.{
  request_by_id, update_request, is_request_in, active_installation, approved_report,
}
use urban_farming_backend.Gateway.Stages.{move_stages}
use urban_farming_backend.Gateway.Advancing.{
  advancing_request, check_activation_of, check_activation, check_if_live, check_assignment,
  check_advancing, decide_report, advanced_request, move_request, write_advancing,
  update_garden_request_workflow,
}
use urban_farming_backend.Requests.Status.{
  choose_activation, choose, decide, update_garden_request_status,
}
use urban_farming_backend.Requests.Status.Branches.{Review, activate_with}
use urban_farming_backend.Requests.Lifecycle.{way_to_live}
use urban_farming_backend.Requests.Calls.{Call, reviewing, planting, perform, perform_all, history}
use urban_farming_backend.Requests.Calls.Laws.{
  HasRun, perform_all-HasRun, perform_all-way_to_live, perform_all-is_final,
}

abbrev planted_garden : Db
planted_garden =
    sample final_install AssignmentStatus.completed AssessmentStatus.approved (installation ∷ [])
      (batch_in BatchStatus.growing (some 9) ∷ [])

abbrev activation : Review
activation = record {
  request_id = 10;
  payload = record { status = live; admin_notes = none };
  user_id = 4;
  tracked_at = 500;
  reviewed_at = 500;
  now = λ u. 500;
}

perform_all-HasRun_example :
    HasRun 10
      (request_in final_install)
      (history 10 (planting 10 9 4 500 ∷ reviewing activation planted_garden ∷ []) planted_garden)
      (perform_all (planting 10 9 4 500 ∷ reviewing activation planted_garden ∷ []) planted_garden)
perform_all-HasRun_example =
    perform_all-HasRun (planting 10 9 4 500 ∷ reviewing activation planted_garden ∷ [])
      planted_garden 10 (request_in final_install) refl

abbrev activated : GardenRequest
activated =
    advanced_request (activate_with activation (request_in final_install)).request_payload
      (request_in final_install)

activation-live :
    request_by_id 10 (perform_all (reviewing activation planted_garden ∷ []) planted_garden)
    ≡ some activated
unfolding perform_all perform update_garden_request_status decide choose choose_activation
    update_garden_request_workflow check_advancing advancing_request check_if_live check_activation
    check_activation_of check_assignment write_advancing decide_report move_request move_stages
    update_request is_request_in active_installation approved_report RequestStatus-discrete
    AssessmentStatus-discrete InstallationStatus-discrete BatchStatus-discrete
activation-live = refl

perform_all-way_to_live_example :
    history 10 (reviewing activation planted_garden ∷ []) planted_garden ≡ way_to_live final_install
perform_all-way_to_live_example =
    perform_all-way_to_live (reviewing activation planted_garden ∷ []) planted_garden 10
      (request_in final_install) activated refl activation-live refl

-- An active garden, on which an activation and a planting are tried again.
abbrev late_calls : List Call
late_calls = reviewing activation planted_garden ∷ planting 10 9 4 500 ∷ []

abbrev active_garden : Db
active_garden = sample live AssignmentStatus.completed AssessmentStatus.approved [] []

perform_all-is_final_example :
    (s : GardenRequest) × (request_by_id 10 (perform_all late_calls active_garden) ≡ some s)
    × (s.status ≡ live)
    × (history 10 late_calls active_garden ≡ [])
perform_all-is_final_example =
    perform_all-is_final late_calls active_garden 10 (request_in live) refl refl
