-- ===== src/Gateway/Tests/Advance.antt =====
-- A step of a request on the sample database: its activation.
use urban_farming_backend.Prelude.{◌≡◌, refl, none, some, [], ◌∷◌}
use urban_farming_backend.Db.{Db, ok}
use urban_farming_backend.Db.Rows.{GardenRequest}
use urban_farming_backend.Db.Status.{
  live, final_install, AssignmentStatus, AssessmentStatus, BatchStatus, RequestStatus-discrete,
  AssessmentStatus-discrete, InstallationStatus-discrete, BatchStatus-discrete,
}
use urban_farming_backend.Gateway.Sample.{
  sample, installation, batch_in, request_in, outcome, ok-outcome,
}
use urban_farming_backend.Gateway.Tables.{
  active_installation, approved_report, update_request, is_request_in,
}
use urban_farming_backend.Gateway.Stages.{move_stages}
use urban_farming_backend.Gateway.Advancing.{
  Advance, check_activation_of, check_activation, check_if_live, check_assignment,
  advancing_request, check_advancing, decide_report, move_request, write_advancing,
  update_garden_request_workflow,
}
use urban_farming_backend.Gateway.Advancing.Effects.{
  IsAdvanced, update_garden_request_workflow-IsAdvanced,
}

abbrev planted_garden : Db
planted_garden =
    sample final_install AssignmentStatus.completed AssessmentStatus.approved (installation ∷ [])
      (batch_in BatchStatus.growing (some 9) ∷ [])

abbrev activation : Advance
activation = record {
  request_id = 10;
  expected_status = final_install;
  request_payload = record {
    status = live;
    admin_notes = none;
    details = none;
    reviewed_by = 4;
    reviewed_at = 500;
  };
  actor_id = 4;
  stage_updates = [];
  assignment_id = none;
  report_update = none;
  now = λ u. 500;
}

abbrev activated : GardenRequest × Db
activated =
    outcome (update_garden_request_workflow activation planted_garden)
      (request_in final_install, planted_garden)

activation-runs : update_garden_request_workflow activation planted_garden ≡ ok activated
unfolding update_garden_request_workflow check_advancing advancing_request check_if_live
    check_activation check_activation_of check_assignment write_advancing decide_report move_request
    move_stages update_request is_request_in active_installation approved_report
    RequestStatus-discrete AssessmentStatus-discrete InstallationStatus-discrete
    BatchStatus-discrete
activation-runs =
    ok-outcome (update_garden_request_workflow activation planted_garden)
      (request_in final_install, planted_garden) refl

update_garden_request_workflow-IsAdvanced_example :
    (r : GardenRequest) × IsAdvanced activation r activated.0 planted_garden activated.1
update_garden_request_workflow-IsAdvanced_example =
    update_garden_request_workflow-IsAdvanced activation activated.0 planted_garden activated.1
      activation-runs
