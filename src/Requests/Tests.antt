-- ===== src/Requests/Tests.antt =====
-- An approval on the sample database.
use urban_farming_backend.Prelude.{◌≡◌, refl, some, List, [], map, strip}
use urban_farming_backend.Db.{Db, ok}
use urban_farming_backend.Db.Rows.{GardenRequest, Report}
use urban_farming_backend.Db.Status.{
  inspection_scheduled, accepted, AssignmentStatus, AssessmentStatus, RequestStatus-discrete,
  AssessmentStatus-discrete, StageKey-discrete, StageStatus-discrete, Band, Band-discrete,
}
use urban_farming_backend.Gateway.Sample.{sample, request_in, outcome, ok-outcome}
use urban_farming_backend.Gateway.Tables.{update_request, is_request_in, is_stage_of, update_stage}
use urban_farming_backend.Gateway.Stages.{move_stage, move_stages}
use urban_farming_backend.Gateway.Advancing.{
  Advance, advancing_request, check_if_live, check_assignment, check_advancing, decide_report,
  move_request, write_advancing, update_garden_request_workflow,
}
use urban_farming_backend.Requests.Status.{
  choose_approval, choose, decide, update_garden_request_status,
}
use urban_farming_backend.Requests.Status.Branches.{Review}
use urban_farming_backend.Requests.Status.Effects.{
  IsMoved, IsApproved, update_garden_request_status-IsMoved,
  update_garden_request_status-IsApproved,
}

-- A visited site whose report was scored `not_suitable`
abbrev unsuitable : Report → Report
unsuitable t = record t {
  assessment = record t.assessment { suitability_band = some Band.not_suitable };
}

abbrev visited_with : List Report → Db → Db
visited_with ts db = record db { inspection_reports = ts }

abbrev submitted_db : Db
submitted_db =
    sample inspection_scheduled AssignmentStatus.completed AssessmentStatus.submitted_for_approval
      [] []

abbrev visited : Db
visited = visited_with (map unsuitable submitted_db.inspection_reports) submitted_db

abbrev approval : Review
approval = record {
  request_id = 10;
  payload = record { status = accepted; admin_notes = some "Raised beds fit this site" };
  user_id = 4;
  tracked_at = 500;
  reviewed_at = 500;
  now = λ u. 500;
}

abbrev approved : GardenRequest × Db
approved =
    outcome (update_garden_request_status approval visited visited)
      (request_in inspection_scheduled, visited)

approval-runs : update_garden_request_status approval visited visited ≡ ok approved
unfolding update_garden_request_status decide choose choose_approval update_garden_request_workflow
    check_advancing advancing_request check_if_live check_assignment write_advancing decide_report
    move_request move_stages move_stage update_request is_request_in update_stage is_stage_of
    RequestStatus-discrete AssessmentStatus-discrete StageKey-discrete StageStatus-discrete
    Band-discrete strip
approval-runs =
    ok-outcome (update_garden_request_status approval visited visited)
      (request_in inspection_scheduled, visited) refl

update_garden_request_status-IsMoved_example :
    (a : Advance) × (r : GardenRequest) × IsMoved approval a r approved.0 visited approved.1
update_garden_request_status-IsMoved_example =
    update_garden_request_status-IsMoved approval visited approved.0 visited approved.1
      approval-runs

update_garden_request_status-IsApproved_example :
    (t : Report) × IsApproved approval t visited visited approved.1
update_garden_request_status-IsApproved_example =
    update_garden_request_status-IsApproved approval visited approved.0 visited approved.1 refl
      approval-runs
