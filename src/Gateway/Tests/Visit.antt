-- ===== src/Gateway/Tests/Visit.antt =====
-- Two schedules of a visit on the sample database.
use urban_farming_backend.Prelude.{◌≡◌, refl, Option, none, some, String, [], length}
use urban_farming_backend.Json.{Json, str}
use urban_farming_backend.Db.{Db, ok}
use urban_farming_backend.Db.Rows.{GardenRequest, Uuid}
use urban_farming_backend.Db.Status.{
  submitted, AssignmentStatus, AssessmentStatus, Priority, RequestStatus-discrete,
  InspectorStatus-discrete, AssignmentStatus-discrete, StageKey-discrete, StageStatus-discrete,
}
use urban_farming_backend.Gateway.Sample.{sample, request_in, assignment_in, outcome, ok-outcome}
use urban_farming_backend.Gateway.Tables.{update_request, is_request_in, is_stage_of, update_stage}
use urban_farming_backend.Gateway.Stages.{move_stage, move_stages}
use urban_farming_backend.Gateway.Scheduling.{
  Scheduling, Scheduled, check_scheduling, assign, move_to_scheduled, schedule_with, schedule_on,
  link_property, schedule_garden_request_inspection,
}
use urban_farming_backend.Gateway.Scheduling.Effects.{
  IsVisitScheduled, schedule_garden_request_inspection-IsVisitScheduled,
  schedule_garden_request_inspection-again,
}

-- The driver takes a text, and nothing else.
abbrev bind_only_text : Json → Option String
bind_only_text (str s) = some s
bind_only_text _ = none

abbrev asked : Db
asked = sample submitted AssignmentStatus.completed AssessmentStatus.draft [] []

abbrev visit : Priority → Scheduling
visit priority = record {
  request_id = 10;
  schedule = record {
    inspector_id = 3;
    due_date = 8;
    scheduled_for = 800;
    priority = priority;
    admin_notes = "";
    focus_areas = [];
    focus_brief = none;
    access_instructions = none;
  };
  actor_id = 4;
  db_now = 500;
  now = 500;
}

abbrev unscheduled : Db → Scheduled × Db
unscheduled db = (
  record { request = request_in submitted; assignment = assignment_in AssignmentStatus.completed },
  db,
)

abbrev once : Scheduled × Db
once =
    outcome (schedule_garden_request_inspection bind_only_text (visit Priority.low) asked)
      (unscheduled asked)

abbrev twice : Scheduled × Db
twice =
    outcome (schedule_garden_request_inspection bind_only_text (visit Priority.high) once.1)
      (unscheduled asked)

once-runs : schedule_garden_request_inspection bind_only_text (visit Priority.low) asked ≡ ok once
unfolding schedule_garden_request_inspection check_scheduling link_property schedule_on assign
    schedule_with move_to_scheduled move_stages move_stage update_request is_request_in update_stage
    is_stage_of RequestStatus-discrete InspectorStatus-discrete AssignmentStatus-discrete
    StageKey-discrete StageStatus-discrete
once-runs =
    ok-outcome (schedule_garden_request_inspection bind_only_text (visit Priority.low) asked)
      (unscheduled asked) refl

twice-runs :
    schedule_garden_request_inspection bind_only_text (visit Priority.high) once.1 ≡ ok twice
unfolding schedule_garden_request_inspection check_scheduling link_property schedule_on assign
    schedule_with move_to_scheduled move_stages move_stage update_request is_request_in update_stage
    is_stage_of RequestStatus-discrete InspectorStatus-discrete AssignmentStatus-discrete
    StageKey-discrete StageStatus-discrete
twice-runs =
    ok-outcome (schedule_garden_request_inspection bind_only_text (visit Priority.high) once.1)
      (unscheduled asked) refl

schedule_garden_request_inspection-IsVisitScheduled_example :
    (r : GardenRequest) × (p : Uuid) × (middle : Db) × IsVisitScheduled
      (visit Priority.low)
      r
      p
      once.0
      asked
      middle
      once.1
schedule_garden_request_inspection-IsVisitScheduled_example =
    schedule_garden_request_inspection-IsVisitScheduled bind_only_text (visit Priority.low) once.0
      asked once.1 once-runs

schedule_garden_request_inspection-again_example :
    (twice.1.properties ≡ once.1.properties)
    × (length twice.1.inspection_assignments ≡ length once.1.inspection_assignments)
schedule_garden_request_inspection-again_example =
    schedule_garden_request_inspection-again bind_only_text (visit Priority.low)
      (visit Priority.high) once.0 twice.0 asked once.1 twice.1 refl once-runs twice-runs
