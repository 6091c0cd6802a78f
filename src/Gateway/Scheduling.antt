-- ===== src/Gateway/Scheduling.antt =====
-- `PostgresGateway.schedule_garden_request_inspection` (app/infrastructure/postgres_gateway.py).
pub mod Laws
pub mod Effects
use urban_farming_backend.Prelude.{
  ◌&&◌, ◌||◌, Bool, not, Option, none, some, String, List, [], ◌∷◌, ◌++◌, find, where_,
  update_where, leb, ◌==◌, ◌=?◌, if◌then◌else◌,
}
use urban_farming_backend.Json.{
  Json, Fields, null, str, uuid, stamp, day, arr, obj, end, field, get, merge, as_dict, texts,
  opt_text,
}
use text.Mathlib.Text.{◌==◌ as str_eq}
use urban_farming_backend.Db.{
  Db, Tx, pure, raise, query, or_raise, raise_if, execute, app_error, conflict, not_found,
  value_error, fresh_id, ◌>>=◌, ◌>>◌,
}
use urban_farming_backend.Db.Rows.{GardenRequest, Property, Inspector, Assignment, Uuid, Time, Day}
use urban_farming_backend.Db.Status.{
  submitted, inspection_scheduled, RequestStatus, request_status_enum, InspectorStatus,
  inspector_status_enum, AssignmentStatus, assignment_status_enum, Priority, StageKey, StageStatus,
}
use urban_farming_backend.Gateway.Tables.{request_by_id, update_request}
use urban_farming_backend.Gateway.Stages.{StageUpdate, stage_moved, move_stages}
use urban_farming_backend.Gateway.Advancing.{is_open}
use urban_farming_backend.Json.{is_truthy}

-- The dictionary `schedule`.
pub record Schedule : Type 0 where
  pub inspector_id : Uuid
  pub due_date : Day
  pub scheduled_for : Time
  pub priority : Priority
  pub admin_notes : String
  pub focus_areas : List String
  pub focus_brief : Option String
  pub access_instructions : Option String

-- The arguments of the call, the database's `now()` and the program's.
pub record Scheduling : Type 0 where
  pub request_id : Uuid
  pub schedule : Schedule
  pub actor_id : Uuid
  pub db_now : Time
  pub now : Time

-- The dictionary that the call returns.
pub record Scheduled : Type 0 where
  pub request : GardenRequest
  pub assignment : Assignment

abbrev pub is_schedulable : RequestStatus → Bool
is_schedulable s = s =? submitted || s =? inspection_scheduled

-- `SELECT id FROM public.inspectors WHERE id = :id AND status = 'active'`
abbrev pub active_inspector : Uuid → Db → Option Inspector
active_inspector inspector_id db =
    find (λ i. i.id == inspector_id && i.status =? InspectorStatus.active) db.inspectors

unfoldable pub check_scheduling : Scheduling → Tx GardenRequest
check_scheduling c = do
  row ← query (request_by_id c.request_id)
  request ← or_raise row (not_found "request_not_found")
  raise_if (not (is_schedulable request.status)) (conflict "invalid_request_transition")
  inspector_row ← query (active_inspector c.schedule.inspector_id)
  inspector ← or_raise inspector_row (app_error 422 "inspector_unavailable" null)
  pure request

-- `text if text else other`
abbrev pub text_or : String → Option String → Option String
text_or s other = if str_eq s "" then other else some s

abbrev pub property_of : Uuid → Option String → GardenRequest → Property
property_of id notes r = record {
  id = id;
  owner_id = r.owner_id;
  label = r.label;
  city = r.city;
  address = r.address;
  lat = r.lat;
  lng = r.lng;
  available_space_m2 = r.available_space_m2;
  sunlight_hours = r.sunlight_hours;
  notes = notes;
}

abbrev pub with_property : Property → Db → Db
with_property p db = record db { properties = db.properties ++ p ∷ [] }

abbrev pub property_by_id : Uuid → Db → Option Property
property_by_id property_id db = find (λ p. p.id == property_id) db.properties

-- The most recently updated of the rows, the first if two are of one age.
abbrev pub newer : Assignment → Option Assignment → Option Assignment
newer a none = some a
newer a (some b) = if leb b.updated_at a.updated_at then some a else some b

abbrev pub newest : List Assignment → Option Assignment
newest [] = none
newest (a ∷ rest) = newer a (newest rest)

-- `WHERE garden_id = :garden_id AND status IN ('pending', 'in_progress')`
abbrev pub is_open_on : Uuid → Assignment → Bool
is_open_on property_id a = a.garden_id == property_id && is_open a.status

-- `... ORDER BY updated_at DESC LIMIT 1`
abbrev pub current_assignment : Uuid → Db → Option Assignment
current_assignment property_id db =
    newest (where_ (is_open_on property_id) db.inspection_assignments)

abbrev pub reassigned : Scheduling → Assignment → Assignment
reassigned c a = record a {
  inspector_id = c.schedule.inspector_id;
  due_date = c.schedule.due_date;
  scheduled_for = c.schedule.scheduled_for;
  priority = c.schedule.priority;
  admin_notes = some c.schedule.admin_notes;
  updated_at = c.db_now;
}

abbrev pub new_assignment : Uuid → Uuid → Scheduling → Assignment
new_assignment id property_id c = record {
  id = id;
  inspector_id = c.schedule.inspector_id;
  garden_id = property_id;
  due_date = c.schedule.due_date;
  scheduled_for = c.schedule.scheduled_for;
  priority = c.schedule.priority;
  status = AssignmentStatus.pending;
  admin_notes = some c.schedule.admin_notes;
  started_at = none;
  completed_at = none;
  updated_at = c.db_now;
}

abbrev pub with_reassigned : Scheduling → Uuid → Db → Db
with_reassigned c id db = record db {
  inspection_assignments = update_where (λ a. a.id == id) (reassigned c) db.inspection_assignments;
}

abbrev pub with_assignment : Assignment → Db → Db
with_assignment a db = record db { inspection_assignments = db.inspection_assignments ++ a ∷ [] }

-- The open assignment takes the new schedule, or a new one is made.
unfoldable pub assign : Scheduling → Uuid → Option Assignment → Tx Assignment
assign c property_id (some a) = do execute (with_reassigned c a.id); pure (reassigned c a)
assign c property_id none = do
  id ← fresh_id
  let a = new_assignment id property_id c
  execute (with_assignment a)
  pure a

abbrev pub priority_text : Priority → String
priority_text Priority.low = "low"
priority_text Priority.medium = "medium"
priority_text Priority.high = "high"
priority_text Priority.urgent = "urgent"

abbrev pub assignment_details : Scheduling → Uuid → Fields
assignment_details c assignment_id = field "assignmentId" (uuid assignment_id) (
    field "inspectorId" (uuid c.schedule.inspector_id) (
      field "dueDate" (day c.schedule.due_date) (
        field "scheduledFor" (stamp c.schedule.scheduled_for) (
          field "priority" (str (priority_text c.schedule.priority)) (
            field "focusAreas" (arr (texts c.schedule.focus_areas)) (
              field "focusBrief" (opt_text c.schedule.focus_brief) (
                field "accessInstructions" (opt_text c.schedule.access_instructions)
                  (field "assignedBy" (uuid c.actor_id) end))))))))

-- What `request_values` sets; a request that is scheduled again keeps its reviewer. `read` is the
-- row that the `SELECT` returned.
abbrev pub scheduled_request :
    Scheduling → GardenRequest → Uuid → Uuid → GardenRequest → GardenRequest
scheduled_request c read property_id assignment_id r =
    let fresh = read.status =? submitted in
    record r {
      property_id = some property_id;
      admin_notes = text_or c.schedule.admin_notes read.admin_notes;
      details = obj (
          merge (as_dict read.details)
            (field "inspectionAssignment" (obj (assignment_details c assignment_id)) end));
      status = if fresh then inspection_scheduled else r.status;
      reviewed_by = if fresh then some c.actor_id else r.reviewed_by;
      reviewed_at = if fresh then some c.now else r.reviewed_at;
      updated_at = c.db_now;
    }

-- The list `workflow_stages`.
abbrev pub schedule_stages : Scheduling → GardenRequest → Uuid → Uuid → List StageUpdate
schedule_stages c request property_id assignment_id =
    record {
      stage_key = StageKey.property_details;
      status = StageStatus.completed;
      evidence =
          field "address" (opt_text request.address) (field "property_id" (uuid property_id) end);
      next_action = none;
    }
    ∷ record {
      stage_key = StageKey.preliminary_assessment;
      status = StageStatus.completed;
      evidence =
          field "result" (str "manual_review_passed") (field "reviewed_by" (uuid c.actor_id) end);
      next_action = none;
    }
    ∷ record {
      stage_key = StageKey.inspector_visit;
      status = StageStatus.in_progress;
      evidence = field "assignment_id" (uuid assignment_id) end;
      next_action = some "Complete the site visit and submit the inspection report.";
    }
    ∷ []

unfoldable pub move_to_scheduled : Scheduling → GardenRequest → Uuid → Uuid → Tx GardenRequest
move_to_scheduled c request property_id assignment_id = do
  row ←
      update_request c.request_id request.status
        (scheduled_request c request property_id assignment_id)
  or_raise row (conflict "request_changed")

-- The request and the stages, once the assignment is written.
unfoldable pub schedule_with : Scheduling → GardenRequest → Uuid → Assignment → Tx Scheduled
schedule_with c request property_id assignment = do
  updated_request ← move_to_scheduled c request property_id assignment.id
  move_stages (stage_moved c.actor_id c.now) c.request_id
      (schedule_stages c request property_id assignment.id)
  pure (record { request = updated_request; assignment = assignment })

-- The assignment, the request and the stages, once the property is known.
unfoldable pub schedule_on : Scheduling → GardenRequest → Uuid → Tx Scheduled
schedule_on c request property_id = do
  current ← query (current_assignment property_id)
  assignment ← assign c property_id current
  schedule_with c request property_id assignment

-- `bind_text` is what the driver sends for a value that stands for a text parameter, or nothing
-- where it refuses the value.
module _ (bind_text : Json → Option String) where
  abbrev pub notes_or : Option Json → Option String → Tx (Option String)
  notes_or none admin_notes = pure admin_notes
  notes_or (some j) admin_notes =
      if is_truthy (some j)
      then (or_raise (bind_text j) value_error >>= λ s. pure (some s))
      else pure admin_notes

  -- `(details.get("notes") if isinstance(details, dict) else None) or admin_notes`
  abbrev pub property_notes : GardenRequest → Tx (Option String)
  property_notes r = notes_or (get "notes" (as_dict r.details)) r.admin_notes

  -- The request's property, made where it has none.
  unfoldable pub link_property : GardenRequest → Option Uuid → Tx Uuid
  link_property r none = do
    notes ← property_notes r
    id ← fresh_id
    execute (with_property (property_of id notes r))
    pure id
  link_property r (some property_id) = do
    row ← query (property_by_id property_id)
    property_row ← or_raise row (conflict "garden_property_mismatch")
    raise_if (not (property_row.owner_id == r.owner_id)) (conflict "garden_property_mismatch")
    pure property_id

  unfoldable pub schedule_garden_request_inspection : Scheduling → Tx Scheduled
  schedule_garden_request_inspection c = do
    request ← check_scheduling c
    property_id ← link_property request request.property_id
    schedule_on c request property_id
