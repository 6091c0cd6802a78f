-- ===== src/Gateway/Sample.antt =====
-- A small database for the tests: a garden of owner 1 at every point of its life.
use urban_farming_backend.Prelude.{
  ◌≡◌, refl, ℕ, Bool, true, false, Option, none, some, List, [], ◌∷◌,
}
use urban_farming_backend.Json.{Double, obj, end, null}
use urban_farming_backend.Db.{Db, Result, ok, err}
use urban_farming_backend.Db.Rows.{
  GardenRequest, Property, Assignment, Assessment, Report, Installation, CropBatch, Stage,
}
use urban_farming_backend.Db.Status.{
  RequestStatus, InspectorStatus, AssignmentStatus, AssessmentStatus, OverallStatus,
  InstallationStatus, BatchStatus, StageStatus, StageKey, Priority, InstallType,
}

abbrev pub zero_double : Double
zero_double = record { negative = false; units = 0 }

-- The request 10 on the property 20.
abbrev pub request_in : RequestStatus → GardenRequest
request_in status = record {
  id = 10;
  owner_id = 1;
  property_id = some 20;
  label = "yard";
  city = none;
  address = none;
  lat = none;
  lng = none;
  available_space_m2 = none;
  sunlight_hours = none;
  details = obj end;
  status = status;
  admin_notes = none;
  reviewed_by = none;
  reviewed_at = none;
  created_at = 100;
  updated_at = 100;
}

abbrev pub property : Property
property = record {
  id = 20;
  owner_id = 1;
  label = "yard";
  city = none;
  address = none;
  lat = none;
  lng = none;
  available_space_m2 = none;
  sunlight_hours = none;
  notes = none;
}

abbrev pub assignment_in : AssignmentStatus → Assignment
assignment_in status = record {
  id = 30;
  inspector_id = 3;
  garden_id = 20;
  due_date = 7;
  scheduled_for = 700;
  priority = Priority.medium;
  status = status;
  admin_notes = none;
  started_at = none;
  completed_at = none;
  updated_at = 100;
}

abbrev pub blank_assessment : Assessment
blank_assessment = record {
  notes = none;
  gps_lat = none;
  gps_lng = none;
  sunlight_hours = none;
  water_access = none;
  usable_space_m2 = none;
  installation_types = [];
  measurements = obj end;
  risks = null;
  suitability_score = none;
  score_breakdown = obj end;
  suitability_band = none;
  recommended_crops = "spinach" ∷ [];
  recommended_infrastructure = "bed" ∷ [];
  overall_status = OverallStatus.pending;
  follow_up_required = false;
}

abbrev pub report_in : AssessmentStatus → Report
report_in status = record {
  id = 40;
  assignment_id = 30;
  inspector_id = 3;
  garden_id = 20;
  assessment = blank_assessment;
  assessment_status = status;
  started_at = some 100;
  submitted_at = none;
  updated_at = 100;
}

abbrev pub installation : Installation
installation = record {
  id = 50;
  property_id = 20;
  owner_id = 1;
  install_type = InstallType.raised_bed;
  size_m2 = zero_double;
  capacity_units = 12;
  status = InstallationStatus.active;
  installed_at = some 5;
  photos = [];
  maintenance_notes = none;
  created_at = 100;
}

abbrev pub batch_in : BatchStatus → Option ℕ → CropBatch
batch_in status planted_at = record {
  id = 60;
  installation_id = 50;
  crop_id = 6;
  owner_id = 1;
  units = 1;
  expected_yield_kg = zero_double;
  planted_at = planted_at;
  status = status;
}

abbrev pub stage : ℕ → StageKey → Stage
stage id key = record {
  id = id;
  workflow_id = 70;
  stage_key = key;
  status = StageStatus.not_started;
  owner_user_id = none;
  evidence = obj end;
  next_action = "";
  started_at = none;
  submitted_at = none;
  completed_at = none;
  updated_at = 100;
}

abbrev pub all_stages : List Stage
all_stages =
    stage 81 StageKey.property_details
    ∷ stage 82 StageKey.preliminary_assessment
    ∷ stage 83 StageKey.inspector_visit
    ∷ stage 84 StageKey.approval
    ∷ stage 85 StageKey.installation
    ∷ stage 86 StageKey.crop_allocation
    ∷ stage 87 StageKey.maintenance_tasks
    ∷ []

abbrev pub sample :
    RequestStatus → AssignmentStatus → AssessmentStatus → List Installation → List CropBatch → Db
sample status assigned assessed installations batches = record {
  garden_requests = request_in status ∷ [];
  properties = property ∷ [];
  inspectors = record { id = 3; user_id = 2; status = InspectorStatus.active } ∷ [];
  inspection_assignments = assignment_in assigned ∷ [];
  inspection_reports = report_in assessed ∷ [];
  inspection_checklist_items = [];
  inspection_photos = [];
  installations = installations;
  crop_batches = batches;
  operational_workflows = record { id = 70; garden_request_id = 10 } ∷ [];
  workflow_stages = all_stages;
  garden_activity_logs = [];
  assessment_leads = [];
  next_id = 1000;
}

-- What a run that commits gives.
abbrev pub is_ok : {A : Type 0} → Result A → Bool
is_ok (ok a) = true
is_ok (err e) = false

abbrev pub outcome : {A : Type 0} → Result A → A → A
outcome (ok a) default = a
outcome (err e) default = default

pub ok-outcome :
    {A : Type 0} (r : Result A) (default : A) → is_ok r ≡ true → r ≡ ok (outcome r default)
ok-outcome (ok a) default h = refl
ok-outcome (err e) default h = cc
