-- ===== src/Gateway/Starting.antt =====
-- `PostgresGateway.start_inspection_report` (app/infrastructure/postgres_gateway.py), with the
-- checklist of app/routers/inspections.py.
pub mod Laws
use urban_farming_backend.Prelude.{
  Bool, true, false, ◌&&◌, ◌||◌, Option, none, some, ℕ, suc, String, List, [], ◌∷◌, ◌++◌, is_empty,
  find, where_, update_where, ◌==◌, ◌=?◌, if◌then◌else◌,
}
use urban_farming_backend.Json.{Double, obj, arr, nil, end}
use urban_farming_backend.Db.{
  Db, Tx, pure, query, or_raise, execute, not_found, fresh_id, ◌>>=◌, ◌>>◌,
}
use urban_farming_backend.Db.Rows.{Assessment, Assignment, Report, ChecklistItem, Uuid, Time}
use urban_farming_backend.Db.Status.{AssignmentStatus, AssessmentStatus, OverallStatus, CheckResult}
use urban_farming_backend.Gateway.Tables.{coalesce}
use urban_farming_backend.Gateway.Advancing.{is_open}
use urban_farming_backend.Gateway.Submitting.{items_of}

-- An entry of `checklist_template`.
pub record TemplateItem : Type 0 where
  pub category : String
  pub item_name : String
  pub requires_photo : Bool
  pub sort_order : ℕ

-- `CHECKLIST_TEMPLATE`
abbrev pub checklist_template : List TemplateItem
checklist_template =
    item "Garden condition" "Full garden view" true 1
    ∷ item "Crop health" "Leaf and growth check" true 2
    ∷ item "Irrigation status" "Watering and delivery system" true 3
    ∷ item "Pest and disease" "Signs of pests or disease" true 4
    ∷ item "Soil and beds" "Bed structure and soil condition" false 5
    ∷ item "Safety and access" "Safe access and working area" false 6
    ∷ item "User compliance" "Site usage and access checks" false 7
    ∷ item "Yield progress" "Expected progress and maturity" false 8
    ∷ []
  where
    item : String → String → Bool → ℕ → TemplateItem
    item category item_name requires_photo sort_order = record {
      category = category;
      item_name = item_name;
      requires_photo = requires_photo;
      sort_order = sort_order;
    }

-- The arguments of the call, and the database's `now()`.
pub record Start : Type 0 where
  pub assignment_id : Uuid
  pub inspector_id : Uuid
  pub gps_lat : Option Double
  pub gps_lng : Option Double
  pub template : List TemplateItem
  pub db_now : Time

-- `WHERE id = :assignment_id AND inspector_id = :inspector_id`
abbrev pub own_assignment : Start → Db → Option Assignment
own_assignment c db =
    find (λ a. a.id == c.assignment_id && a.inspector_id == c.inspector_id)
      db.inspection_assignments

-- `WHERE assignment_id = :assignment_id LIMIT 1`
abbrev pub report_of : Uuid → Db → Option Report
report_of assignment_id db = find (λ r. r.assignment_id == assignment_id) db.inspection_reports

-- The columns that the insert leaves to the schema's defaults, and the location.
abbrev pub blank_assessment : Start → Assessment
blank_assessment c = record {
  notes = none;
  gps_lat = c.gps_lat;
  gps_lng = c.gps_lng;
  sunlight_hours = none;
  water_access = none;
  usable_space_m2 = none;
  installation_types = [];
  measurements = obj end;
  risks = arr nil;
  suitability_score = none;
  score_breakdown = obj end;
  suitability_band = none;
  recommended_crops = [];
  recommended_infrastructure = [];
  overall_status = OverallStatus.pending;
  follow_up_required = false;
}

abbrev pub new_report : Uuid → Start → Assignment → Report
new_report id c a = record {
  id = id;
  assignment_id = c.assignment_id;
  inspector_id = c.inspector_id;
  garden_id = a.garden_id;
  assessment = blank_assessment c;
  assessment_status = AssessmentStatus.draft;
  started_at = some c.db_now;
  submitted_at = none;
  updated_at = c.db_now;
}

abbrev pub with_report : Report → Db → Db
with_report r db = record db { inspection_reports = db.inspection_reports ++ r ∷ [] }

-- The assignment's report, or a new one.
unfoldable pub open_report : Start → Assignment → Option Report → Tx Report
open_report c a (some r) = pure r
open_report c a none = do
  id ← fresh_id
  execute (with_report (new_report id c a))
  pure (new_report id c a)

abbrev pub begun : Start → Assignment → Assignment
begun c a = record a {
  status = if is_open a.status then AssignmentStatus.in_progress else a.status;
  started_at = coalesce a.started_at c.db_now;
  updated_at = c.db_now;
}

abbrev pub with_begun : Start → Db → Db
with_begun c db = record db {
  inspection_assignments =
      update_where (λ a. a.id == c.assignment_id) (begun c) db.inspection_assignments;
}

abbrev pub new_item : Uuid → Uuid → TemplateItem → ChecklistItem
new_item id report_id t = record {
  id = id;
  report_id = report_id;
  category = t.category;
  item_name = t.item_name;
  result = CheckResult.na;
  comment = none;
  requires_photo = t.requires_photo;
  sort_order = t.sort_order;
}

-- The rows of the template, with the identifiers that the database gives them.
abbrev pub new_items : Uuid → Uuid → List TemplateItem → List ChecklistItem
new_items next report_id [] = []
new_items next report_id (t ∷ ts) = new_item next report_id t ∷ new_items (suc next) report_id ts

abbrev pub next_after : Uuid → List TemplateItem → Uuid
next_after next [] = next
next_after next (t ∷ ts) = next_after (suc next) ts

abbrev pub with_items : Uuid → List TemplateItem → Db → Db
with_items report_id ts db = record db {
  inspection_checklist_items = db.inspection_checklist_items ++ new_items db.next_id report_id ts;
  next_id = next_after db.next_id ts;
}

-- The checklist, if the report has none.
abbrev pub with_checklist : Start → Uuid → Db → Db
with_checklist c report_id db =
    if is_empty (items_of report_id db) then with_items report_id c.template db else db

unfoldable pub start_inspection_report : Start → Tx Report
start_inspection_report c = do
  row ← query (own_assignment c)
  assignment ← or_raise row (not_found "inspection_assignment_not_found")
  existing ← query (report_of c.assignment_id)
  report ← open_report c assignment existing
  execute (with_begun c)
  execute (with_checklist c report.id)
  pure report
