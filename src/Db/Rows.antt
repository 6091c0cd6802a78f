-- ===== src/Db/Rows.antt =====
-- The rows of the tables that the transactions of app/infrastructure/postgres_gateway.py read and
-- write, with the columns that they name (database/supabase_migrations, database/cloud_sql). A
-- nullable column is an `Option`.
use urban_farming_backend.Prelude.{ℕ, Bool, Option, String, List}
use urban_farming_backend.Json.{Double, Json}
use urban_farming_backend.Db.Status.{
  RequestStatus, InspectorStatus, AssignmentStatus, AssessmentStatus, OverallStatus, CheckResult,
  InstallationStatus, BatchStatus, StageStatus, StageKey, LeadStatus, Priority, WaterAccess, Band,
  InstallType,
}

-- A UUID, an instant and a calendar day are only compared for equality and order.
abbrev pub Uuid : Type 0
Uuid = ℕ

abbrev pub Time : Type 0
Time = ℕ

abbrev pub Day : Type 0
Day = ℕ

pub record GardenRequest : Type 0 where
  pub id : Uuid
  pub owner_id : Uuid
  pub property_id : Option Uuid
  pub label : String
  pub city : Option String
  pub address : Option String
  pub lat : Option Double
  pub lng : Option Double
  pub available_space_m2 : Option Double
  pub sunlight_hours : Option Double
  pub details : Json
  pub status : RequestStatus
  pub admin_notes : Option String
  pub reviewed_by : Option Uuid
  pub reviewed_at : Option Time
  pub created_at : Time
  pub updated_at : Time

pub record Property : Type 0 where
  pub id : Uuid
  pub owner_id : Uuid
  pub label : String
  pub city : Option String
  pub address : Option String
  pub lat : Option Double
  pub lng : Option Double
  pub available_space_m2 : Option Double
  pub sunlight_hours : Option Double
  pub notes : Option String

pub record Inspector : Type 0 where
  pub id : Uuid
  pub user_id : Uuid
  pub status : InspectorStatus

pub record Assignment : Type 0 where
  pub id : Uuid
  pub inspector_id : Uuid
  pub garden_id : Uuid
  pub due_date : Day
  pub scheduled_for : Time
  pub priority : Priority
  pub status : AssignmentStatus
  pub admin_notes : Option String
  pub started_at : Option Time
  pub completed_at : Option Time
  pub updated_at : Time

-- What an assessor submits, as the columns of the report hold it.
pub record Assessment : Type 0 where
  pub notes : Option String
  pub gps_lat : Option Double
  pub gps_lng : Option Double
  pub sunlight_hours : Option Double
  pub water_access : Option WaterAccess
  pub usable_space_m2 : Option Double
  pub installation_types : List InstallType
  pub measurements : Json
  pub risks : Json
  pub suitability_score : Option ℕ
  pub score_breakdown : Json
  pub suitability_band : Option Band
  pub recommended_crops : List String
  pub recommended_infrastructure : List String
  pub overall_status : OverallStatus
  pub follow_up_required : Bool

pub record Report : Type 0 where
  pub id : Uuid
  pub assignment_id : Uuid
  pub inspector_id : Uuid
  pub garden_id : Uuid
  pub assessment : Assessment
  pub assessment_status : AssessmentStatus
  pub started_at : Option Time
  pub submitted_at : Option Time
  pub updated_at : Time

pub record ChecklistItem : Type 0 where
  pub id : Uuid
  pub report_id : Uuid
  pub category : String
  pub item_name : String
  pub result : CheckResult
  pub comment : Option String
  pub requires_photo : Bool
  pub sort_order : ℕ

pub record Photo : Type 0 where
  pub id : Uuid
  pub report_id : Uuid
  pub checklist_item_id : Option Uuid
  pub photo_type : String

pub record Installation : Type 0 where
  pub id : Uuid
  pub property_id : Uuid
  pub owner_id : Uuid
  pub install_type : InstallType
  pub size_m2 : Double
  pub capacity_units : ℕ
  pub status : InstallationStatus
  pub installed_at : Option Day
  pub photos : List String
  pub maintenance_notes : Option String
  pub created_at : Time

pub record CropBatch : Type 0 where
  pub id : Uuid
  pub installation_id : Uuid
  pub crop_id : Uuid
  pub owner_id : Uuid
  pub units : ℕ
  pub expected_yield_kg : Double
  pub planted_at : Option Day
  pub status : BatchStatus

pub record Workflow : Type 0 where
  pub id : Uuid
  pub garden_request_id : Uuid

pub record Stage : Type 0 where
  pub id : Uuid
  pub workflow_id : Uuid
  pub stage_key : StageKey
  pub status : StageStatus
  pub owner_user_id : Option Uuid
  pub evidence : Json
  pub next_action : String
  pub started_at : Option Time
  pub submitted_at : Option Time
  pub completed_at : Option Time
  pub updated_at : Time

pub record ActivityLog : Type 0 where
  pub id : Uuid
  pub owner_id : Uuid
  pub property_id : Option Uuid
  pub installation_id : Option Uuid
  pub activity_type : String
  pub title : String
  pub details : Json

pub record Lead : Type 0 where
  pub id : Uuid
  pub email : String
  pub full_name : String
  pub status : LeadStatus
  pub admin_notes : Option String
  pub reviewed_by : Option Uuid
  pub reviewed_at : Option Time
