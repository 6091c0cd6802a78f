-- ===== src/Db/Status.antt =====
-- The enumerations of the schema and of the request models (database/supabase_migrations and
-- app/schemas): each is a data type, and two of its values are compared by `=?`.
use urban_farming_backend.Prelude.{Enum}

-- The life of a garden request (`garden_request_status`).
pub data RequestStatus : Type 0 where
  submitted inspection_scheduled accepted needing_implements implements_installed seeds
        final_install live rejected cancelled :
      RequestStatus

pub data InspectorStatus : Type 0 where
  active inactive suspended : InspectorStatus

pub data AssignmentStatus : Type 0 where
  pending in_progress completed failed flagged : AssignmentStatus

pub data AssessmentStatus : Type 0 where
  draft submitted_for_approval approved revision_requested rejected : AssessmentStatus

pub data OverallStatus : Type 0 where
  pending pass warning fail : OverallStatus

pub data CheckResult : Type 0 where
  pass warning fail na : CheckResult

pub data InstallationStatus : Type 0 where
  planned installed active paused decommissioned : InstallationStatus

pub data BatchStatus : Type 0 where
  planned planted growing ready harvested failed : BatchStatus

pub data StageStatus : Type 0 where
  not_started ready in_progress blocked submitted approved completed rejected skipped : StageStatus

-- The stages that the database seeds for a request.
pub data StageKey : Type 0 where
  resident_signup property_details preliminary_assessment inspector_visit site_score
        garden_recommendation approval installation crop_allocation maintenance_tasks
        harvest_recording produce_disposition impact_reporting :
      StageKey

pub data LeadStatus : Type 0 where
  new contacted scheduled assessed converted not_viable closed : LeadStatus

pub data Priority : Type 0 where
  low medium high urgent : Priority

pub data WaterAccess : Type 0 where
  none limited reliable : WaterAccess

pub data Severity : Type 0 where
  low medium high : Severity

pub data Band : Type 0 where
  suitable conditional not_suitable : Band

pub data InstallType : Type 0 where
  raised_bed in_ground container vertical greenhouse hydroponic wicking_bed : InstallType

unfoldable pub RequestStatus-discrete : Discrete RequestStatus
RequestStatus-discrete = hlevel

unfoldable pub InspectorStatus-discrete : Discrete InspectorStatus
InspectorStatus-discrete = hlevel

unfoldable pub AssignmentStatus-discrete : Discrete AssignmentStatus
AssignmentStatus-discrete = hlevel

unfoldable pub AssessmentStatus-discrete : Discrete AssessmentStatus
AssessmentStatus-discrete = hlevel

unfoldable pub OverallStatus-discrete : Discrete OverallStatus
OverallStatus-discrete = hlevel

unfoldable pub CheckResult-discrete : Discrete CheckResult
CheckResult-discrete = hlevel

unfoldable pub InstallationStatus-discrete : Discrete InstallationStatus
InstallationStatus-discrete = hlevel

unfoldable pub BatchStatus-discrete : Discrete BatchStatus
BatchStatus-discrete = hlevel

unfoldable pub StageStatus-discrete : Discrete StageStatus
StageStatus-discrete = hlevel

unfoldable pub StageKey-discrete : Discrete StageKey
StageKey-discrete = hlevel

unfoldable pub LeadStatus-discrete : Discrete LeadStatus
LeadStatus-discrete = hlevel

unfoldable pub Priority-discrete : Discrete Priority
Priority-discrete = hlevel

unfoldable pub WaterAccess-discrete : Discrete WaterAccess
WaterAccess-discrete = hlevel

unfoldable pub Severity-discrete : Discrete Severity
Severity-discrete = hlevel

unfoldable pub Band-discrete : Discrete Band
Band-discrete = hlevel

unfoldable pub InstallType-discrete : Discrete InstallType
InstallType-discrete = hlevel

instance abbrev pub request_status_enum : Enum RequestStatus
request_status_enum = record { compare_eq = RequestStatus-discrete }

instance abbrev pub inspector_status_enum : Enum InspectorStatus
inspector_status_enum = record { compare_eq = InspectorStatus-discrete }

instance abbrev pub assignment_status_enum : Enum AssignmentStatus
assignment_status_enum = record { compare_eq = AssignmentStatus-discrete }

instance abbrev pub assessment_status_enum : Enum AssessmentStatus
assessment_status_enum = record { compare_eq = AssessmentStatus-discrete }

instance abbrev pub overall_status_enum : Enum OverallStatus
overall_status_enum = record { compare_eq = OverallStatus-discrete }

instance abbrev pub check_result_enum : Enum CheckResult
check_result_enum = record { compare_eq = CheckResult-discrete }

instance abbrev pub installation_status_enum : Enum InstallationStatus
installation_status_enum = record { compare_eq = InstallationStatus-discrete }

instance abbrev pub batch_status_enum : Enum BatchStatus
batch_status_enum = record { compare_eq = BatchStatus-discrete }

instance abbrev pub stage_status_enum : Enum StageStatus
stage_status_enum = record { compare_eq = StageStatus-discrete }

instance abbrev pub stage_key_enum : Enum StageKey
stage_key_enum = record { compare_eq = StageKey-discrete }

instance abbrev pub lead_status_enum : Enum LeadStatus
lead_status_enum = record { compare_eq = LeadStatus-discrete }

instance abbrev pub priority_enum : Enum Priority
priority_enum = record { compare_eq = Priority-discrete }

instance abbrev pub water_access_enum : Enum WaterAccess
water_access_enum = record { compare_eq = WaterAccess-discrete }

instance abbrev pub severity_enum : Enum Severity
severity_enum = record { compare_eq = Severity-discrete }

instance abbrev pub band_enum : Enum Band
band_enum = record { compare_eq = Band-discrete }

instance abbrev pub install_type_enum : Enum InstallType
install_type_enum = record { compare_eq = InstallType-discrete }
