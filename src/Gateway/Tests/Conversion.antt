-- ===== src/Gateway/Tests/Conversion.antt =====
-- A lead that is converted twice.
use urban_farming_backend.Prelude.{◌≡◌, refl, false, none, [], ◌∷◌}
use urban_farming_backend.Json.{uuid, end, field}
use urban_farming_backend.Db.{Db, ok}
use urban_farming_backend.Db.Rows.{Lead}
use urban_farming_backend.Db.Status.{RequestStatus, AssignmentStatus, AssessmentStatus, LeadStatus}
use urban_farming_backend.Gateway.Sample.{sample, request_in, outcome, ok-outcome}
use urban_farming_backend.Gateway.Converting.{
  Conversion, Converted, make_request, update_lead, convert_assessment_lead,
}
use urban_farming_backend.Gateway.Converting.Laws.{convert_assessment_lead-again}

abbrev lead : Lead
lead = record {
  id = 95;
  email = "a@b.c";
  full_name = "A B";
  status = LeadStatus.new;
  admin_notes = none;
  reviewed_by = none;
  reviewed_at = none;
}

abbrev leads : Db
leads =
    record (sample RequestStatus.live AssignmentStatus.completed AssessmentStatus.approved [] []) {
      assessment_leads = lead ∷ [];
    }

abbrev conversion : Conversion
conversion = record {
  lead_id = 95;
  payload = record {
    owner_id = 1;
    label = "balcony";
    city = none;
    address = none;
    available_space_m2 = none;
    sunlight_hours = none;
    details = field "assessment_lead_id" (uuid 95) end;
    status = RequestStatus.submitted;
    admin_notes = none;
    reviewed_by = 4;
    reviewed_at = 500;
  };
  actor_id = 4;
  now = 500;
  db_now = 500;
}

abbrev unconverted : Converted × Db
unconverted =
    (record { lead = lead; garden_request = request_in RequestStatus.live; created = false }, leads)

abbrev once : Converted × Db
once = outcome (convert_assessment_lead conversion leads) unconverted

abbrev twice : Converted × Db
twice = outcome (convert_assessment_lead conversion once.1) unconverted

once-runs : convert_assessment_lead conversion leads ≡ ok once
unfolding convert_assessment_lead make_request update_lead
once-runs = ok-outcome (convert_assessment_lead conversion leads) unconverted refl

twice-runs : convert_assessment_lead conversion once.1 ≡ ok twice
unfolding convert_assessment_lead make_request update_lead
twice-runs = ok-outcome (convert_assessment_lead conversion once.1) unconverted refl

convert_assessment_lead-again_example :
    (twice.0.garden_request ≡ once.0.garden_request)
    × (twice.0.created ≡ false)
    × (twice.1.garden_requests ≡ once.1.garden_requests)
convert_assessment_lead-again_example =
    convert_assessment_lead-again conversion conversion once.0 twice.0 leads once.1 twice.1 refl
      refl once-runs twice-runs
