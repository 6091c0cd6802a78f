-- ===== src/Gateway/Converting.antt =====
-- `PostgresGateway.convert_assessment_lead` (app/infrastructure/postgres_gateway.py).
pub mod Laws
use urban_farming_backend.Prelude.{
  Bool, true, false, Option, none, some, String, List, [], ◌∷◌, ◌++◌, find, where_, update_where,
  leb, ◌==◌, if◌then◌else◌,
}
use urban_farming_backend.Json.{Double, Json, Fields, uuid, obj, get, as_dict}
use urban_farming_backend.Db.{
  Db, Tx, pure, query, or_raise, execute, conflict, not_found, fresh_id, ◌>>=◌, ◌>>◌,
}
use urban_farming_backend.Db.Rows.{GardenRequest, Lead, Uuid, Time}
use urban_farming_backend.Db.Status.{RequestStatus, LeadStatus}

-- `garden_request_payload`, as app/routers/communications.py builds it.
pub record LeadRequest : Type 0 where
  pub owner_id : Uuid
  pub label : String
  pub city : Option String
  pub address : Option String
  pub available_space_m2 : Option Double
  pub sunlight_hours : Option Double
  pub details : Fields
  pub status : RequestStatus
  pub admin_notes : Option String
  pub reviewed_by : Uuid
  pub reviewed_at : Time

-- The arguments of the call, the program's clock and the database's.
pub record Conversion : Type 0 where
  pub lead_id : Uuid
  pub payload : LeadRequest
  pub actor_id : Uuid
  pub now : Time
  pub db_now : Time

-- The dictionary that the call returns.
pub record Converted : Type 0 where
  pub lead : Lead
  pub garden_request : GardenRequest
  pub created : Bool

abbrev pub lead_by_id : Uuid → Db → Option Lead
lead_by_id lead_id db = find (λ l. l.id == lead_id) db.assessment_leads

abbrev pub is_uuid : Uuid → Option Json → Bool
is_uuid i (some (uuid j)) = j == i
is_uuid i _ = false

-- `details->>'assessment_lead_id' = :lead_id`
abbrev pub is_of_lead : Uuid → GardenRequest → Bool
is_of_lead lead_id r = is_uuid lead_id (get "assessment_lead_id" (as_dict r.details))

abbrev pub older_request : GardenRequest → Option GardenRequest → Option GardenRequest
older_request r none = some r
older_request r (some s) = if leb r.created_at s.created_at then some r else some s

-- `ORDER BY created_at ASC LIMIT 1`
abbrev pub oldest_request : List GardenRequest → Option GardenRequest
oldest_request [] = none
oldest_request (r ∷ rest) = older_request r (oldest_request rest)

abbrev pub request_of_lead : Uuid → Db → Option GardenRequest
request_of_lead lead_id db = oldest_request (where_ (is_of_lead lead_id) db.garden_requests)

abbrev pub new_request : Uuid → Conversion → GardenRequest
new_request id c = record {
  id = id;
  owner_id = c.payload.owner_id;
  property_id = none;
  label = c.payload.label;
  city = c.payload.city;
  address = c.payload.address;
  lat = none;
  lng = none;
  available_space_m2 = c.payload.available_space_m2;
  sunlight_hours = c.payload.sunlight_hours;
  details = obj c.payload.details;
  status = c.payload.status;
  admin_notes = c.payload.admin_notes;
  reviewed_by = some c.payload.reviewed_by;
  reviewed_at = some c.payload.reviewed_at;
  created_at = c.db_now;
  updated_at = c.db_now;
}

abbrev pub with_new_request : GardenRequest → Db → Db
with_new_request r db = record db { garden_requests = db.garden_requests ++ r ∷ [] }

-- The lead's request, and whether it was made now.
unfoldable pub make_request : Conversion → Option GardenRequest → Tx (GardenRequest × Bool)
make_request c (some r) = pure (r, false)
make_request c none = do
  id ← fresh_id
  execute (with_new_request (new_request id c))
  pure (new_request id c, true)

abbrev pub converted : Conversion → Lead → Lead
converted c l = record l {
  status = LeadStatus.converted;
  admin_notes = c.payload.admin_notes;
  reviewed_by = some c.actor_id;
  reviewed_at = some c.now;
}

abbrev pub with_converted : Conversion → Db → Db
with_converted c db = record db {
  assessment_leads = update_where (λ l. l.id == c.lead_id) (converted c) db.assessment_leads;
}

-- The update of the lead, whose row is required.
unfoldable pub update_lead : Conversion → Tx Lead
update_lead c = do
  row ← query (lead_by_id c.lead_id)
  execute (with_converted c)
  lead ← or_raise row (conflict "assessment_lead_conversion_incomplete")
  pure (converted c lead)

unfoldable pub convert_assessment_lead : Conversion → Tx Converted
convert_assessment_lead c = do
  row ← query (lead_by_id c.lead_id)
  lead ← or_raise row (not_found "assessment_lead_not_found")
  existing_request ← query (request_of_lead c.lead_id)
  made ← make_request c existing_request
  updated_lead ← update_lead c
  pure (record { lead = updated_lead; garden_request = made.0; created = made.1 })
