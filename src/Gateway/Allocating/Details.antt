-- ===== src/Gateway/Allocating/Details.antt =====
-- The details of a request after an allocation (app/infrastructure/postgres_gateway.py).
use urban_farming_backend.Prelude.{if◌then◌else◌}
use urban_farming_backend.Json.{
  Json, nil, arr, Fields, get, put, merge, as_dict, is_truthy, json_or,
}
use urban_farming_backend.Db.Status.{
  request_status_enum, installation_status_enum, assessment_status_enum,
}

-- The details of the request after the allocation.
abbrev pub allocated_details : Json → Fields → Fields
allocated_details details updates =
    let merged = merge (as_dict details) updates in
    if is_truthy (get "requestedPlants" merged)
    then merged
    else put "requestedPlants" (json_or (get "plants" merged) (arr nil)) merged
