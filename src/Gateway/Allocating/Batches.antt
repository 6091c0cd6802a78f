-- ===== src/Gateway/Allocating/Batches.antt =====
-- The catalog's crops, and the loop of `complete_garden_allocation` that gives each a batch
-- (app/infrastructure/postgres_gateway.py).
use urban_farming_backend.Prelude.{
  Bool, not, Option, none, some, String, List, [], ◌∷◌, ◌++◌, any, where_, map, ◌==◌, if◌then◌else◌,
}
use text.Mathlib.Text.{◌==◌ as str_eq}
use urban_farming_backend.Json.{Double}
use urban_farming_backend.Db.{Db, Tx, pure, execute, fresh_id, ◌>>=◌, ◌>>◌}
use urban_farming_backend.Db.Rows.{CropBatch, Uuid}
use urban_farming_backend.Db.Status.{
  request_status_enum, installation_status_enum, BatchStatus, assessment_status_enum,
}

-- A row of the catalog, as `crop_rows` holds it.
pub record Crop : Type 0 where
  pub id : Uuid
  pub name : String
  pub est_yield_kg_per_unit : Option Double

abbrev pub mem_text : String → List String → Bool
mem_text s = any (λ t. str_eq t s)

-- `[crop["name"] for crop in crop_rows if crop["name"] not in recommended_crops]`
abbrev pub unsupported_crops : List String → List Crop → List String
unsupported_crops recommended crops =
    map (λ c. c.name) (where_ (λ c. not (mem_text c.name recommended)) crops)

-- `crop.get("est_yield_kg_per_unit") or 0`: a zero yield is falsy too, and is the same number.
abbrev pub expected_yield : Crop → Double
expected_yield c = elim c.est_yield_kg_per_unit [
  | none ↦ record { negative = Bool.false; units = 0 }
  | some y ↦ y
]

abbrev pub new_batch : Uuid → Uuid → Uuid → Crop → CropBatch
new_batch id owner_id installation_id crop = record {
  id = id;
  installation_id = installation_id;
  crop_id = crop.id;
  owner_id = owner_id;
  units = 1;
  expected_yield_kg = expected_yield crop;
  planted_at = none;
  status = BatchStatus.planned;
}

abbrev pub mem_id : Uuid → List Uuid → Bool
mem_id i = any (λ j. j == i)

abbrev pub with_batch : CropBatch → Db → Db
with_batch b db = record db { crop_batches = db.crop_batches ++ b ∷ [] }

-- The insertion of a batch, and what follows with its identifier. `INSERT ... RETURNING id` gives a
-- row, so the loop's check of `inserted` never fails.
abbrev pub allocate_crop : {A : Type 0} → Uuid → Uuid → Crop → (Uuid → Tx A) → Tx A
allocate_crop owner_id installation_id crop next = do
  id ← fresh_id
  execute (with_batch (new_batch id owner_id installation_id crop))
  next id

-- The loop over `crop_rows`: a crop that has a batch is passed over. It gives `batch_ids`.
unfoldable pub allocate_crops : Uuid → Uuid → List Crop → List Uuid → List Uuid → Tx (List Uuid)
allocate_crops owner_id installation_id [] existing_crop_ids batch_ids = pure batch_ids
allocate_crops owner_id installation_id (crop ∷ crops) existing_crop_ids batch_ids =
    let skip = allocate_crops owner_id installation_id crops existing_crop_ids batch_ids in
    let insert = allocate_crop owner_id installation_id crop (λ id.
      allocate_crops owner_id installation_id crops (crop.id ∷ existing_crop_ids)
        (batch_ids ++ id ∷ [])) in
    if mem_id crop.id existing_crop_ids then skip else insert
