-- ===== src/Db.antt =====
-- The database as a value: a list of rows for each table, in the order of insertion, and the
-- identifiers that it generates. A transaction (`async with self.engine.begin()`) is a function on
-- it that gives a result and the new database, or raises and, being rolled back, gives no database.
-- Transactions run one at a time: each locks the rows that it reads (`FOR UPDATE`). The schema's
-- triggers, which the source does not call, are not part of it.
pub mod Status
pub mod Rows
pub mod Laws
use urban_farming_backend.Prelude.{
  ℕ, suc, Bool, true, false, Option, none, some, String, List, arith, if◌then◌else◌,
}
use urban_farming_backend.Json.{Json, null}
use Rows.{
  GardenRequest, Property, Inspector, Assignment, Report, ChecklistItem, Photo, Installation,
  CropBatch, Workflow, Stage, ActivityLog, Lead, Uuid,
}

pub record Db : Type 0 where
  pub garden_requests : List GardenRequest
  pub properties : List Property
  pub inspectors : List Inspector
  pub inspection_assignments : List Assignment
  pub inspection_reports : List Report
  pub inspection_checklist_items : List ChecklistItem
  pub inspection_photos : List Photo
  pub installations : List Installation
  pub crop_batches : List CropBatch
  pub operational_workflows : List Workflow
  pub workflow_stages : List Stage
  pub garden_activity_logs : List ActivityLog
  pub assessment_leads : List Lead
  -- the next identifier that `gen_random_uuid()` gives: it was never given before
  pub next_id : Uuid

-- `AppError(status_code, code, message, details)`, without the text of the message; `value_error`
-- is the `ValueError` of a helper, `no_result_found` what `.one()` raises, `key_error` a missing key and
-- `attribute_error` a method that the value lacks, `transport_error` a failed HTTP call.
pub data Error : Type 0 where
  app_error : ℕ → String → Json → Error
  value_error no_result_found key_error attribute_error transport_error : Error

pub data Result {ℓ} (A : Type ℓ) : Type ℓ where
  ok : A → Result A
  err : Error → Result A

abbrev pub Tx : Type 0 → Type 0
Tx A = Db → Result (A × Db)

module _ {A : Type 0} where
  abbrev pub pure : A → Tx A
  pure a db = ok (a, db)

  abbrev pub raise : Error → Tx A
  raise e db = err e

  -- A `SELECT`
  abbrev pub query : (Db → A) → Tx A
  query f db = ok (f db, db)

  -- `row = ...first()`, and `raise e` where it is `None`
  abbrev pub or_raise : Option A → Error → Tx A
  or_raise none e = raise e
  or_raise (some a) e = pure a

infixl 5 ◌>>=◌ ◌>>◌
abbrev pub ◌>>=◌ : {A B : Type 0} → Tx A → (A → Tx B) → Tx B
◌>>=◌ m f db = elim (m db) [ ok (a, db') ↦ f a db' | err e ↦ err e ]

abbrev pub ◌>>◌ : {B : Type 0} → Tx (Unit {0}) → Tx B → Tx B
m >> k = m >>= λ _. k

abbrev pub raise_if : Bool → Error → Tx (Unit {0})
raise_if true e db = err e
raise_if false e db = ok (tt, db)

abbrev pub execute : (Db → Db) → Tx (Unit {0})
execute f db = ok (tt, f db)

abbrev pub conflict : String → Error
conflict code = app_error 409 code null

abbrev pub not_found : String → Error
not_found code = app_error 404 code null

abbrev pub fresh_id : Tx Uuid
fresh_id db = ok (db.next_id, record db { next_id = suc db.next_id })
