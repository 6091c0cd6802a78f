-- ===== src/Data/Router.antt =====
-- `query_data`, `mutate_data` and `call_rpc` of app/routers/data.py: what is refused, and the call of
-- the gateway that is made otherwise. What the gateway answers is a parameter.
use text.Mathlib.Text.{◌==◌ as str_eq}
use urban_farming_backend.Prelude.{
  ℕ, Bool, true, false, not, ◌&&◌, ◌||◌, Option, none, some, String, List, [], ◌∷◌, any, map,
  is_some, if◌then◌else◌, contains_code,
}
use urban_farming_backend.Json.{Json, Fields, null, str, uuid, end, field, get, put, is_truthy}
use urban_farming_backend.Db.{Result, ok, err, app_error}
use urban_farming_backend.Auth.Identity.{CurrentUser, has_any_role}
use urban_farming_backend.Data.Tables.{
  mem, allowed_tables, public_tables, owner_column, admin_read_tables, admin_mutation_tables,
  user_mutation_tables, admin_rpcs, inspector_rpcs,
}
use urban_farming_backend.Data.Statements.{
  Statement, ensure_allowed, and_then, select_statement, insert_statement, update_statement,
  delete_statement, rpc_statement,
}

pub record DataQuery : Type 0 where
  pub table : String
  pub columns : String
  pub filters : Fields
  pub order : Option String
  pub limit : Option ℕ
  pub single : Bool

-- An object, or a list of objects
pub data Payload : Type 0 where
  one : Fields → Payload
  many : List Fields → Payload

pub data Operation : Type 0 where
  inserts updates deletes upserts : Operation

pub record DataMutation : Type 0 where
  pub operation : Operation
  pub table : String
  pub payload : Option Payload
  pub filters : Fields
  pub on_conflict : Option String

-- A call of the gateway
pub data GatewayCall : Type 0 where
  selecting : String → String → Fields → Option String → Option ℕ → GatewayCall
  inserting : String → Payload → Bool → Option String → GatewayCall
  updating : String → Fields → Fields → GatewayCall
  deleting : String → Fields → GatewayCall
  calling : String → Fields → GatewayCall

-- The statement that a call executes: an insertion of no rows executes none.
abbrev pub rows_of : Payload → List Fields
rows_of (one r) = r ∷ []
rows_of (many rs) = rs

abbrev pub insert_rows : String → List Fields → Bool → Option String → Result (Option Statement)
insert_rows table [] upsert on_conflict = ensure_allowed table allowed_tables (ok none)
insert_rows table (r ∷ rs) upsert on_conflict =
    and_then (insert_statement table r rs upsert on_conflict) (λ st. ok (some st))

unfoldable pub statement_of : GatewayCall → Result (Option Statement)
statement_of (selecting table columns filters order limit) =
    and_then (select_statement table columns filters order limit) (λ st. ok (some st))
statement_of (inserting table payload upsert on_conflict) =
    insert_rows table (rows_of payload) upsert on_conflict
statement_of (updating table payload filters) =
    and_then (update_statement table payload filters) (λ st. ok (some st))
statement_of (deleting table filters) =
    and_then (delete_statement table filters) (λ st. ok (some st))
statement_of (calling name payload) = and_then (rpc_statement name payload) (λ st. ok (some st))

abbrev pub forbidden : {A : Type 0} → String → Result A
forbidden code = err (app_error 403 code null)

abbrev pub workflow_required : {A : Type 0} → String → Result A
workflow_required code = err (app_error 409 code null)

module _ {Token : Type 0} (u : CurrentUser Token) where
  abbrev pub is_admin : Bool
  is_admin = has_any_role ("admin" ∷ "operator" ∷ []) u

  -- `_require_buyer_profile_access`
  abbrev pub lacks_buyer_access : String → Bool
  lacks_buyer_access table =
      str_eq table "buyer_profiles" && not (has_any_role ("buyer" ∷ "admin" ∷ "operator" ∷ []) u)

  abbrev pub scope_by : Option String → String → Fields → Result Fields
  scope_by (some c) table filters = ok (put c (uuid u.id) filters)
  scope_by none table filters =
      if mem table public_tables then ok filters else forbidden "table_forbidden"

  -- `_scoped_filters`
  unfoldable pub scoped_filters : String → Fields → Result Fields
  scoped_filters table filters =
      if is_admin then ok filters else scope_by (owner_column table) table filters

  abbrev pub query_columns : String → String
  query_columns s =
      if contains_code 42 s || contains_code 40 s || contains_code 41 s then "*" else s

  unfoldable pub query_call : DataQuery → Result GatewayCall
  query_call p =
      if lacks_buyer_access p.table
      then forbidden "buyer_profile_forbidden"
      else (if mem p.table admin_read_tables && not is_admin
          then forbidden "table_forbidden"
          else and_then (scoped_filters p.table p.filters)
              (λ filters. ok (selecting p.table (query_columns p.columns) filters p.order p.limit)))

  abbrev pub may_mutate : String → Bool
  may_mutate table = mem table user_mutation_tables || is_admin && mem table admin_mutation_tables

  abbrev pub history_call : String → Json → GatewayCall
  history_call table property_id =
      selecting table "id" (field "garden_id" property_id end) none (some 1)

  -- `{**row, owner_column: str(user.id)}`, unless the caller is an administrator
  abbrev pub owned_by : Option String → Fields → Fields
  owned_by none row = row
  owned_by (some c) row = put c (uuid u.id) row

  abbrev pub owned : String → Fields → Fields
  owned table row = if is_admin then row else owned_by (owner_column table) row

  abbrev pub owned_payload : String → Payload → Payload
  owned_payload table (one r) = one (owned table r)
  owned_payload table (many rs) = many (map (owned table) rs)

  -- The branch of an update
  unfoldable pub update_call : String → Payload → Fields → Result GatewayCall
  update_call table (many rs) filters = err (app_error 422 "invalid_payload" null)
  update_call table (one r) filters =
      if str_eq table "garden_requests" && is_some (get "status" r)
      then workflow_required "workflow_transition_required"
      else (if str_eq table "installations"
            && (is_some (get "status" r)
                || is_some (get "installed_at" r)
                || is_some (get "photos" r))
          then workflow_required "installation_completion_required"
          else ok (updating table (owned table r) filters))

  -- `row.get("status") == "active" or row.get("installed_at")`
  abbrev pub is_completed : Fields → Bool
  is_completed r =
      elim (get "status" r) [ some (str s) ↦ str_eq s "active" | _ ↦ false ]
      || is_truthy (get "installed_at" r)

  -- The branch of an insertion
  unfoldable pub insert_call : String → Payload → Bool → Option String → Result GatewayCall
  insert_call table payload upsert on_conflict =
      if str_eq table "installations" && any is_completed (rows_of payload)
      then workflow_required "installation_completion_required"
      else ok (inserting table (owned_payload table payload) upsert on_conflict)

  -- The branch of a deletion: `found` tells whether a query finds a row.
  abbrev pub history_of : (GatewayCall → Result Bool) → Json → Result Bool
  history_of found property_id =
      and_then (found (history_call "inspection_assignments" property_id)) (λ assigned.
        and_then (found (history_call "inspection_reports" property_id))
          (λ reported. ok (assigned || reported)))

  abbrev pub inspected : (GatewayCall → Result Bool) → String → Option Json → Result Bool
  inspected found table none = ok false
  inspected found table (some property_id) =
      if str_eq table "properties" then history_of found property_id else ok false

  unfoldable pub delete_call : (GatewayCall → Result Bool) → String → Fields → Result GatewayCall
  delete_call found table filters = and_then (inspected found table (get "id" filters)) (λ kept.
      if kept
      then workflow_required "property_has_inspection_history"
      else ok (deleting table filters))

  abbrev pub with_payload : Option Payload → (Payload → Result GatewayCall) → Result GatewayCall
  with_payload none f = err (app_error 422 "payload_required" null)
  with_payload (some payload) f = f payload

  unfoldable pub call_of : (GatewayCall → Result Bool) → DataMutation → Fields → Result GatewayCall
  call_of found p filters = elim p.operation [
    | deletes ↦ delete_call found p.table filters
    | updates ↦ with_payload p.payload (λ payload. update_call p.table payload filters)
    | inserts ↦ with_payload p.payload (λ payload. insert_call p.table payload false p.on_conflict)
    | upserts ↦ with_payload p.payload (λ payload. insert_call p.table payload true p.on_conflict)
  ]

  -- `mutate_data`, up to the last call of the gateway
  unfoldable pub mutation_call : (GatewayCall → Result Bool) → DataMutation → Result GatewayCall
  mutation_call found p =
      if lacks_buyer_access p.table
      then forbidden "buyer_profile_forbidden"
      else (if not (may_mutate p.table)
          then forbidden "table_forbidden"
          else and_then (scoped_filters p.table p.filters) (call_of found p))

  -- `call_rpc`
  unfoldable pub rpc_call : String → Fields → Result GatewayCall
  rpc_call name payload =
      if mem name admin_rpcs && not is_admin
      then forbidden "rpc_forbidden"
      else (if mem name inspector_rpcs
            && not (has_any_role ("inspector" ∷ "admin" ∷ "operator" ∷ []) u)
          then forbidden "rpc_forbidden"
          else (if not (mem name admin_rpcs || mem name inspector_rpcs)
              then forbidden "rpc_forbidden"
              else ok (calling name payload)))
