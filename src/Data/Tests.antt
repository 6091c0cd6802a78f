-- ===== src/Data/Tests.antt =====
-- A caller with no role but that of a grower, who updates a task and upserts a garden request.
use urban_farming_backend.Prelude.{◌≡◌, refl, inr, Bool, false, none, some, [], ◌∷◌}
use urban_farming_backend.Json.{Fields, str, uuid, end, field, put}
use urban_farming_backend.Db.{Result, ok}
use urban_farming_backend.Auth.Identity.{CurrentUser}
use urban_farming_backend.Data.Tables.{
  public_tables, further_tables, user_mutation_tables, owner_columns,
}
use urban_farming_backend.Data.Statements.{
  compares, Statement, quote_identifier, build_filters, update_statement,
}
use urban_farming_backend.Data.Router.{
  DataQuery, DataMutation, one, Operation, GatewayCall, updating, statement_of, scoped_filters,
  update_call, call_of, mutation_call,
}
use urban_farming_backend.Data.Laws.{IsScoped}
use urban_farming_backend.Data.Scoping.{upsert_of, mutation_call-IsScoped, mutation_call_upsert}

abbrev grower : CurrentUser Fields
grower = record {
  id = 7;
  email = none;
  roles = "grower" ∷ [];
  user_metadata = end;
  access_token = none;
}

abbrev nothing_found : GatewayCall → Result Bool
nothing_found call = ok false

abbrev all_tasks : DataQuery
all_tasks = record {
  table = "garden_tasks";
  columns = "*";
  filters = end;
  order = none;
  limit = none;
  single = false;
}

abbrev renaming : DataMutation
renaming = record {
  operation = Operation.updates;
  table = "garden_tasks";
  payload = some (one (field "title" (str "x") end));
  filters = field "id" (uuid 3) end;
  on_conflict = none;
}

abbrev renamed : Statement
renamed =
    Statement.updates "garden_tasks" (field "title" (str "x") (field "owner_id" (uuid 7) end))
      (compares "id" "=" (uuid 3) ∷ compares "owner_id" "=" (uuid 7) ∷ [])

mutation_call-IsScoped_example : IsScoped "owner_id" 7 renamed
unfolding mutation_call call_of update_call scoped_filters statement_of update_statement
    build_filters quote_identifier public_tables further_tables user_mutation_tables owner_columns
mutation_call-IsScoped_example =
    mutation_call-IsScoped grower nothing_found all_tasks renaming "owner_id"
      (updating "garden_tasks" (field "title" (str "x") (field "owner_id" (uuid 7) end))
        (field "id" (uuid 3) (field "owner_id" (uuid 7) end)))
      renamed refl (inr (refl, refl)) refl

abbrev foreign_request : Fields
foreign_request = field "id" (uuid 3) (field "status" (str "live") end)

mutation_call_upsert_example :
    (call : GatewayCall) × (mutation_call grower nothing_found (record {
      operation = Operation.upserts;
      table = "garden_requests";
      payload = some (one foreign_request);
      filters = end;
      on_conflict = some "id";
    })
      ≡ ok call)
    × (statement_of call ≡ ok (some (upsert_of (put "owner_id" (uuid 7) foreign_request))))
unfolding quote_identifier
mutation_call_upsert_example =
    mutation_call_upsert grower nothing_found foreign_request end refl refl
