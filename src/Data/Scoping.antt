-- ===== src/Data/Scoping.antt =====
-- The statements that a caller who is no administrator has executed.
use mathlib.Core.Path.{subst}
use text.Mathlib.TextEquality.{eq_iff}
use urban_farming_backend.Prelude.{
  ◌≡◌, refl, ◌⊎◌, inl, inr, Bool, true, false, not, Option, some, String, List, [], ◌∷◌, All, all,
  where_, arith, ℕ, strip,
}
use urban_farming_backend.Json.{Fields, uuid, get, put}
use urban_farming_backend.Db.{Result, ok, err}
use urban_farming_backend.Db.Rows.{Uuid}
use urban_farming_backend.Auth.Identity.{CurrentUser}
use urban_farming_backend.Data.Tables.{
  mem, owner_column, allowed_tables, owner_columns, user_mutation_tables, further_tables,
  public_tables,
}
use urban_farming_backend.Data.Statements.{
  Statement, selects, inserts, updates, deletes, quote_identifier, build_filters, and_then,
  ensure_allowed, traverse, keys, has_keys, columns_of, order_of, select_statement,
  insert_statement, update_statement, delete_statement, conflict_of,
}
use urban_farming_backend.Data.Router.{
  DataQuery, DataMutation, one, Operation, GatewayCall, selecting, inserting, updating, deleting,
  calling, rows_of, statement_of, insert_rows, is_admin, query_call, mutation_call, scoped_filters,
  call_of, insert_call,
}
use urban_farming_backend.Data.Laws.{
  IsScoped, IsOwned, build_filters-Among, query_call-IsOwned, mutation_call-IsOwned,
}

and_then-eq-ok :
    {A B : Type 0} (x : Result A) (f : A → Result B) (b : B)
    → and_then x f ≡ ok b
    → (a : A) × (x ≡ ok a) × (f a ≡ ok b)
and_then-eq-ok (ok a) f b h = (a, refl, h)
and_then-eq-ok (err e) f b h = cc

ensure_allowed-eq-ok :
    {A : Type 0} (x : String) (xs : List String) (r : Result A) (a : A)
    → ensure_allowed x xs r ≡ ok a
    → r ≡ ok a
ensure_allowed-eq-ok x xs r a h = ground arith

module _ (c : String) (i : Uuid) where
  selects-IsScoped :
      (table columns : String) (filters : Fields) (order : Option String) (limit : Option ℕ)
      (st : Statement)
      → get c filters ≡ some (uuid i)
      → select_statement table columns filters order limit ≡ ok st
      → IsScoped c i st
  unfolding select_statement
  selects-IsScoped table columns filters order limit st owner h =
      let h1 = ensure_allowed-eq-ok table allowed_tables _ st h in
      let (cols, e1, h2) = and_then-eq-ok (columns_of columns) _ st h1 in
      let (cs, e2, h3) = and_then-eq-ok (build_filters filters) _ st h2 in
      let (o, e3, h4) = and_then-eq-ok (order_of order) _ st h3 in
      let made : selects table cols cs o limit ≡ st = ground (arith, h4) in
      subst (IsScoped c i) made (build_filters-Among c i filters cs owner e2)

  updates-IsScoped :
      (table : String) (payload filters : Fields) (st : Statement)
      → get c payload ≡ some (uuid i)
      → get c filters ≡ some (uuid i)
      → update_statement table payload filters ≡ ok st
      → IsScoped c i st
  unfolding update_statement
  updates-IsScoped table payload filters st kept owner h =
      let h1 = ensure_allowed-eq-ok table allowed_tables _ st h in
      let (cols, e1, h2) = and_then-eq-ok (traverse quote_identifier (keys payload)) _ st h1 in
      let (cs, e2, h3) = and_then-eq-ok (build_filters filters) _ st h2 in
      let made : updates table payload cs ≡ st = ground (arith, h3) in
      subst (IsScoped c i) made (kept, build_filters-Among c i filters cs owner e2)

  deletes-IsScoped :
      (table : String) (filters : Fields) (st : Statement)
      → get c filters ≡ some (uuid i)
      → delete_statement table filters ≡ ok st
      → IsScoped c i st
  unfolding delete_statement
  deletes-IsScoped table filters st owner h =
      let h1 = ensure_allowed-eq-ok table allowed_tables _ st h in
      let (cs, e2, h2) = and_then-eq-ok (build_filters filters) _ st h1 in
      let made : deletes table cs ≡ st = ground (arith, h2) in
      subst (IsScoped c i) made (build_filters-Among c i filters cs owner e2)

  inserts-IsScoped :
      (table : String) (r : Fields) (rs : List Fields) (upsert : Bool) (on_conflict : Option String)
      (st : Statement)
      → All (λ row. get c row ≡ some (uuid i)) (r ∷ rs)
      → insert_statement table r rs upsert on_conflict ≡ ok st
      → IsScoped c i st
  unfolding insert_statement
  inserts-IsScoped table r rs upsert on_conflict st owned h =
      let h1 = ensure_allowed-eq-ok table allowed_tables _ st h in
      let h2 : and_then (traverse quote_identifier (keys r)) (λ columns.
        and_then (conflict_of upsert on_conflict columns)
          (λ conflict. ok (inserts table columns (r ∷ rs) conflict)))
          ≡ ok st =
        ground (arith, h1) in
      let (cols, e1, h3) = and_then-eq-ok (traverse quote_identifier (keys r)) _ st h2 in
      let (conflict, e2, h4) = and_then-eq-ok (conflict_of upsert on_conflict cols) _ st h3 in
      let made : inserts table cols (r ∷ rs) conflict ≡ st = ground (arith, h4) in
      subst (IsScoped c i) made owned

  statement_of-IsScoped :
      (call : GatewayCall) (st : Statement)
      → IsOwned c i call
      → statement_of call ≡ ok (some st)
      → IsScoped c i st
  unfolding statement_of
  statement_of-IsScoped (selecting table columns filters order limit) st owned h =
      selects-IsScoped table columns filters order limit st owned (ground arith)
  statement_of-IsScoped (inserting table payload upsert on_conflict) st owned h =
      go (rows_of payload) owned h
    where
      go :
          (rows : List Fields)
          → All (λ row. get c row ≡ some (uuid i)) rows
          → insert_rows table rows upsert on_conflict ≡ ok (some st)
          → IsScoped c i st
      go [] own k = ground arith
      go (r ∷ rs) own k = inserts-IsScoped table r rs upsert on_conflict st own (ground (arith, k))
  statement_of-IsScoped (updating table payload filters) st owned h =
      updates-IsScoped table payload filters st owned.0 owned.1 (ground arith)
  statement_of-IsScoped (deleting table filters) st owned h =
      deletes-IsScoped table filters st owned (ground arith)
  statement_of-IsScoped (calling name payload) st owned h = elim owned [ ]

-- On a table whose rows have an owner, the statement that a caller who is no administrator has
-- executed is no function call; a query, an update and a deletion are conditional on the caller being
-- the owner of the row, and what an update sets and each row of an insertion or an upsert name the
-- caller as the owner.
pub mutation_call-IsScoped :
    {Token : Type 0} (u : CurrentUser Token) (found : GatewayCall → Result Bool) (q : DataQuery)
    (p : DataMutation) (c : String) (call : GatewayCall) (st : Statement)
    → is_admin u ≡ false
    → (owner_column q.table ≡ some c) × (query_call u q ≡ ok call)
      ⊎ (owner_column p.table ≡ some c) × (mutation_call u found p ≡ ok call)
    → statement_of call ≡ ok (some st)
    → IsScoped c u.id st
mutation_call-IsScoped u found q p c call st plain (inl (owner, h)) k =
    statement_of-IsScoped c u.id call st (query_call-IsOwned u c plain q call owner h) k
mutation_call-IsScoped u found q p c call st plain (inr (owner, h)) k =
    statement_of-IsScoped c u.id call st (mutation_call-IsOwned u c plain found p call owner h) k

mem-own :
    (ys xs : List String)
    → ((x : String) → mem x xs ≡ true → mem x ys ≡ true)
    → all (λ k. mem k ys) xs ≡ true
mem-own ys [] h = refl
mem-own ys (x ∷ xs) h =
    ground (arith, h x (ground (arith, eq_iff x x)), mem-own ys xs (λ z k. h z (ground (arith, k))))

has_keys-own : (r : Fields) → has_keys (keys r) r ≡ true
has_keys-own r = let own = mem-own (keys r) (keys r) (λ x h. h) in ground (arith, own)

-- What an upsert of one row of garden_requests by its identifier executes
abbrev pub upsert_of : Fields → Statement
upsert_of row =
    inserts "garden_requests" (keys row) (row ∷ [])
      (some ("id" ∷ [], where_ (λ k. not (mem k ("id" ∷ []))) (keys row)))

-- A caller who is no administrator can upsert any row of garden_requests, its status included: the
-- statement has no condition, and where the identifier is that of another account's request, it sets
-- in that request every column that was given, and the caller as the owner.
pub mutation_call_upsert :
    {Token : Type 0} (u : CurrentUser Token) (found : GatewayCall → Result Bool)
    (row filters : Fields)
    → is_admin u ≡ false
    → traverse quote_identifier (keys (put "owner_id" (uuid u.id) row))
      ≡ ok (keys (put "owner_id" (uuid u.id) row))
    → (call : GatewayCall) × (mutation_call u found (record {
      operation = Operation.upserts;
      table = "garden_requests";
      payload = some (one row);
      filters = filters;
      on_conflict = some "id";
    })
        ≡ ok call)
      × (statement_of call ≡ ok (some (upsert_of (put "owner_id" (uuid u.id) row))))
unfolding mutation_call call_of insert_call scoped_filters statement_of insert_statement conflict_of
    owner_columns user_mutation_tables further_tables public_tables quote_identifier strip
mutation_call_upsert u found row filters plain named = (
  inserting "garden_requests" (one (put "owner_id" (uuid u.id) row)) true (some "id"),
  ground (arith, plain),
  rw (has_keys-own (put "owner_id" (uuid u.id) row)) (rw named refl),
)
