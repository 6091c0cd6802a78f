-- ===== src/Data/Laws.antt =====
-- What the data endpoints let a caller who is no administrator reach.
use mathlib.Core.Path.{subst}
use text.Mathlib.Text.{◌==◌ as str_eq}
use text.Mathlib.TextEquality.{eq_iff}
use urban_farming_backend.Prelude.{
  ◌≡◌, refl, sym, ◌⊎◌, inl, inr, Bool, true, false, Bool-cases, Option, none, some, String, List,
  [], ◌∷◌, All, map, arith,
}
use urban_farming_backend.Json.{Json, Fields, uuid, end, field, get, put, get-put}
use urban_farming_backend.Db.{Result, ok, err, Error}
use urban_farming_backend.Db.Rows.{Uuid}
use urban_farming_backend.Auth.Identity.{CurrentUser}
use urban_farming_backend.Data.Tables.{owner_column}
use urban_farming_backend.Data.Statements.{
  Condition, compares, Statement, selects, inserts, updates, deletes, calls, quote_identifier,
  condition_of, build_filters,
}
use urban_farming_backend.Data.Router.{
  DataQuery, DataMutation, Payload, one, many, Operation, GatewayCall, selecting, inserting,
  updating, deleting, calling, rows_of, is_admin, scoped_filters, query_call, owned, owned_payload,
  update_call, insert_call, delete_call, call_of, mutation_call, query_columns, with_payload,
}

-- A condition is one of a list.
abbrev pub Among : Condition → List Condition → Type 0
Among c [] = ⊥
Among c (d ∷ ds) = (d ≡ c) ⊎ Among c ds

quote_identifier_same : (s t : String) → quote_identifier s ≡ ok t → s ≡ t
unfolding quote_identifier
quote_identifier_same s t h = ground arith

build_filters-cons :
    (k : String) (v : Json) (d : Fields) (cs : List Condition)
    → build_filters (field k v d) ≡ ok cs
    → (rest : List Condition) × (build_filters d ≡ ok rest) × (cs ≡ condition_of k v ∷ rest)
unfolding build_filters
build_filters-cons k v d cs h = go (quote_identifier k) (build_filters d) refl refl h
  where
    go :
        (q : Result String) (x : Result (List Condition))
        → quote_identifier k ≡ q
        → build_filters d ≡ x
        → elim q [
          | ok q' ↦ elim x [ ok ds ↦ ok (condition_of q' v ∷ ds) | err e ↦ err e ]
          | err e ↦ err e
        ]
          ≡ ok cs
        → (rest : List Condition) × (build_filters d ≡ ok rest) × (cs ≡ condition_of k v ∷ rest)
    go (ok q) (ok rest) e f k' =
        let same = quote_identifier_same k q e in (rest, f, ground (arith, same, k'))
    go (ok q) (err x) e f k' = cc
    go (err x) (ok rest) e f k' = cc
    go (err x) (err y) e f k' = cc

-- A filter of a column by an identifier is a condition of the statement.
pub build_filters-Among :
    (k : String) (i : Uuid) (d : Fields) (cs : List Condition)
    → get k d ≡ some (uuid i)
    → build_filters d ≡ ok cs
    → Among (compares k "=" (uuid i)) cs
build_filters-Among k i end cs h b = cc
build_filters-Among k i (field j v d) cs h b =
    let (rest, e, same) = build_filters-cons j v d cs b in
    subst (Among (compares k "=" (uuid i))) (sym same) (elim (Bool-cases (str_eq j k)) [
      | inl e' ↦ inl (ground (arith, eq_iff j k))
      | inr e' ↦ inr (build_filters-Among k i d rest (ground arith) e)
    ])

-- A statement that reaches and leaves only rows of one account
abbrev pub IsScoped : String → Uuid → Statement → Type 0
IsScoped c i (selects t columns cs order limit) = Among (compares c "=" (uuid i)) cs
IsScoped c i (inserts t columns rows conflict) = All (λ r. get c r ≡ some (uuid i)) rows
IsScoped c i (updates t payload cs) =
    (get c payload ≡ some (uuid i)) × Among (compares c "=" (uuid i)) cs
IsScoped c i (deletes t cs) = Among (compares c "=" (uuid i)) cs
IsScoped c i (calls name payload) = ⊥

-- The same of a call
abbrev pub IsOwned : String → Uuid → GatewayCall → Type 0
IsOwned c i (selecting t columns filters order limit) = get c filters ≡ some (uuid i)
IsOwned c i (inserting t payload upsert on_conflict) =
    All (λ r. get c r ≡ some (uuid i)) (rows_of payload)
IsOwned c i (updating t payload filters) =
    (get c payload ≡ some (uuid i)) × (get c filters ≡ some (uuid i))
IsOwned c i (deleting t filters) = get c filters ≡ some (uuid i)
IsOwned c i (calling name payload) = ⊥

get-put-same : (c : String) (v : Json) (d : Fields) → get c (put c v d) ≡ some v
get-put-same c v d = ground (arith, get-put c c v d, eq_iff c c)

Result-cases : {A : Type 0} (x : Result A) → ((a : A) × (x ≡ ok a)) ⊎ ((e : Error) × (x ≡ err e))
Result-cases (ok a) = inl (a, refl)
Result-cases (err e) = inr (e, refl)

module _ {Token : Type 0} (u : CurrentUser Token) (c : String) (plain : is_admin u ≡ false) where
  scoped_filters_owned :
      (table : String) (filters scoped : Fields)
      → owner_column table ≡ some c
      → scoped_filters u table filters ≡ ok scoped
      → get c scoped ≡ some (uuid u.id)
  unfolding scoped_filters
  scoped_filters_owned table filters scoped owner h =
      ground (arith, get-put-same c (uuid u.id) filters)

  owned_same :
      (table : String) (r : Fields)
      → owner_column table ≡ some c
      → get c (owned u table r) ≡ some (uuid u.id)
  owned_same table r owner = ground (arith, plain, get-put-same c (uuid u.id) r)

  map-owned :
      (table : String) (rs : List Fields)
      → owner_column table ≡ some c
      → All (λ r. get c r ≡ some (uuid u.id)) (map (owned u table) rs)
  map-owned table [] owner = tt
  map-owned table (r ∷ rs) owner = (owned_same table r owner, map-owned table rs owner)

  owned_payload_same :
      (table : String) (payload : Payload)
      → owner_column table ≡ some c
      → All (λ r. get c r ≡ some (uuid u.id)) (rows_of (owned_payload u table payload))
  owned_payload_same table (one r) owner = (owned_same table r owner, tt)
  owned_payload_same table (many rs) owner = map-owned table rs owner

  pub query_call-IsOwned :
      (p : DataQuery) (call : GatewayCall)
      → owner_column p.table ≡ some c
      → query_call u p ≡ ok call
      → IsOwned c u.id call
  unfolding query_call
  query_call-IsOwned p call owner h = elim (Result-cases (scoped_filters u p.table p.filters)) [
    | inl (f, e) ↦
        let made : selecting p.table (query_columns u p.columns) f p.order p.limit ≡ call =
          ground arith in
        subst (IsOwned c u.id) made (scoped_filters_owned p.table p.filters f owner e)
    | inr (x, e) ↦ ground arith
  ]

  insert_call-IsOwned :
      (table : String) (payload : Payload) (upsert : Bool) (on_conflict : Option String)
      (call : GatewayCall)
      → owner_column table ≡ some c
      → insert_call u table payload upsert on_conflict ≡ ok call
      → IsOwned c u.id call
  unfolding insert_call
  insert_call-IsOwned table payload upsert on_conflict call owner h =
      let made : inserting table (owned_payload u table payload) upsert on_conflict ≡ call =
        ground arith in
      subst (IsOwned c u.id) made (owned_payload_same table payload owner)

  update_call-IsOwned :
      (table : String) (payload : Payload) (filters : Fields) (call : GatewayCall)
      → owner_column table ≡ some c
      → get c filters ≡ some (uuid u.id)
      → update_call u table payload filters ≡ ok call
      → IsOwned c u.id call
  unfolding update_call
  update_call-IsOwned table (many rs) filters call owner scoped h = cc
  update_call-IsOwned table (one r) filters call owner scoped h =
      let made : updating table (owned u table r) filters ≡ call = ground arith in
      subst (IsOwned c u.id) made (owned_same table r owner, scoped)

  delete_call-IsOwned :
      (found : GatewayCall → Result Bool) (table : String) (filters : Fields) (call : GatewayCall)
      → get c filters ≡ some (uuid u.id)
      → delete_call u found table filters ≡ ok call
      → IsOwned c u.id call
  unfolding delete_call
  delete_call-IsOwned found table filters call scoped h =
      let made : deleting table filters ≡ call = ground arith in subst (IsOwned c u.id) made scoped

  call_of-IsOwned :
      (found : GatewayCall → Result Bool) (p : DataMutation) (filters : Fields) (call : GatewayCall)
      → owner_column p.table ≡ some c
      → get c filters ≡ some (uuid u.id)
      → call_of u found p filters ≡ ok call
      → IsOwned c u.id call
  unfolding call_of
  call_of-IsOwned found p filters call owner scoped h = go p.operation p.payload h
    where
      go :
          (o : Operation) (payload : Option Payload)
          → elim o [
            | Operation.deletes ↦ delete_call u found p.table filters
            | Operation.updates ↦ with_payload u payload (λ x. update_call u p.table x filters)
            | Operation.inserts ↦
                with_payload u payload (λ x. insert_call u p.table x false p.on_conflict)
            | Operation.upserts ↦
                with_payload u payload (λ x. insert_call u p.table x true p.on_conflict)
          ]
            ≡ ok call
          → IsOwned c u.id call
      go Operation.deletes payload k = delete_call-IsOwned found p.table filters call scoped k
      go Operation.updates none k = cc
      go Operation.updates (some x) k = update_call-IsOwned p.table x filters call owner scoped k
      go Operation.inserts none k = cc
      go Operation.inserts (some x) k =
          insert_call-IsOwned p.table x false p.on_conflict call owner k
      go Operation.upserts none k = cc
      go Operation.upserts (some x) k =
          insert_call-IsOwned p.table x true p.on_conflict call owner k

  pub mutation_call-IsOwned :
      (found : GatewayCall → Result Bool) (p : DataMutation) (call : GatewayCall)
      → owner_column p.table ≡ some c
      → mutation_call u found p ≡ ok call
      → IsOwned c u.id call
  unfolding mutation_call
  mutation_call-IsOwned found p call owner h =
      elim (Result-cases (scoped_filters u p.table p.filters)) [
        | inl (f, e) ↦
            call_of-IsOwned found p f call owner (scoped_filters_owned p.table p.filters f owner e)
              (ground arith)
        | inr (x, e) ↦ ground arith
      ]
