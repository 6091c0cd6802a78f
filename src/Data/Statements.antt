-- ===== src/Data/Statements.antt =====
-- `quote_identifier`, `build_filters` and the statements that `select`, `insert`, `update`, `delete` and
-- `rpc` of the gateway execute. A statement is kept as a value, not as its text; the values that it binds
-- are those that were given, before their conversion to the types of the columns.
use Prim.Native.Char.{code}
use text.Mathlib.Text.{◌==◌ as str_eq}
use urban_farming_backend.Prelude.{
  ℕ, Bool, true, false, not, ◌&&◌, ◌||◌, Option, none, some, String, List, [], ◌∷◌, any, all,
  where_, is_empty, ◌==◌, leb, if◌then◌else◌, strip, contains_code,
}
use urban_farming_backend.Json.{Json, Fields, Items, null, str, arr, nil, cons, end, field}
use urban_farming_backend.Db.{Result, ok, err, value_error, app_error}
use urban_farming_backend.Data.Tables.{mem, lookup, allowed_tables, allowed_rpcs}

-- `IDENTIFIER`: `[a-z_][a-z0-9_]*`
abbrev pub is_head_code : ℕ → Bool
is_head_code n = leb 97 n && leb n 122 || n == 95

abbrev pub is_tail : String → Bool
is_tail String.[] = true
is_tail (String.◌∷◌ c s) =
    let rest = is_tail s in (is_head_code (code c) || leb 48 (code c) && leb (code c) 57) && rest

abbrev pub is_identifier : String → Bool
is_identifier String.[] = false
is_identifier (String.◌∷◌ c s) = is_head_code (code c) && is_tail s

unfoldable pub quote_identifier : String → Result String
quote_identifier s = if is_identifier s then ok s else err value_error

-- `f(x)` for each item, up to the first that raises
abbrev pub traverse : {A B : Type 0} → (A → Result B) → List A → Result (List B)
traverse f [] = ok []
traverse f (x ∷ xs) =
    let rest = traverse f xs in
    elim (f x) [ ok y ↦ elim rest [ ok ys ↦ ok (y ∷ ys) | err e ↦ err e ] | err e ↦ err e ]

-- `text.split(".", 1)`, where the text has a dot
abbrev pub split_dot : String → Option (String × String)
split_dot String.[] = none
split_dot (String.◌∷◌ c s) =
    let rest = split_dot s in
    if code c == 46
    then some ("", s)
    else elim rest [ none ↦ none | some (a, b) ↦ some (String.◌∷◌ c a, b) ]

-- `text.split(",")`
abbrev pub split_commas : String → List String
split_commas String.[] = "" ∷ []
split_commas (String.◌∷◌ c s) =
    let rest = split_commas s in
    if code c == 44 then "" ∷ rest else elim rest [ [] ↦ [] | x ∷ xs ↦ String.◌∷◌ c x ∷ xs ]

-- `FILTER_OPERATORS`
abbrev pub filter_operators : List (String × String)
filter_operators =
    ("eq", "=")
    ∷ ("neq", "!=")
    ∷ ("gte", ">=")
    ∷ ("lte", "<=")
    ∷ ("gt", ">")
    ∷ ("lt", "<")
    ∷ ("ilike", "ILIKE")
    ∷ []

pub data Condition : Type 0 where
  is_null : String → Condition
  -- `IN (...)`, of values that are not none
  one_of : String → Items → Condition
  never : Condition
  compares : String → String → Json → Condition

-- A text with a dot, split at it
abbrev pub condition_of_parts : String → String → String → String → Condition
condition_of_parts k s candidate value = elim (lookup candidate filter_operators) [
  | some operator ↦ compares k operator (str value)
  | none ↦
      if str_eq candidate "is" && str_eq value "null" then is_null k else compares k "=" (str s)
]

abbrev pub condition_of_text : String → String → Option (String × String) → Condition
condition_of_text k s none = compares k "=" (str s)
condition_of_text k s (some (candidate, value)) = condition_of_parts k s candidate value

abbrev pub condition_of : String → Json → Condition
condition_of k null = is_null k
condition_of k (arr nil) = never
condition_of k (arr (cons v vs)) = one_of k (cons v vs)
condition_of k (str s) = condition_of_text k s (split_dot s)
condition_of k v = compares k "=" v

-- `build_filters`
unfoldable pub build_filters : Fields → Result (List Condition)
build_filters end = ok []
build_filters (field k v d) =
    let rest = build_filters d in
    elim (quote_identifier k) [
      | ok q ↦ elim rest [ ok cs ↦ ok (condition_of q v ∷ cs) | err e ↦ err e ]
      | err e ↦ err e
    ]

pub data Statement : Type 0 where
  -- the table, the columns or all, the conditions, the order and whether it descends, the limit
  selects :
      String → Option (List String) → List Condition → Option (String × Bool) → Option ℕ → Statement
  -- the table, the columns, the rows, and on a conflict of some columns the columns that are set
  inserts : String → List String → List Fields → Option (List String × List String) → Statement
  updates : String → Fields → List Condition → Statement
  deletes : String → List Condition → Statement
  calls : String → Fields → Statement

abbrev pub ensure_allowed : {A : Type 0} → String → List String → Result A → Result A
ensure_allowed x xs r = if mem x xs then r else err value_error

abbrev pub and_then : {A B : Type 0} → Result A → (A → Result B) → Result B
and_then (ok a) f = f a
and_then (err e) f = err e

-- `list(row)` and `set(row) == set(columns)`
abbrev pub keys : Fields → List String
keys end = []
keys (field k v d) = k ∷ keys d

abbrev pub has_keys : List String → Fields → Bool
has_keys columns row = all (λ c. mem c (keys row)) columns && all (λ k. mem k columns) (keys row)

-- `ON CONFLICT (...) DO UPDATE SET ...`, or DO NOTHING where nothing is left to be set
unfoldable pub conflict_of :
    Bool → Option String → List String → Result (Option (List String × List String))
conflict_of false on_conflict columns = ok none
conflict_of true none columns = err value_error
conflict_of true (some s) columns =
    if str_eq s ""
    then err value_error
    else and_then (traverse (λ c. quote_identifier (strip c)) (split_commas s))
        (λ targets. ok (some (targets, where_ (λ c. not (mem c targets)) columns)))

-- Whether a character stands in a text
abbrev pub is_nested : String → Bool
is_nested s = contains_code 40 s || contains_code 41 s

abbrev pub columns_of : String → Result (Option (List String))
columns_of s =
    if str_eq s "*"
    then ok none
    else (if any is_nested (split_commas s)
        then err (app_error 400 "unsupported_select" null)
        else and_then (traverse (λ c. quote_identifier (strip c)) (split_commas s))
            (λ cs. ok (some cs)))

-- `order.partition(".")`
abbrev pub order_parts : String → Option (String × String) → Result (Option (String × Bool))
order_parts s none = and_then (quote_identifier s) (λ c. ok (some (c, false)))
order_parts s (some (column, direction)) =
    and_then (quote_identifier column) (λ c. ok (some (c, str_eq direction "desc")))

abbrev pub order_of : Option String → Result (Option (String × Bool))
order_of none = ok none
order_of (some s) = if str_eq s "" then ok none else order_parts s (split_dot s)

unfoldable pub select_statement :
    String → String → Fields → Option String → Option ℕ → Result Statement
select_statement table columns filters order limit = ensure_allowed table allowed_tables (
    and_then (columns_of columns) (λ c.
      and_then (build_filters filters)
        (λ cs. and_then (order_of order) (λ o. ok (selects table c cs o limit)))))

-- `insert`, of rows that are not none
unfoldable pub insert_statement :
    String → Fields → List Fields → Bool → Option String → Result Statement
insert_statement table first rest upsert on_conflict = ensure_allowed table allowed_tables (
    if any (λ r. not (has_keys (keys first) r)) (first ∷ rest)
    then err value_error
    else and_then (traverse quote_identifier (keys first)) (λ columns.
      and_then (conflict_of upsert on_conflict columns)
        (λ conflict. ok (inserts table columns (first ∷ rest) conflict))))

unfoldable pub update_statement : String → Fields → Fields → Result Statement
update_statement table payload filters = ensure_allowed table allowed_tables (
    and_then (traverse quote_identifier (keys payload))
      (λ columns. and_then (build_filters filters) (λ cs. ok (updates table payload cs))))

unfoldable pub delete_statement : String → Fields → Result Statement
delete_statement table filters = ensure_allowed table allowed_tables (
    and_then (build_filters filters)
      (λ cs. if is_empty cs then err value_error else ok (deletes table cs)))

unfoldable pub rpc_statement : String → Fields → Result Statement
rpc_statement name payload =
    ensure_allowed name allowed_rpcs
      (and_then (traverse quote_identifier (keys payload)) (λ names. ok (calls name payload)))
