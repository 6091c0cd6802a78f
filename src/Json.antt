-- ===== src/Json.antt =====
-- JSON values, as `jsonb` columns hold them, and the dictionary operations of the source: `d.get(k)`
-- and the merge `{**a, **b}`. A number is a double; the text of a UUID, of a time and of a date has
-- a constructor of its own, so that no printer stands between the value and its text.
use urban_farming_backend.Prelude.{
  ℕ, zero, suc, ◌≡◌, refl, not, Bool, Option, none, some, String, arith, if◌then◌else◌, List, [],
  ◌∷◌, or_else,
}
use text.Mathlib.Text.{◌==◌}
use text.Mathlib.TextEquality.{eq_iff}

-- A finite binary64 number: `units` times 2 ^ -1074, negated if `negative`.
pub record Double : Type 0 where
  pub negative : Bool
  pub units : ℕ

mutual
  pub data Json : Type 0 where
    null : Json
    bool : Bool → Json
    num : Double → Json
    str : String → Json
    uuid stamp day : ℕ → Json
    arr : Items → Json
    obj : Fields → Json

  pub data Items : Type 0 where
    nil : Items
    cons : Json → Items → Items

  pub data Fields : Type 0 where
    end : Fields
    field : String → Json → Fields → Fields

-- `d.get(k)`, in the order of insertion
abbrev pub get : String → Fields → Option Json
get k end = none
get k (field j v d) = let rest = get k d in if j == k then some v else rest

-- `d[k] = v`
abbrev pub put : String → Json → Fields → Fields
put k v end = field k v end
put k v (field j w d) = let rest = put k v d in if j == k then field j v d else field j w rest

-- `{**a, **b}`
abbrev pub merge : Fields → Fields → Fields
merge a end = a
merge a (field k v b) = merge (put k v a) b

-- `value if isinstance(value, dict) else {}`
abbrev pub as_dict : Json → Fields
as_dict (obj d) = d
as_dict _ = end

abbrev is_zero : ℕ → Bool
is_zero zero = Bool.true
is_zero (suc n) = Bool.false

-- `value or []` and `not value`, on an optional JSON value
abbrev pub is_truthy : Option Json → Bool
is_truthy none = Bool.false
is_truthy (some null) = Bool.false
is_truthy (some (bool b)) = b
is_truthy (some (num x)) = not (is_zero x.units)
is_truthy (some (str s)) = not (s == "")
is_truthy (some (arr nil)) = Bool.false
is_truthy (some (obj end)) = Bool.false
is_truthy (some v) = Bool.true

abbrev pub json_or : Option Json → Json → Json
json_or none d = d
json_or (some v) d = if is_truthy (some v) then v else d

-- `d.get(k, default)`
abbrev pub get_default : String → Fields → Json → Json
get_default k d default = elim (get k d) [ none ↦ default | some v ↦ v ]

abbrev pub opt_text : Option String → Json
opt_text none = null
opt_text (some s) = str s

abbrev pub opt_uuid : Option ℕ → Json
opt_uuid none = null
opt_uuid (some i) = uuid i

abbrev pub texts : List String → Items
texts [] = nil
texts (s ∷ ss) = cons (str s) (texts ss)

abbrev pub uuids : List ℕ → Items
uuids [] = nil
uuids (i ∷ is) = cons (uuid i) (uuids is)

pub get-put :
    (k j : String) (v : Json) (d : Fields)
    → get j (put k v d) ≡ (if k == j then some v else get j d)
get-put k j v end = refl
get-put k j v (field i w d) = ground (arith, eq_iff k j, eq_iff i k, eq_iff i j, get-put k j v d)

-- The keys of a dictionary are distinct.
abbrev pub HasDistinctKeys : Fields → Type 0
HasDistinctKeys end = Unit
HasDistinctKeys (field k v d) = (get k d ≡ none) × HasDistinctKeys d

-- The right operand of a merge wins, and the keys that it lacks keep their values.
pub get-merge :
    (k : String) (a b : Fields)
    → HasDistinctKeys b
    → get k (merge a b) ≡ or_else (get k b) (get k a)
get-merge k a end h = refl
get-merge k a (field j v b) h =
    ground (arith, get-merge k (put j v a) b h.1, get-put j k v a, eq_iff j k)
