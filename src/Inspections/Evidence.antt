-- ===== src/Inspections/Evidence.antt =====
-- `inspection_evidence_gaps` (app/services/inspection_evidence.py), on the rows of the tables.
pub mod Laws
use Prim.Native.Char.{code}
use text.Mathlib.Text.{◌==◌ as str_eq}
use urban_farming_backend.Prelude.{
  ℕ, ◌+◌, Bool, true, false, not, ◌&&◌, ◌||◌, Option, none, some, String, List, [], ◌∷◌, ◌++◌, any,
  all, ◌==◌, leb, ◌=?◌, if◌then◌else◌, strip,
}
use urban_farming_backend.Db.Rows.{ChecklistItem, Photo, Uuid}
use urban_farming_backend.Db.Status.{CheckResult, check_result_enum}
use urban_farming_backend.Inspections.Evidence.Folding.{casefold, same_codes}
pub mod Folding

-- A text that a row may lack.
abbrev pub text_or_empty : Option String → String
text_or_empty none = ""
text_or_empty (some s) = s

-- `PHOTO_TYPES_BY_REQUIRED_CHECK.get(category, set())`, each set of which has one member.
abbrev pub required_photo_type : String → Option String
required_photo_type category =
    let key = casefold category in
    if same_codes key (casefold "garden condition")
    then some "full_garden_view"
    else (if same_codes key (casefold "crop health")
        then some "crop_close_up"
        else (if same_codes key (casefold "irrigation status")
            then some "irrigation"
            else (if same_codes key (casefold "pest and disease")
                then some "problem_area"
                else none)))

-- `str(item.get("item_name") or item.get("category") or "Checklist item")`
pub label : ChecklistItem → String
label i =
    if not (str_eq i.item_name "")
    then i.item_name
    else (if not (str_eq i.category "") then i.category else "Checklist item")

-- `result is None or (result == "na" and not comment)`; the column is not null.
unfoldable pub lacks_result : ChecklistItem → Bool
lacks_result i = i.result =? CheckResult.na && str_eq (strip (text_or_empty i.comment)) ""

-- `str(item_id) in linked_item_ids`
abbrev pub has_linked_photo : List Photo → ChecklistItem → Bool
has_linked_photo photos i =
    any (λ p. elim p.checklist_item_id [ none ↦ false | some id ↦ id == i.id ]) photos

-- `bool(required_photo_types & photo_types)`
abbrev pub has_matching_capture : List Photo → ChecklistItem → Bool
has_matching_capture photos i = elim (required_photo_type i.category) [
  | none ↦ false
  | some t ↦ any (λ p. str_eq p.photo_type t) photos
]

unfoldable pub lacks_photo : List Photo → ChecklistItem → Bool
lacks_photo photos i = not (has_linked_photo photos i) && not (has_matching_capture photos i)

module _ (photos : List Photo) where
  -- One turn of the loop, after the turns of the rest.
  abbrev pub with_item : ChecklistItem → List String × List String → List String × List String
  with_item i rest =
      if i.requires_photo
      then (
        (if lacks_result i then label i ∷ rest.0 else rest.0),
        (if lacks_photo photos i then label i ∷ rest.1 else rest.1),
      )
      else rest

  -- `(missing_results, missing_photos)`
  unfoldable pub inspection_evidence_gaps : List ChecklistItem → List String × List String
  inspection_evidence_gaps [] = ([], [])
  inspection_evidence_gaps (i ∷ items) = with_item i (inspection_evidence_gaps items)
