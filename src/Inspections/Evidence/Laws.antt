-- ===== src/Inspections/Evidence/Laws.antt =====
-- What it means that an inspection has no gaps.
use text.Mathlib.Text.{◌==◌ as str_eq}
use text.Mathlib.TextEquality.{eq_iff}
use urban_farming_backend.Prelude.{
  ℕ, ◌≡◌, ◌≢◌, refl, sym, ap, Bool, true, false, Bool-cases, inl, inr, not, ◌&&◌, ◌||◌, ◌==◌, ◌=?◌,
  ==_refl, Option, none, some, String, List, [], ◌∷◌, ◌⊎◌, all, any, All, strip, arith,
}
use urban_farming_backend.Db.Rows.{ChecklistItem, Photo}
use urban_farming_backend.Db.Status.{CheckResult, CheckResult-discrete, check_result_enum}
use urban_farming_backend.Inspections.Evidence.{
  text_or_empty, required_photo_type, has_linked_photo, has_matching_capture, lacks_result,
  lacks_photo, inspection_evidence_gaps,
}

-- An item that needs no evidence, or has a result and a photo.
abbrev pub is_documented : List Photo → ChecklistItem → Bool
is_documented photos i = not i.requires_photo || not (lacks_result i) && not (lacks_photo photos i)

-- No gap is listed exactly where every item is documented.
pub inspection_evidence_gaps-empty :
    (photos : List Photo) (items : List ChecklistItem)
    → ((inspection_evidence_gaps photos items ≡ ([], []))
        → (all (is_documented photos) items ≡ true))
      × ((all (is_documented photos) items ≡ true)
          → (inspection_evidence_gaps photos items ≡ ([], [])))
unfolding inspection_evidence_gaps
inspection_evidence_gaps-empty photos [] = (λ h. refl, λ h. refl)
inspection_evidence_gaps-empty photos (i ∷ items) =
    let (to, from) = inspection_evidence_gaps-empty photos items in
    (λ h. ground (arith, to), λ h. ground (arith, from))

-- Some member of a list has a property.
abbrev pub Some {ℓ} : {A : Type ℓ} → (A → Type 0) → List A → Type 0
Some P [] = false ≡ true
Some P (x ∷ xs) = P x ⊎ Some P xs

any-Some :
    {A : Type 0} (q : A → Bool) (P : A → Type 0) (xs : List A)
    → ((x : A) → q x ≡ true → P x)
    → any q xs ≡ true
    → Some P xs
any-Some q P [] f h = h
any-Some q P (x ∷ xs) f h = elim (Bool-cases (q x)) [
  | inl e ↦ inl (f x e)
  | inr e ↦ inr (any-Some q P xs f (ground (arith, h, e)))
]

Some-any :
    {A : Type 0} (q : A → Bool) (P : A → Type 0) (xs : List A)
    → ((x : A) → P x → q x ≡ true)
    → Some P xs
    → any q xs ≡ true
Some-any q P [] f h = h
Some-any q P (x ∷ xs) f (inl p) = rw (f x p) refl
Some-any q P (x ∷ xs) f (inr k) = let rest = Some-any q P xs f k in ground (arith, rest)

-- The evidence that an item that requires a photo has: a result, where "not applicable" needs a
-- comment that is not blank, and a photo of the item, or one of the type that its category asks for.
abbrev pub IsAnswered : ChecklistItem → Type 0
IsAnswered i = i.result ≡ CheckResult.na → strip (text_or_empty i.comment) ≢ ""

abbrev pub IsPictured : List Photo → ChecklistItem → Type 0
IsPictured photos i =
    Some (λ (p : Photo). p.checklist_item_id ≡ some i.id) photos
    ⊎ Some (λ (p : Photo). required_photo_type i.category ≡ some p.photo_type) photos

abbrev pub HasEvidence : List Photo → ChecklistItem → Type 0
HasEvidence photos i = i.requires_photo ≡ true → IsAnswered i × IsPictured photos i

answered : (i : ChecklistItem) → lacks_result i ≡ false → IsAnswered i
unfolding lacks_result CheckResult-discrete
answered i h e blank = let k = rw blank at h in let l = rw e at k in cc

lacks_result-answered : (i : ChecklistItem) → IsAnswered i → lacks_result i ≡ false
unfolding lacks_result
lacks_result-answered i h = elim (Bool-cases (str_eq (strip (text_or_empty i.comment)) "")) [
  | inl e ↦
      let blank = (eq_iff (strip (text_or_empty i.comment)) "").0 e in
      elim (Bool-cases (i.result =? CheckResult.na)) [
        | inl f ↦ elim (h (ground (arith, f)) blank) [ ]
        | inr f ↦ ground (arith, f)
      ]
  | inr e ↦ ground (arith, e)
]

linked_id : (o : Option ℕ) (n : ℕ) → elim o [ none ↦ false | some id ↦ id == n ] ≡ true → o ≡ some n
linked_id none n h = cc
linked_id (some id) n h = ground (arith, h)

linked_id-true :
    (o : Option ℕ) (n : ℕ) → o ≡ some n → elim o [ none ↦ false | some id ↦ id == n ] ≡ true
linked_id-true o n e = rw e (==_refl n)

matching :
    (photos : List Photo) (o : Option String)
    → elim o [ none ↦ false | some t ↦ any (λ (p : Photo). str_eq p.photo_type t) photos ] ≡ true
    → Some (λ (p : Photo). o ≡ some p.photo_type) photos
matching photos none h = cc
matching photos (some t) h =
    any-Some (λ p. str_eq p.photo_type t) (λ p. some t ≡ some p.photo_type) photos
      (λ p e. ap some (sym ((eq_iff p.photo_type t).0 e))) h

none_matching : (xs : List Photo) → Some (λ (p : Photo). none ≡ some p.photo_type) xs → false ≡ true
none_matching [] h = h
none_matching (x ∷ xs) (inl e) = cc
none_matching (x ∷ xs) (inr k) = none_matching xs k

matching-true :
    (photos : List Photo) (o : Option String)
    → Some (λ (p : Photo). o ≡ some p.photo_type) photos
    → elim o [ none ↦ false | some t ↦ any (λ (p : Photo). str_eq p.photo_type t) photos ] ≡ true
matching-true photos none h = none_matching photos h
matching-true photos (some t) h =
    Some-any (λ p. str_eq p.photo_type t) (λ p. some t ≡ some p.photo_type) photos
      (λ p e. (eq_iff p.photo_type t).1 (ground (arith, e))) h

pictured :
    (photos : List Photo) (i : ChecklistItem) → lacks_photo photos i ≡ false → IsPictured photos i
unfolding lacks_photo
pictured photos i h = elim (Bool-cases (has_linked_photo photos i)) [
  | inl e ↦ inl (any-Some _ _ photos (λ p k. linked_id p.checklist_item_id i.id k) e)
  | inr e ↦ inr (
      matching photos (required_photo_type i.category)
        (photo_by_type (has_linked_photo photos i) (has_matching_capture photos i) h e))
]
  where
    photo_by_type : (a b : Bool) → (not a && not b) ≡ false → a ≡ false → b ≡ true
    photo_by_type a b h e = ground (arith, h, e)

some_photo : (a b : Bool) → (a ≡ true) ⊎ (b ≡ true) → (not a && not b) ≡ false
some_photo a b h = ground (arith, h)

lacks_photo-pictured :
    (photos : List Photo) (i : ChecklistItem) → IsPictured photos i → lacks_photo photos i ≡ false
unfolding lacks_photo
lacks_photo-pictured photos i (inl k) =
    let linked : has_linked_photo photos i ≡ true =
      Some-any _ _ photos (λ (p : Photo) e. linked_id-true p.checklist_item_id i.id e) k in
    some_photo (has_linked_photo photos i) (has_matching_capture photos i) (inl linked)
lacks_photo-pictured photos i (inr k) =
    some_photo (has_linked_photo photos i) (has_matching_capture photos i)
      (inr (matching-true photos (required_photo_type i.category) k))

documented-HasEvidence :
    (photos : List Photo) (i : ChecklistItem) → is_documented photos i ≡ true → HasEvidence photos i
documented-HasEvidence photos i h required =
    let (full, seen) : (lacks_result i ≡ false) × (lacks_photo photos i ≡ false) =
      ground (arith, h, required) in
    (answered i full, pictured photos i seen)

HasEvidence-documented :
    (photos : List Photo) (i : ChecklistItem) → HasEvidence photos i → is_documented photos i ≡ true
HasEvidence-documented photos i h = elim (Bool-cases i.requires_photo) [
  | inl e ↦
      let full = lacks_result-answered i (h e).0 in
      let seen = lacks_photo-pictured photos i (h e).1 in ground (arith, full, seen)
  | inr e ↦ ground (arith, e)
]

all-HasEvidence :
    (photos : List Photo) (items : List ChecklistItem)
    → (all (is_documented photos) items ≡ true → All (HasEvidence photos) items)
      × (All (HasEvidence photos) items → all (is_documented photos) items ≡ true)
all-HasEvidence photos [] = (λ h. tt, λ h. refl)
all-HasEvidence photos (i ∷ items) =
    let (to, from) = all-HasEvidence photos items in
    (
      λ h. (documented-HasEvidence photos i (ground (arith, h)), to (ground (arith, h))),
      λ h.
          let first = HasEvidence-documented photos i h.0 in
          let rest = from h.1 in ground (arith, first, rest),
    )

-- No gap is listed exactly if every item that requires a photo has a result, where "not applicable"
-- comes with a comment that is not blank, and a photo that is linked to the item or is of the type
-- that its category asks for.
pub inspection_evidence_gaps-HasEvidence :
    (photos : List Photo) (items : List ChecklistItem)
    → (inspection_evidence_gaps photos items ≡ ([], []) → All (HasEvidence photos) items)
      × (All (HasEvidence photos) items → inspection_evidence_gaps photos items ≡ ([], []))
inspection_evidence_gaps-HasEvidence photos items =
    let (to, from) = inspection_evidence_gaps-empty photos items in
    let (out, back) = all-HasEvidence photos items in (λ h. out (to h), λ h. from (back h))
