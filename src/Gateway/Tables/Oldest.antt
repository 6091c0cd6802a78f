-- ===== src/Gateway/Tables/Oldest.antt =====
-- The oldest installation of a property stays the oldest active one when it is activated.
use urban_farming_backend.Prelude.{
  Bool, true, false, ◌≡◌, refl, none, some, List, [], ◌∷◌, ◌==◌, ◌=?◌, ◌≤◌, arith, where_,
  update_where, All, if◌then◌else◌, Option-cases, inl, inr,
}
use urban_farming_backend.Db.Rows.{Installation}
use urban_farming_backend.Db.Status.{InstallationStatus, installation_status_enum}
use urban_farming_backend.Gateway.Tables.{older, oldest}

abbrev NotBefore : Installation → Installation → Type 0
NotBefore e i = e.created_at ≤ i.created_at

pub oldest-none : (is : List Installation) → oldest is ≡ none → is ≡ []
unfolding oldest
oldest-none [] h = refl
oldest-none (i ∷ is) h = ground arith

All-NotBefore-trans :
    (d e : Installation) (is : List Installation)
    → d.created_at ≤ e.created_at
    → All (NotBefore e) is
    → All (NotBefore d) is
All-NotBefore-trans d e [] h k = tt
All-NotBefore-trans d e (i ∷ is) h k = (omega arith, All-NotBefore-trans d e is h k.1)

oldest-NotBefore :
    (is : List Installation) (e : Installation) → oldest is ≡ some e → All (NotBefore e) is
unfolding oldest
oldest-NotBefore [] e h = cc
oldest-NotBefore (i ∷ is) e h = elim (Option-cases (oldest is)) [
  | inl empty ↦ rw (oldest-none is empty) (ground arith)
  | inr (j, found) ↦ ground (arith, oldest-NotBefore is j found, All-NotBefore-trans i j is)
]

older_of_NotBefore :
    (e : Installation) (is : List Installation)
    → All (NotBefore e) is
    → older e (oldest is) ≡ some e
unfolding oldest
older_of_NotBefore e [] h = refl
older_of_NotBefore e (i ∷ is) h = ground (arith, older_of_NotBefore e is)

oldest-if :
    (b : Bool) (i : Installation) (is : List Installation)
    → oldest (if b then i ∷ is else is) ≡ (if b then older i (oldest is) else oldest is)
unfolding oldest
oldest-if true i is = refl
oldest-if false i is = refl

-- An update `g` of the row with the identifier of `e` that keeps what the search orders by.
module _ (e : Installation) (g : Installation → Installation)
    (same_age : (i : Installation) → (g i).created_at ≡ i.created_at)
    (activates : (i : Installation) → (g i).status ≡ InstallationStatus.active) where
  abbrev active_after : List Installation → List Installation
  active_after is =
      where_ (λ i. i.status =? InstallationStatus.active) (update_where (λ i. i.id == e.id) g is)

  active_after-NotBefore :
      (d : Installation) (is : List Installation)
      → All (NotBefore d) is
      → All (NotBefore d) (active_after is)
  active_after-NotBefore d [] h = tt
  active_after-NotBefore d (i ∷ is) h = ground (arith, active_after-NotBefore d is h.1, same_age i)

  -- The row comes first and is the oldest.
  oldest-active_after_head :
      (is : List Installation)
      → All (NotBefore e) is
      → older (g e) (oldest (active_after is)) ≡ some (g e)
  oldest-active_after_head is h = older_of_NotBefore (g e) (active_after is) (
      All-NotBefore-trans (g e) e (active_after is) (omega (arith, same_age e))
        (active_after-NotBefore e is h))

  pub oldest-active_after :
      (is : List Installation) → oldest is ≡ some e → oldest (active_after is) ≡ some (g e)
  unfolding oldest
  oldest-active_after [] h = cc
  oldest-active_after (i ∷ is) h = elim (Option-cases (oldest is)) [
    | inl empty ↦ rw (oldest-none is empty) (ground (arith, activates i, oldest-none is empty))
    | inr (j, found) ↦ rw oldest-if (
        ground (
          arith,
          activates i,
          same_age e,
          same_age i,
          oldest-active_after is,
          oldest-NotBefore is j found,
          All-NotBefore-trans i j is,
          oldest-active_after_head is,
        ))
  ]
