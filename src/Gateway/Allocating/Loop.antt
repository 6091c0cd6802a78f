-- ===== src/Gateway/Allocating/Loop.antt =====
-- What the loop over the crops inserts: one planned batch for each crop that has none.
use urban_farming_backend.Prelude.{
  ap, sym, ◌∙◌, any-map, any-append, where_-append, where_, ==_refl, ℕ, suc, ◌+◌, true, false, ◌≡◌,
  refl, List, [], ◌∷◌, ◌++◌, any, map, ◌==◌, arith, length, All, ◌||◌, inl, inr, Bool-cases,
}
use mathlib.Core.List.{append_assoc, append-nil}
use urban_farming_backend.Db.{Db, ok}
use urban_farming_backend.Db.Rows.{CropBatch, Uuid}
use urban_farming_backend.Db.Status.{BatchStatus}
use urban_farming_backend.Gateway.Allocating.Batches.{
  Crop, mem_id, new_batch, with_batch, allocate_crops,
}

module _ (owner installation : Uuid) where
  -- The batches, for the crops that have none, whose identifiers begin at `next`.
  pub new_batches : ℕ → List Uuid → List Crop → List CropBatch
  new_batches next existing [] = []
  new_batches next existing (c ∷ cs) = elim (mem_id c.id existing) [
    | true ↦ new_batches next existing cs
    | false ↦ new_batch next owner installation c ∷ new_batches (suc next) (c.id ∷ existing) cs
  ]

  abbrev pub with_batches : List CropBatch → Db → Db
  with_batches bs db = record db {
    crop_batches = db.crop_batches ++ bs;
    next_id = db.next_id + length bs;
  }

  -- The loop commits, and inserts just these.
  pub allocate_crops-eq :
      (crops : List Crop) (existing ids : List Uuid) (db : Db)
      → let bs = new_batches db.next_id existing crops in
        allocate_crops owner installation crops existing ids db
        ≡ ok (ids ++ map (λ b. b.id) bs, with_batches bs db)
  unfolding allocate_crops new_batches
  allocate_crops-eq [] existing ids db = ground (arith, append-nil ids, append-nil db.crop_batches)
  allocate_crops-eq (c ∷ cs) existing ids db = elim (Bool-cases (mem_id c.id existing)) [
    | inl old ↦ rw (old, new_batches) (allocate_crops-eq cs existing ids db)
    | inr new ↦
        rw (new, new_batches)
          (ground (
            arith,
            allocate_crops-eq cs (c.id ∷ existing) (ids ++ db.next_id ∷ []) (
                with_batch (new_batch db.next_id owner installation c)
                  (record db { next_id = suc db.next_id })),
            append_assoc ids (db.next_id ∷ [])
                (map (λ (b : CropBatch). b.id) (new_batches (suc db.next_id) (c.id ∷ existing) cs)),
            append_assoc db.crop_batches (new_batch db.next_id owner installation c ∷ [])
                (new_batches (suc db.next_id) (c.id ∷ existing) cs),
          ))
  ]

  -- Every crop had a batch or gets one.
  pub new_batches-covers :
      (next : ℕ) (existing : List Uuid) (crops : List Crop) (k : Uuid)
      → any (λ c. c.id == k) crops ≡ true
      → (mem_id k existing || any (λ b. b.crop_id == k) (new_batches next existing crops)) ≡ true
  unfolding new_batches
  new_batches-covers next existing [] k h = cc
  new_batches-covers next existing (c ∷ cs) k h = ground (
    arith,
    new_batches-covers next existing cs k,
    new_batches-covers (suc next) (c.id ∷ existing) cs k,
  )

  abbrev pub IsPlannedFor : CropBatch → Type 0
  IsPlannedFor b =
      (b.installation_id ≡ installation) × (b.owner_id ≡ owner) × (b.status ≡ BatchStatus.planned)

  pub new_batches-IsPlannedFor :
      (next : ℕ) (existing : List Uuid) (crops : List Crop)
      → All IsPlannedFor (new_batches next existing crops)
  unfolding new_batches
  new_batches-IsPlannedFor next existing [] = tt
  new_batches-IsPlannedFor next existing (c ∷ cs) = ground (
    arith,
    new_batches-IsPlannedFor next existing cs,
    new_batches-IsPlannedFor (suc next) (c.id ∷ existing) cs,
  )

  -- No crop gets a second batch.
  abbrev pub IsOnce : List Uuid → List CropBatch → Type 0
  IsOnce existing [] = Unit
  IsOnce existing (b ∷ bs) = (mem_id b.crop_id existing ≡ false) × IsOnce (b.crop_id ∷ existing) bs

  pub new_batches-IsOnce :
      (next : ℕ) (existing : List Uuid) (crops : List Crop)
      → IsOnce existing (new_batches next existing crops)
  unfolding new_batches
  new_batches-IsOnce next existing [] = tt
  new_batches-IsOnce next existing (c ∷ cs) = ground (
    arith,
    new_batches-IsOnce next existing cs,
    new_batches-IsOnce (suc next) (c.id ∷ existing) cs,
  )

  -- The inserted batches are the installation's.
  new_batches-where_ :
      (next : ℕ) (existing : List Uuid) (crops : List Crop)
      → where_ (λ b. b.installation_id == installation) (new_batches next existing crops)
        ≡ new_batches next existing crops
  unfolding new_batches
  new_batches-where_ next existing [] = refl
  new_batches-where_ next existing (c ∷ cs) = ground (
    arith,
    ==_refl installation,
    new_batches-where_ next existing cs,
    new_batches-where_ (suc next) (c.id ∷ existing) cs,
  )

  -- The installation's batches after the loop.
  pub batches_of-new_batches :
      (next : ℕ) (existing : List Uuid) (crops : List Crop) (before : List CropBatch)
      → where_ (λ b. b.installation_id == installation) (before ++ new_batches next existing crops)
        ≡ where_ (λ b. b.installation_id == installation) before ++ new_batches next existing crops
  batches_of-new_batches next existing crops before =
      rw
        (
          where_-append (λ (b : CropBatch). b.installation_id == installation) before
              (new_batches next existing crops),
          new_batches-where_ next existing crops,
        )
        refl

  -- Afterwards every crop has a batch.
  pub covered_by_batches :
      (next : ℕ) (crops : List Crop) (before : List CropBatch) (k : Uuid)
      → any (λ c. c.id == k) crops ≡ true
      → any (λ b. b.crop_id == k) (before ++ new_batches next (map (λ b. b.crop_id) before) crops)
        ≡ true
  covered_by_batches next crops before k h =
      any-append (λ b. b.crop_id == k) before _
      ∙ ap
          (λ b.
            b
            || any (λ (b : CropBatch). b.crop_id == k)
                (new_batches next (map (λ (b : CropBatch). b.crop_id) before) crops))
          (sym (any-map (λ j. j == k) (λ (b : CropBatch). b.crop_id) before))
      ∙ new_batches-covers next (map (λ b. b.crop_id) before) crops k h
