-- ===== src/Prelude/Rows.antt =====
-- Searching a table after a conditional update, and what a search finds.
use mathlib.Core.Path.{ap, ◌≡◌, refl}
use mathlib.Core.Bool.{◌||◌, Bool, true, false, not, ◌&&◌}
use mathlib.Core.Option
use mathlib.Core.Option.{Option, none, some}
use mathlib.Core.List.{List, [], ◌∷◌, ◌++◌, map}
use native.Mathlib.Omega.{arith}
use urban_farming_backend.Prelude.Tests.{if◌then◌else◌, Bool-cases, or_else}
use urban_farming_backend.Prelude.Lists.{any, where_, find, update_where}
use mathlib.Core.Logic.{inl, inr}

module _ {ℓ} {A : Type ℓ} where
  pub find_holds : (p : A → Bool) (xs : List A) {x : A} → find p xs ≡ some x → p x ≡ true
  find_holds p [] h = cc
  find_holds p (y ∷ xs) h = elim (Bool-cases (p y)) [
    | inl t ↦ ground (arith, t)
    | inr f ↦ find_holds p xs (rw f at h)
  ]

  pub find-append :
      (p : A → Bool) (xs ys : List A) → find p (xs ++ ys) ≡ or_else (find p xs) (find p ys)
  find-append p [] ys = refl
  find-append p (x ∷ xs) ys = ground (arith, find-append p xs ys)

  -- An update that the test `q` does not see.
  module _ (q p : A → Bool) (f : A → A) (same : (x : A) → q (f x) ≡ q x) where
    pub find-update_where :
        (xs : List A)
        → find q (update_where p f xs) ≡ Option.map (λ x. if p x then f x else x) (find q xs)
    find-update_where [] = refl
    find-update_where (x ∷ xs) = ground (arith, find-update_where xs, same x)

    pub where_-update_where :
        (xs : List A)
        → where_ q (update_where p f xs) ≡ map (λ x. if p x then f x else x) (where_ q xs)
    where_-update_where [] = refl
    where_-update_where (x ∷ xs) = ground (arith, where_-update_where xs, same x)

    pub any-update_where : (xs : List A) → any q (update_where p f xs) ≡ any q xs
    any-update_where [] = refl
    any-update_where (x ∷ xs) = ground (arith, any-update_where xs, same x)

  pub any_of_find : (p : A → Bool) (xs : List A) (x : A) → find p xs ≡ some x → any p xs ≡ true
  any_of_find p [] x h = cc
  any_of_find p (y ∷ xs) x h = ground (arith, any_of_find p xs x)

  -- Where no row fails the test, the rows that pass it are all.
  pub where_-and :
      (q p : A → Bool) (xs : List A)
      → any (λ x. not (p x)) (where_ q xs) ≡ false
      → where_ (λ x. q x && p x) xs ≡ where_ q xs
  where_-and q p [] h = refl
  where_-and q p (x ∷ xs) h = ground (arith, where_-and q p xs)

  -- The first row that passes one test, if it passes a second one, is the first that passes both.
  pub find-and :
      (q p : A → Bool) (xs : List A) (x : A)
      → find q xs ≡ some x
      → p x ≡ true
      → find (λ y. q y && p y) xs ≡ some x
  find-and q p [] x h k = cc
  find-and q p (y ∷ xs) x h k = ground (arith, find-and q p xs x)

  -- An update of rows that the search does not reach.
  pub find-update_where_ne :
      (q p : A → Bool) (f : A → A)
      → ((x : A) → q (f x) ≡ q x)
      → ((x : A) → q x ≡ true → p x ≡ false)
      → (xs : List A) → find q (update_where p f xs) ≡ find q xs
  find-update_where_ne q p f same apart [] = refl
  find-update_where_ne q p f same apart (x ∷ xs) =
      ground (arith, find-update_where_ne q p f same apart xs, same x, apart x)

  pub where_-update_where_ne :
      (q p : A → Bool) (f : A → A)
      → ((x : A) → q (f x) ≡ q x)
      → ((x : A) → q x ≡ true → p x ≡ false)
      → (xs : List A) → where_ q (update_where p f xs) ≡ where_ q xs
  where_-update_where_ne q p f same apart [] = refl
  where_-update_where_ne q p f same apart (x ∷ xs) =
      ground (arith, where_-update_where_ne q p f same apart xs, same x, apart x)

  pub where_-where_ :
      (q p : A → Bool) (xs : List A) → where_ (λ x. q x && p x) xs ≡ where_ p (where_ q xs)
  where_-where_ q p [] = refl
  where_-where_ q p (x ∷ xs) = ground (arith, where_-where_ q p xs)

  pub where_-update_where_comm :
      (q p : A → Bool) (f : A → A)
      → ((x : A) → q (f x) ≡ q x)
      → (xs : List A) → where_ q (update_where p f xs) ≡ update_where p f (where_ q xs)
  where_-update_where_comm q p f same [] = refl
  where_-update_where_comm q p f same (x ∷ xs) =
      ground (arith, where_-update_where_comm q p f same xs, same x)

  pub where_-append :
      (q : A → Bool) (xs ys : List A) → where_ q (xs ++ ys) ≡ where_ q xs ++ where_ q ys
  where_-append q [] ys = refl
  where_-append q (x ∷ xs) ys = ground (arith, where_-append q xs ys)

  pub any-append : (q : A → Bool) (xs ys : List A) → any q (xs ++ ys) ≡ (any q xs || any q ys)
  any-append q [] ys = refl
  any-append q (x ∷ xs) ys = ground (arith, any-append q xs ys)

pub any-map {ℓ κ} :
    {A : Type ℓ} {B : Type κ} (q : B → Bool) (f : A → B) (xs : List A)
    → any q (map f xs) ≡ any (λ x. q (f x)) xs
any-map q f [] = refl
any-map q f (x ∷ xs) = ap (λ b. q (f x) || b) (any-map q f xs)
