-- ===== src/Auth/Store/Laws.antt =====
-- Inversion of a handler that gives a result, step by step.
use urban_farming_backend.Prelude.{◌≡◌, refl, Option, none, some}
use urban_farming_backend.Db.{Result, ok, err, Error}
use urban_farming_backend.Auth.Store.{Store, Op, ◌>>=◌, proceed, try_result, require}

module _ {A B : Type 0} where
  pub bind-eq-ok :
      (m : Op A) (f : A → Op B) (s s' : Store) (b : B)
      → (m >>= f) s ≡ (ok b, s')
      → (a : A) × (s1 : Store) × (m s ≡ (ok a, s1)) × (f a s1 ≡ (ok b, s'))
  bind-eq-ok m f s s' b h = go (m s) refl h
    where
      go :
          (x : Result A × Store)
          → m s ≡ x
          → proceed x f ≡ (ok b, s')
          → (a : A) × (s1 : Store) × (m s ≡ (ok a, s1)) × (f a s1 ≡ (ok b, s'))
      go (ok a, s1) e k = (a, s1, e, k)
      go (err x, s1) e k = cc

  pub try_result-eq-ok :
      (x : Result A) (f : A → Op B) (s s' : Store) (b : B)
      → (try_result x >>= f) s ≡ (ok b, s')
      → (a : A) × (x ≡ ok a) × (f a s ≡ (ok b, s'))
  try_result-eq-ok (ok a) f s s' b h = (a, refl, h)
  try_result-eq-ok (err e) f s s' b h = cc

  pub require-eq-ok :
      (o : Option A) (e : Error) (f : A → Op B) (s s' : Store) (b : B)
      → (require o e >>= f) s ≡ (ok b, s')
      → (a : A) × (o ≡ some a) × (f a s ≡ (ok b, s'))
  require-eq-ok none e f s s' b h = cc
  require-eq-ok (some a) e f s s' b h = (a, refl, h)
