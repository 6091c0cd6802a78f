-- ===== src/Db/Laws.antt =====
-- Inversion of a transaction that commits, step by step.
use urban_farming_backend.Prelude.{
  if◌then◌else◌, ◌≡◌, refl, sym, ◌∙◌, arith, Bool, false, Option, none, some,
}
use urban_farming_backend.Db.{Db, raise, Error, Result, ok, err, Tx, or_raise, raise_if, ◌>>=◌}

module _ {A B : Type 0} where
  -- A sequence commits only where both parts do.
  pub bind-eq-ok :
      (m : Tx A) (f : A → Tx B) (db : Db) (r : B × Db)
      → (m >>= f) db ≡ ok r
      → (a : A) × (db' : Db) × (m db ≡ ok (a, db')) × (f a db' ≡ ok r)
  bind-eq-ok m f db r h = go (m db) refl h
    where
      go :
          (x : Result (A × Db))
          → m db ≡ x
          → elim x [ ok (a, db') ↦ f a db' | err e ↦ err e ] ≡ ok r
          → (a : A) × (db' : Db) × (m db ≡ ok (a, db')) × (f a db' ≡ ok r)
      go (ok (a, db')) e k = (a, db', e, k)
      go (err x) e k = cc

  -- A row that is required is there, and reading it changes nothing.
  pub or_raise-eq-ok :
      (o : Option A) (e : Error) (f : A → Tx B) (db : Db) (r : B × Db)
      → (or_raise o e >>= f) db ≡ ok r
      → (a : A) × (o ≡ some a) × (f a db ≡ ok r)
  or_raise-eq-ok none e f db r h = cc
  or_raise-eq-ok (some a) e f db r h = (a, refl, h)

pub raise_if-eq-ok :
    {B : Type 0} (c : Bool) (e : Error) (f : Unit {0} → Tx B) (db : Db) (r : B × Db)
    → (raise_if c e >>= f) db ≡ ok r
    → (c ≡ false) × (f tt db ≡ ok r)
raise_if-eq-ok Bool.true e f db r h = cc
raise_if-eq-ok Bool.false e f db r h = (refl, h)

pub ok-injective : {A : Type 0} {a b : A} → ok a ≡ ok b → a ≡ b
ok-injective h = cc

-- A transaction that first checks, changing nothing, and then writes, which nothing refuses: it
-- commits only where the checks establish `R`, with the outcome of the writes.
pub checked-eq-ok {ℓ} :
    {A B : Type 0} (check : Tx A) (write : A → Tx B) (db : Db) (R : A → Type ℓ) (out : A → B × Db)
    → ((a : A) (db' : Db) → check db ≡ ok (a, db') → (db ≡ db') × R a)
    → ((a : A) → R a → write a db ≡ ok (out a))
    → (r : B × Db) → (check >>= write) db ≡ ok r
    → (a : A) × R a × (out a ≡ r)
checked-eq-ok check write db R out sound total r h =
    let (a, db', checked, wrote) = bind-eq-ok check write db r h in
    let (same, holds) = sound a db' checked in
    (a, holds, ok-injective (sym (total a holds) ∙ rw (← same) at wrote))

-- A sequence commits where both parts do.
pub bind-ok :
    {A B : Type 0} (m : Tx A) (f : A → Tx B) (db db' : Db) (a : A) (r : Result (B × Db))
    → m db ≡ ok (a, db')
    → f a db' ≡ r
    → (m >>= f) db ≡ r
bind-ok m f db db' a r h k = ground arith

-- A choice that commits took one of its two ways.
pub if-eq-ok {ℓ} :
    {A : Type 0} {P : Type ℓ} (c : Bool) (m n : Tx A) (db : Db) (r : A × Db)
    → (c ≡ Bool.true → m db ≡ ok r → P)
    → (c ≡ false → n db ≡ ok r → P)
    → (if c then m else n) db ≡ ok r
    → P
if-eq-ok Bool.true m n db r then_ else_ h = then_ refl h
if-eq-ok false m n db r then_ else_ h = else_ refl h

-- A transaction that raises does not commit.
pub raise-eq-ok {ℓ} :
    {A : Type 0} {P : Type ℓ} (e : Error) (db : Db) (r : A × Db) → raise {A = A} e db ≡ ok r → P
raise-eq-ok e db r h = ground arith
