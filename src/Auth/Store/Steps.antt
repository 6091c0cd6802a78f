-- ===== src/Auth/Store/Steps.antt =====
-- The specification of the sessions as a step relation on stores, indexed by the effect of the
-- request: entering opens a session under a new identifier, an exchange puts one in the place of
-- another, an exit ends all those of an account, and else the set stays. Rules by which handlers that
-- are composed take such steps.
use mathlib.Core.Path.{subst}
use urban_farming_backend.Prelude.{
  ◌≡◌, refl, sym, ◌∙◌, ◌<◌, ◌≤◌, Bool, true, false, arith, if◌then◌else◌,
}
use urban_farming_backend.Db.{Result, ok, err}
use urban_farming_backend.Db.Rows.{Uuid}
use urban_farming_backend.Auth.Store.{Store, Op, ◌>>=◌, give, try_result, proceed}
use urban_farming_backend.Auth.Store.Views.{view, opened, closed, closed_all}

-- The open sessions stay, and no identifier is given twice.
pub record Kept (s s' : Store) : Type 0 where
  pub ids : s.next_id ≤ s'.next_id
  pub same : (j u : Uuid) → view s' j u ≡ view s j u

-- What a request does to the sessions where it succeeds.
pub data Effect : Type 0 where
  entry exchange exit idle : Effect

pub data SessionStep (s s' : Store) : Effect → Type 0 where
  keeps : Kept s s' → SessionStep s s' idle
  opens :
      (id user_id : Uuid)
      → s.next_id ≤ id
      → id < s'.next_id
      → ((j u : Uuid) → view s' j u ≡ opened id user_id (view s) j u)
      → SessionStep s s' entry
  rotates :
      (old owner new user_id : Uuid)
      → view s old owner ≡ true
      → s.next_id ≤ new
      → new < s'.next_id
      → ((j u : Uuid) → view s' j u ≡ opened new user_id (closed old (view s)) j u)
      → SessionStep s s' exchange
  ends :
      (user_id : Uuid)
      → s.next_id ≤ s'.next_id
      → ((j u : Uuid) → view s' j u ≡ closed_all user_id (view s) j u)
      → SessionStep s s' exit

pub Kept-refl : (s : Store) → Kept s s
Kept-refl s = record { ids = omega arith; same = λ j u. refl }

pub Kept-trans : {s t r : Store} → Kept s t → Kept t r → Kept s r
Kept-trans p q = record { ids = omega (arith, p.ids, q.ids); same = λ j u. q.same j u ∙ p.same j u }

-- A step after something that keeps the sessions
pub Kept-SessionStep :
    {s t r : Store} {e : Effect} → Kept s t → SessionStep t r e → SessionStep s r e
Kept-SessionStep p (keeps q) = keeps (Kept-trans p q)
Kept-SessionStep p (opens id user_id new given h) =
    opens id user_id (omega (arith, p.ids, new)) given (λ j u. ground (arith, h j u, p.same j u))
Kept-SessionStep p (rotates old owner new user_id live fresh given h) =
    rotates old owner new user_id (sym (p.same old owner) ∙ live) (omega (arith, p.ids, fresh))
      given (λ j u. ground (arith, h j u, p.same j u))
Kept-SessionStep p (ends user_id ids h) =
    ends user_id (omega (arith, p.ids, ids)) (λ j u. ground (arith, h j u, p.same j u))

-- What is left of a store: the step where the handler succeeds, and the sessions where it raises
abbrev pub Takes : {A : Type 0} → Effect → Store → Result A × Store → Type 0
Takes e s (ok a, t) = SessionStep s t e
Takes e s (err x, t) = Kept s t

pub Kept-Takes :
    {A : Type 0} {s t : Store} (e : Effect) (x : Result A × Store)
    → Kept s t
    → Takes e t x
    → Takes e s x
Kept-Takes e (ok a, r) k h = Kept-SessionStep k h
Kept-Takes e (err y, r) k h = Kept-trans k h

-- A handler that keeps the sessions, whether it gives a result or raises, and one that takes a step
abbrev pub IsQuiet : {A : Type 0} → Op A → Type 0
IsQuiet m = (s : Store) → Kept s (m s).1

abbrev pub IsStep : {A : Type 0} → Effect → Op A → Type 0
IsStep e m = (s : Store) → Takes e s (m s)

module _ {A B : Type 0} where
  pub IsQuiet-bind :
      (m : Op A) (f : A → Op B) → IsQuiet m → ((a : A) → IsQuiet (f a)) → IsQuiet (m >>= f)
  IsQuiet-bind m f p q s = go (m s) (p s)
    where
      go : (x : Result A × Store) → Kept s x.1 → Kept s (proceed x f).1
      go (ok a, t) k = Kept-trans k (q a t)
      go (err e, t) k = k

  pub IsStep-after :
      (e : Effect) (m : Op A) (f : A → Op B)
      → IsQuiet m
      → ((a : A) → IsStep e (f a))
      → IsStep e (m >>= f)
  IsStep-after e m f p q s = go (m s) (p s)
    where
      go : (x : Result A × Store) → Kept s x.1 → Takes e s (proceed x f)
      go (ok a, t) k = Kept-Takes e (f a t) k (q a t)
      go (err y, t) k = k

  pub IsStep-give :
      (e : Effect) (m : Op A) (f : A → B) → IsStep e m → IsStep e (m >>= λ a. give (f a))
  IsStep-give e m f p s = go (m s) (p s)
    where
      go : (x : Result A × Store) → Takes e s x → Takes e s (proceed x (λ a. give (f a)))
      go (ok a, t) k = k
      go (err y, t) k = k

  pub try_result-IsStep :
      (e : Effect) (x : Result A) (f : A → Op B)
      → ((a : A) → IsStep e (f a))
      → IsStep e (try_result x >>= f)
  try_result-IsStep e (ok a) f h s = h a s
  try_result-IsStep e (err y) f h s = Kept-refl s

module _ {A : Type 0} where
  pub IsQuiet-if : (b : Bool) (m n : Op A) → IsQuiet m → IsQuiet n → IsQuiet (if b then m else n)
  IsQuiet-if true m n p q = p
  IsQuiet-if false m n p q = q

  pub IsStep-if :
      (e f : Effect) (b : Bool) (m n : Op A)
      → IsStep e m
      → IsStep f n
      → IsStep (if b then e else f) (if b then m else n)
  IsStep-if e f true m n p q = p
  IsStep-if e f false m n p q = q

  pub Kept-idle : {s : Store} (x : Result A × Store) → Kept s x.1 → Takes idle s x
  Kept-idle (ok a, t) k = keeps k
  Kept-idle (err y, t) k = k

  pub IsQuiet-IsStep : (m : Op A) → IsQuiet m → IsStep idle m
  IsQuiet-IsStep m p s = Kept-idle (m s) (p s)

-- A handler that leaves the store as it is
pub same-IsQuiet : {A : Type 0} (m : Op A) → ((s : Store) → (m s).1 ≡ s) → IsQuiet m
same-IsQuiet m h s = subst (Kept s) (sym (h s)) (Kept-refl s)
