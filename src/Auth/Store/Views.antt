-- ===== src/Auth/Store/Views.antt =====
-- What a store says of the sessions: the set of the refresh tokens that are not revoked, each with its
-- account. It forgets the order of the tokens, those that are revoked, and every instant.
use urban_farming_backend.Prelude.{
  ◌≡◌, refl, ◌<◌, Bool, true, false, not, ◌&&◌, ◌||◌, List, [], ◌∷◌, arith, ◌==◌, All, any,
  any-append, update_where, none,
}
use urban_farming_backend.Db.Rows.{Uuid, Time}
use urban_farming_backend.Auth.Store.{RefreshToken, Store}
use urban_farming_backend.Auth.Store.Tokens.{
  is_unrevoked, is_live, with_token, with_revoked, with_all_revoked, revoked,
}

-- Whether a token is an open session of an account
abbrev pub View : Type 0
View = Uuid → Uuid → Bool

abbrev pub is_open : Uuid → Uuid → RefreshToken → Bool
is_open id user_id t = t.id == id && t.user_id == user_id && is_unrevoked t

abbrev pub view : Store → View
view s id user_id = any (is_open id user_id) s.refresh_tokens

-- A session is opened, one is closed, all of an account are closed.
abbrev pub opened : Uuid → Uuid → View → View
opened id user_id v j u = v j u || id == j && user_id == u

abbrev pub closed : Uuid → View → View
closed id v j u = not (j == id) && v j u

abbrev pub closed_all : Uuid → View → View
closed_all user_id v j u = not (u == user_id) && v j u

pub view-with_token :
    (id user_id j u : Uuid) (expires_at : Time) (s : Store)
    → view (with_token id user_id expires_at s) j u ≡ opened id user_id (view s) j u
view-with_token id user_id j u expires_at s = ground (
  arith,
  any-append (is_open j u) s.refresh_tokens
      (record { id = id; user_id = user_id; expires_at = expires_at; revoked_at = none } ∷ []),
)

revoked-open :
    (id j u : Uuid) (now : Time) (xs : List RefreshToken)
    → any (is_open j u) (update_where (λ t. t.id == id && is_unrevoked t) (revoked now) xs)
      ≡ (not (j == id) && any (is_open j u) xs)
revoked-open id j u now [] = ground arith
revoked-open id j u now (t ∷ xs) = ground (arith, revoked-open id j u now xs)

pub view-with_revoked :
    (id j u : Uuid) (now : Time) (s : Store)
    → view (with_revoked id now s) j u ≡ closed id (view s) j u
view-with_revoked id j u now s = revoked-open id j u now s.refresh_tokens

all_revoked-open :
    (user_id j u : Uuid) (now : Time) (xs : List RefreshToken)
    → any
        (is_open j u)
        (update_where (λ t. t.user_id == user_id && is_unrevoked t) (revoked now) xs)
      ≡ (not (u == user_id) && any (is_open j u) xs)
all_revoked-open user_id j u now [] = ground arith
all_revoked-open user_id j u now (t ∷ xs) = ground (arith, all_revoked-open user_id j u now xs)

pub view-with_all_revoked :
    (user_id j u : Uuid) (now : Time) (s : Store)
    → view (with_all_revoked user_id now s) j u ≡ closed_all user_id (view s) j u
view-with_all_revoked user_id j u now s = all_revoked-open user_id j u now s.refresh_tokens

-- The identifiers that were given lie below the next one.
abbrev pub IsFresh : Store → Type 0
IsFresh s = All (λ (t : RefreshToken). t.id < s.next_id) s.refresh_tokens

-- A token that is there was given its identifier.
pub any-below :
    (id n : Uuid) (q : RefreshToken → Bool) (xs : List RefreshToken)
    → All (λ t. t.id < n) xs
    → any (λ t. t.id == id && q t) xs ≡ true
    → id < n
any-below id n q [] h k = cc
any-below id n q (t ∷ xs) h k = ground (arith, any-below id n q xs h.1)

-- A token that is revoked is not active, at any time.
pub is_active-with_revoked :
    (id : Uuid) (now later : Time) (xs : List RefreshToken)
    → any
        (λ t. t.id == id && is_live later t)
        (update_where (λ t. t.id == id && is_unrevoked t) (revoked now) xs)
      ≡ false
is_active-with_revoked id now later [] = refl
is_active-with_revoked id now later (t ∷ xs) =
    ground (arith, is_active-with_revoked id now later xs)
