-- ===== src/Auth/Store/Provision.antt =====
-- Provisioning an account again.
use text.Mathlib.Text.{◌==◌ as str_eq}
use text.Mathlib.TextEquality.{eq_iff}
use urban_farming_backend.Prelude.{
  ◌≡◌, Bool, true, ◌&&◌, Option, String, List, [], ◌∷◌, any-append, ◌==◌, ==_refl, arith,
}
use urban_farming_backend.Db.Rows.{Uuid}
use urban_farming_backend.Auth.Store.{Store, Profile, UserRole, InspectorName}
use urban_farming_backend.Auth.Store.Accounts.{insert_unless, inspector_name, provisioned}

-- A row that conflicts with itself is not inserted twice.
insert_unless-again :
    {A : Type 0} (p : A → Bool) (x y : A) (xs : List A)
    → p x ≡ true
    → insert_unless p y (insert_unless p x xs) ≡ insert_unless p x xs
insert_unless-again p x y xs h = ground (arith, any-append p xs (x ∷ []))

-- Provisioning an account a second time with the same role, under whatever name, changes nothing.
pub provisioned-again :
    (id : Uuid) (name other : Option String) (role : String) (s : Store)
    → provisioned id other role (provisioned id name role s) ≡ provisioned id name role s
unfolding provisioned
provisioned-again id name other role s = ground (
  arith,
  ==_refl id,
  eq_iff role role,
  insert_unless-again (λ (p : Profile). p.id == id) (record { id = id; full_name = name })
      (record { id = id; full_name = other }) s.profiles,
  insert_unless-again (λ (r : UserRole). r.user_id == id && str_eq r.role role)
      (record { user_id = id; role = role }) (record { user_id = id; role = role }) s.user_roles,
  insert_unless-again (λ i. i == id) id id s.grower_stats,
  insert_unless-again (λ i. i == id) id id s.user_settings,
  insert_unless-again (λ (r : InspectorName). r.user_id == id)
      (record { user_id = id; name = inspector_name name })
      (record { user_id = id; name = inspector_name other }) s.inspectors,
)
