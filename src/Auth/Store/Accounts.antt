-- ===== src/Auth/Store/Accounts.antt =====
-- The accounts: `create_user`, the lookups, `set_password`, `touch_last_sign_in`, `user_roles` and
-- `ensure_provisioned`.
use text.Mathlib.Text.{◌==◌ as str_eq}
use urban_farming_backend.Prelude.{
  Bool, false, ◌&&◌, ◌||◌, Option, none, some, String, List, [], ◌∷◌, ◌++◌, any, find, where_, map,
  update_where, ◌==◌, if◌then◌else◌, lower, sorted_set,
}
use urban_farming_backend.Json.{Fields}
use urban_farming_backend.Db.{conflict}
use urban_farming_backend.Db.Rows.{Uuid, Time}
use urban_farming_backend.Auth.Store.{
  User, Profile, UserRole, InspectorName, Store, Op, ◌>>=◌, ◌>>◌, give, fail, reading, writing,
  uuid4,
}

-- `create_user`'s arguments, with `app_metadata or {}`
pub record NewUser : Type 0 where
  pub email : String
  pub password_hash : Option String
  pub user_metadata : Fields
  pub app_metadata : Fields

abbrev pub has_email : String → User → Bool
has_email e u = elim u.email [ none ↦ false | some f ↦ str_eq f e ]

abbrev pub new_user : NewUser → Uuid → Time → User
new_user n id now = record {
  id = id;
  email = some (lower n.email);
  encrypted_password = n.password_hash;
  raw_app_meta_data = n.app_metadata;
  raw_user_meta_data = n.user_metadata;
  email_confirmed_at = some now;
  last_sign_in_at = none;
  created_at = now;
  updated_at = now;
}

-- `id` is a primary key and `email` is unique.
abbrev pub is_clash : NewUser → Uuid → User → Bool
is_clash n id u = u.id == id || has_email (lower n.email) u

abbrev pub with_user : User → Store → Store
with_user u s = record s { users = s.users ++ (u ∷ []) }

unfoldable pub insert_user : NewUser → Time → Uuid → Op User
insert_user n now id s =
    if any (is_clash n id) s.users
    then fail (conflict "email_exists") s
    else (writing (with_user (new_user n id now)) >> give (new_user n id now)) s

unfoldable pub create_user : NewUser → Time → Op User
create_user n now = uuid4 >>= insert_user n now

-- `lower(email) = :email`
abbrev pub has_lower_email : String → User → Bool
has_lower_email e u = elim u.email [ none ↦ false | some f ↦ str_eq (lower f) e ]

abbrev pub user_by_email : String → Store → Option User
user_by_email e s = find (has_lower_email (lower e)) s.users

abbrev pub user_by_id : Uuid → Store → Option User
user_by_id id s = find (λ u. u.id == id) s.users

abbrev pub get_user_by_email : String → Op (Option User)
get_user_by_email e = reading (user_by_email e)

abbrev pub get_user_by_id : Uuid → Op (Option User)
get_user_by_id id = reading (user_by_id id)

abbrev pub with_password : Uuid → String → Time → Store → Store
with_password id hash now s = record s {
  users =
      update_where (λ (u : User). u.id == id)
        (λ u. record u { encrypted_password = some hash; updated_at = now }) s.users;
}

unfoldable pub set_password : Uuid → String → Time → Op (Unit {0})
set_password id hash now = writing (with_password id hash now)

abbrev pub with_sign_in : Uuid → Time → Store → Store
with_sign_in id now s = record s {
  users =
      update_where (λ (u : User). u.id == id)
        (λ u. record u { last_sign_in_at = some now; updated_at = now }) s.users;
}

unfoldable pub touch_last_sign_in : Uuid → Time → Op (Unit {0})
touch_last_sign_in id now = writing (with_sign_in id now)

abbrev pub roles_of : Uuid → Store → List String
roles_of id s =
    sorted_set
      (map (λ (r : UserRole). r.role) (where_ (λ (r : UserRole). r.user_id == id) s.user_roles))

abbrev pub user_roles : Uuid → Op (List String)
user_roles id = reading (roles_of id)

-- `INSERT ... ON CONFLICT DO NOTHING`, where `p` tells the rows that conflict
abbrev pub insert_unless : {A : Type 0} → (A → Bool) → A → List A → List A
insert_unless p x xs = if any p xs then xs else xs ++ (x ∷ [])

-- `COALESCE(:full_name, 'Inspector')`
abbrev pub inspector_name : Option String → String
inspector_name none = "Inspector"
inspector_name (some n) = n

abbrev pub with_inspector : Uuid → Option String → Store → Store
with_inspector id name s = record s {
  inspectors =
      insert_unless (λ (r : InspectorName). r.user_id == id)
        (record { user_id = id; name = inspector_name name }) s.inspectors;
}

unfoldable pub provisioned : Uuid → Option String → String → Store → Store
provisioned id name role s =
    let s' = record s {
      profiles =
          insert_unless (λ (p : Profile). p.id == id) (record { id = id; full_name = name })
            s.profiles;
      user_roles =
          insert_unless (λ (r : UserRole). r.user_id == id && str_eq r.role role)
            (record { user_id = id; role = role }) s.user_roles;
      grower_stats = insert_unless (λ i. i == id) id s.grower_stats;
      user_settings = insert_unless (λ i. i == id) id s.user_settings;
    } in
    if str_eq role "inspector" then with_inspector id name s' else s'

unfoldable pub ensure_provisioned : Uuid → Option String → String → Op (Unit {0})
ensure_provisioned id name role = writing (provisioned id name role)
