-- ===== src/Auth/Role.antt =====
-- services/api/src/auth/role: role.service.ts and role.repository.ts, who may do what.
pub mod Granted
use terab.Base.{
  concat_map, ℕ, Option, none, some, List, [], ◌∷◌, ◌++◌, map, ◌==◌, text_eq, has_text, Text,
  if◌then◌else◌,
}
use terab.Action.{query, statement}
use terab.Table.{select_where, insert}
use terab.Auth.Schema.{Role, Permission, RolePermission, UserRole, AuthDb}
use terab.Auth.Outside.{AuthAction}

-- `new Set(texts)`, in the order in which the texts come first.
unfoldable pub distinct_after : List Text → List Text → List Text
distinct_after seen [] = []
distinct_after seen (t ∷ ts) =
    let kept = distinct_after (t ∷ seen) ts in
    let skipped = distinct_after seen ts in if has_text t seen then skipped else t ∷ kept

-- `${resource}:${action}`
abbrev pub permission_name : Permission → Text
permission_name p = p.resource ++ b':' ∷ p.action

-- The rows of a join, one table after the other.
unfoldable pub join_permissions : AuthDb → RolePermission → List Text
join_permissions d g =
    map permission_name (select_where (λ (p : Permission). p.id == g.permission_id) d.permissions)

unfoldable pub join_grants : AuthDb → Role → List Text
join_grants d r =
    concat_map (join_permissions d)
      (select_where (λ (g : RolePermission). g.role_id == r.id) d.role_permissions)

unfoldable pub join_roles : AuthDb → UserRole → List Text
join_roles d u = concat_map (join_grants d) (select_where (λ (r : Role). r.id == u.role_id) d.roles)

unfoldable pub find_permissions_by_user_id : ℕ → AuthDb → List Text
find_permissions_by_user_id user d =
    distinct_after []
      (concat_map (join_roles d) (select_where (λ (u : UserRole). u.user_id == user) d.user_roles))

-- The id of the role.
unfoldable pub find_by_name : Text → List Role → Option ℕ
find_by_name name [] = none
find_by_name name (r ∷ roles) = if text_eq r.name name then some r.id else find_by_name name roles

abbrev pub insert_user_role : ℕ → ℕ → AuthDb → Unit {0} × AuthDb
insert_user_role user role d =
    (tt, record d { user_roles = insert (record { user_id = user; role_id = role }) d.user_roles })

module _ {X : Type 0} where
  abbrev pub assign_user_role : ℕ → ℕ → AuthAction X (Unit {0})
  assign_user_role user role = statement (insert_user_role user role)

  abbrev pub get_permissions_by_user_id : ℕ → AuthAction X (List Text)
  get_permissions_by_user_id user = query (find_permissions_by_user_id user)
