-- ===== src/Auth/Role/Granted.antt =====
-- The permissions of a user are those that a role of the user grants:
-- `findPermissionsByUserId` of services/api/src/auth/role/role.repository.ts.
use terab.Base.{
  concat_map, Has-concat_map, Has-of_concat_map, ℕ, ◌≡◌, ◌⊎◌, ◌↔◌, refl, ap, Bool, true, List, [],
  ◌∷◌, map, Has, Text, text_eq, has_text, eq-of_text_eq, text_eq_refl, inl, inr, Bool-cases, ◌==◌,
  arith,
}
use terab.Table.{select_where}
use terab.Table.Laws.{Has-select_where, Has-of_select_where}
use terab.Auth.Schema.{Role, Permission, RolePermission, UserRole, AuthDb}
use terab.Auth.Role.{
  distinct_after, permission_name, join_permissions, join_grants, join_roles,
  find_permissions_by_user_id,
}

pub has_text-of_Has : (t : Text) (ts : List Text) → Has t ts → has_text t ts ≡ true
has_text-of_Has t [] h = absurd h
has_text-of_Has t (s ∷ ts) (inl e) = rw (← e, text_eq_refl t) refl
has_text-of_Has t (s ∷ ts) (inr h) = elim (Bool-cases (text_eq t s)) [
  | inl same ↦ rw same refl
  | inr other ↦ rw other (has_text-of_Has t ts h)
]

pub Has-of_has_text : (t : Text) (ts : List Text) → has_text t ts ≡ true → Has t ts
Has-of_has_text t [] h = cc
Has-of_has_text t (s ∷ ts) h = elim (Bool-cases (text_eq t s)) [
  | inl same ↦ inl (eq-of_text_eq t s same)
  | inr other ↦ inr (Has-of_has_text t ts (rw other at h))
]

uncons : (t s : Text) (rest : List Text) → Has t (s ∷ rest) → (t ≡ s) ⊎ Has t rest
uncons t s rest h = h

Has-of_distinct : (t : Text) (seen ts : List Text) → Has t (distinct_after seen ts) → Has t ts
unfolding distinct_after
Has-of_distinct t seen [] h = h
Has-of_distinct t seen (s ∷ ts) h = elim (Bool-cases (has_text s seen)) [
  | inl known ↦ inr (Has-of_distinct t seen ts (rw known at h))
  | inr new ↦ elim (uncons t s (distinct_after (s ∷ seen) ts) (rw new at h)) [
    | inl e ↦ inl e
    | inr rest ↦ inr (Has-of_distinct t (s ∷ seen) ts rest)
  ]
]

-- What is listed once stays listed.
distinct-Has :
    (t : Text) (seen ts : List Text) → Has t ts → Has t seen ⊎ Has t (distinct_after seen ts)
unfolding distinct_after
distinct-Has t seen [] h = absurd h
distinct-Has t seen (s ∷ ts) h = elim (Bool-cases (has_text s seen)) [
  | inl known ↦ elim (uncons t s ts h) [
    | inl e ↦ inl (rw e (Has-of_has_text s seen known))
    | inr rest ↦ rw known (distinct-Has t seen ts rest)
  ]
  | inr new ↦ elim (uncons t s ts h) [
    | inl e ↦ rw new (inr (inl e))
    | inr rest ↦ elim (distinct-Has t (s ∷ seen) ts rest) [
      | inl before ↦ elim (uncons t s seen before) [
        | inl e ↦ rw new (inr (inl e))
        | inr older ↦ inl older
      ]
      | inr after ↦ rw new (inr (inr after))
    ]
  ]
]

Has-of_map :
    (t : Text) (ps : List Permission)
    → Has t (map permission_name ps)
    → (p : Permission) × Has p ps × (t ≡ permission_name p)
Has-of_map t [] h = absurd h
Has-of_map t (p ∷ ps) (inl e) = (p, inl refl, e)
Has-of_map t (p ∷ ps) (inr h) = let (q, k, e) = Has-of_map t ps h in (q, inr k, e)

Has-map :
    (p : Permission) (ps : List Permission)
    → Has p ps
    → Has (permission_name p) (map permission_name ps)
Has-map p [] h = absurd h
Has-map p (q ∷ ps) (inl e) = inl (ap permission_name e)
Has-map p (q ∷ ps) (inr h) = inr (Has-map p ps h)

-- A grant, a role and a user that come with the permission.
abbrev IsGrantedBy : RolePermission → Text → AuthDb → Type 0
IsGrantedBy g t d =
    (p : Permission) × Has p d.permissions × (p.id ≡ g.permission_id) × (t ≡ permission_name p)

abbrev IsHeldBy : Role → Text → AuthDb → Type 0
IsHeldBy r t d =
    (g : RolePermission) × Has g d.role_permissions × (g.role_id ≡ r.id) × IsGrantedBy g t d

abbrev IsHadBy : UserRole → Text → AuthDb → Type 0
IsHadBy u t d = (r : Role) × Has r d.roles × (r.id ≡ u.role_id) × IsHeldBy r t d

-- A role of the user grants the permission.
abbrev pub IsGranted : ℕ → Text → AuthDb → Type 0
IsGranted user t d = (u : UserRole) × Has u d.user_roles × (u.user_id ≡ user) × IsHadBy u t d

module _ (t : Text) (d : AuthDb) where
  join_permissions-IsGrantedBy :
      (g : RolePermission) → Has t (join_permissions d g) ↔ IsGrantedBy g t d
  unfolding join_permissions
  join_permissions-IsGrantedBy g = (
    (λ h.
        let (p, k, e) =
          Has-of_map t (select_where (λ (p : Permission). p.id == g.permission_id) d.permissions)
            h in
        let (there, fits) =
          Has-of_select_where (λ (p : Permission). p.id == g.permission_id) d.permissions p k in
        (p, there, ground arith, e)),
    (λ (p, there, id, e). rw e (
        Has-map p (select_where (λ (p : Permission). p.id == g.permission_id) d.permissions) (
          Has-select_where (λ (p : Permission). p.id == g.permission_id) d.permissions p there
            (ground arith)))),
  )

  join_grants-IsHeldBy : (r : Role) → Has t (join_grants d r) ↔ IsHeldBy r t d
  unfolding join_grants
  join_grants-IsHeldBy r = (
    (λ h.
        let (g, k, h') =
          Has-of_concat_map (join_permissions d) t (select_where fits d.role_permissions) h in
        let (there, e) = Has-of_select_where fits d.role_permissions g k in
        (g, there, ground arith, (join_permissions-IsGrantedBy g).0 h')),
    (λ (g, there, id, granted).
        Has-concat_map (join_permissions d) t g (select_where fits d.role_permissions)
          (Has-select_where fits d.role_permissions g there (ground arith))
          ((join_permissions-IsGrantedBy g).1 granted)),
  )
    where
      fits : RolePermission → Bool
      fits g = g.role_id == r.id

  join_roles-IsHadBy : (u : UserRole) → Has t (join_roles d u) ↔ IsHadBy u t d
  unfolding join_roles
  join_roles-IsHadBy u = (
    (λ h.
        let (r, k, h') = Has-of_concat_map (join_grants d) t (select_where fits d.roles) h in
        let (there, e) = Has-of_select_where fits d.roles r k in
        (r, there, ground arith, (join_grants-IsHeldBy r).0 h')),
    (λ (r, there, id, held).
        Has-concat_map (join_grants d) t r (select_where fits d.roles)
          (Has-select_where fits d.roles r there (ground arith)) ((join_grants-IsHeldBy r).1 held)),
  )
    where
      fits : Role → Bool
      fits r = r.id == u.role_id

  -- The list of a user's permissions holds exactly what a role of the user grants.
  pub permissions-IsGranted :
      (user : ℕ) → Has t (find_permissions_by_user_id user d) ↔ IsGranted user t d
  unfolding find_permissions_by_user_id
  permissions-IsGranted user = (
    (λ h.
        let all = concat_map (join_roles d) (select_where fits d.user_roles) in
        let (u, k, h') =
          Has-of_concat_map (join_roles d) t (select_where fits d.user_roles)
            (Has-of_distinct t [] all h) in
        let (there, e) = Has-of_select_where fits d.user_roles u k in
        (u, there, ground arith, (join_roles-IsHadBy u).0 h')),
    (λ (u, there, id, had).
        let all = concat_map (join_roles d) (select_where fits d.user_roles) in
        elim (distinct-Has t [] all (
          Has-concat_map (join_roles d) t u (select_where fits d.user_roles)
            (Has-select_where fits d.user_roles u there (ground arith))
            ((join_roles-IsHadBy u).1 had))) [
              | inl nowhere ↦ absurd nowhere
              | inr listed ↦ listed
            ]),
  )
    where
      fits : UserRole → Bool
      fits u = u.user_id == user
