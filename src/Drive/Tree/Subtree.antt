-- ===== src/Drive/Tree/Subtree.antt =====
-- What the `subtree` queries find: a folder of the user and everything below it.
use terab.Base.{
  ℕ, ◌≡◌, sym, ap, ◌∙◌, ◌↔◌, refl, Bool, true, Option, none, some, List, [], ◌∷◌, arith, inl, inr,
  ◌==◌, ==-refl, ◌&&◌, is_value, some_of_is_value, Has, All, All-Has, All-mono, Bool-cases,
}
use terab.Table.{update_where, select_where, is_in, UniqueIds}
use terab.Table.Laws.{
  select_where-All, Has-select_where, same_row, updated, Has-update_where, Has-of_update_where,
}
use terab.Table.Recursive.{working-Has, closed-Has, with_recursive-All}
use terab.Drive.Schema.{Folder}
use terab.Drive.FolderRepository.{child_rows, subtree, ids_of, in_folders}

-- `r` is folder `top` of `user`, or lies below it at any depth, whoever owns it.
pub data IsUnder (t : List Folder) (top user : ℕ) : Folder → Type 0 where
  itself : {r : Folder} → Has r t → r.id ≡ top → r.user_id ≡ user → IsUnder t top user r
  below :
      {r : Folder} (s : Folder)
      → Has r t
      → r.parent_id ≡ some s.id
      → IsUnder t top user s
      → IsUnder t top user r

pub IsUnder-Has : {t : List Folder} {top user : ℕ} {r : Folder} → IsUnder t top user r → Has r t
IsUnder-Has (itself h e u) = h
IsUnder-Has (below s h e u) = h

-- `id IN (SELECT id FROM …)`
pub is_in_of_Has : (a : Folder) (rows : List Folder) → Has a rows → is_in a.id (ids_of rows) ≡ true
is_in_of_Has a [] h = absurd h
is_in_of_Has a (r ∷ rows) (inl e) = rw e (rw (==-refl r.id))
is_in_of_Has a (r ∷ rows) (inr h) = ground (arith, is_in_of_Has a rows h)

pub Has-of_is_in :
    (i : ℕ) (rows : List Folder)
    → is_in i (ids_of rows) ≡ true
    → (a : Folder) × Has a rows × (a.id ≡ i)
Has-of_is_in i [] e = cc
Has-of_is_in i (r ∷ rows) e = elim (Bool-cases (i == r.id)) [
  | inl same ↦ (r, inl refl, ground arith)
  | inr other ↦ let (a, h, k) = Has-of_is_in i rows (ground arith) in (a, inr h, k)
]

module _ (t : List Folder) (top user : ℕ) (out : List Folder)
    (ended : subtree top user t ≡ some out) where
  abbrev is_top : Folder → Bool
  is_top r = r.id == top && r.user_id == user

  -- Every row of the result lies under the folder.
  pub subtree_sound : All (IsUnder t top user) out
  unfolding subtree
  subtree_sound =
      with_recursive-All (IsUnder t top user) (child_rows t)
        (λ s under.
          All-mono (λ b. Has b t × (is_value b.parent_id s.id ≡ true)) (IsUnder t top user)
            (λ b (h, joined). below s h (some_of_is_value b.parent_id s.id joined) under)
            (child_rows t s) (select_where-All (λ b. is_value b.parent_id s.id) t))
        _ (select_where is_top t) out ended
        (All-mono (λ b. Has b t × (is_top b ≡ true)) (IsUnder t top user)
          (λ b (h, fits). itself h (ground arith) (ground arith)) (select_where is_top t)
          (select_where-All is_top t))

  -- Every row that lies under the folder is in the result.
  pub subtree_complete : {r : Folder} → IsUnder t top user r → Has r out
  unfolding subtree
  subtree_complete {r} (itself h e u) =
      working-Has _ (child_rows t) (select_where is_top t) out r ended
        (Has-select_where is_top t r h (ground arith))
  subtree_complete {r} (below s h e u) =
      closed-Has _ (child_rows t) (select_where is_top t) out s r ended (subtree_complete u)
        (Has-select_where (λ b. is_value b.parent_id s.id) t r h (rw e (==-refl s.id)))

  -- So the test `id IN subtree` holds of a row exactly when it lies under the folder.
  pub is_in-subtree_iff :
      UniqueIds (λ (r : Folder). r.id) t
      → (r : Folder) → Has r t
      → (is_in r.id (ids_of out) ≡ true) ↔ IsUnder t top user r
  is_in-subtree_iff unique r h = (to, λ u. is_in_of_Has r out (subtree_complete u))
    where
      to : is_in r.id (ids_of out) ≡ true → IsUnder t top user r
      to e =
          let (a, k, same) = Has-of_is_in r.id out e in
          let under : IsUnder t top user a = All-Has (IsUnder t top user) out subtree_sound k in
          let one : a ≡ r =
            same_row (λ (s : Folder). s.id) t a r unique (IsUnder-Has under) h same in
          rw one at under

  -- `folder_id IN subtree`
  pub in_folders-subtree_iff :
      (folder : Option ℕ)
      → (in_folders (ids_of out) folder ≡ true)
        ↔ ((r : Folder) × IsUnder t top user r × (folder ≡ some r.id))
  in_folders-subtree_iff folder = (to folder, from folder)
    where
      to :
          (o : Option ℕ)
          → in_folders (ids_of out) o ≡ true
          → (r : Folder) × IsUnder t top user r × (o ≡ some r.id)
      to none e = cc
      to (some i) e =
          let (a, k, same) = Has-of_is_in i out e in
          (a, All-Has (IsUnder t top user) out subtree_sound k, ground arith)

      from :
          (o : Option ℕ)
          → (r : Folder) × IsUnder t top user r × (o ≡ some r.id)
          → in_folders (ids_of out) o ≡ true
      from o (r, u, e) = rw e (is_in_of_Has r out (subtree_complete u))

-- A change that keeps ids, parents and owners does not change what lies under what.
module _ (p : Folder → Bool) (g : Folder → Folder) (t : List Folder)
    (same_id : (r : Folder) → (g r).id ≡ r.id)
    (same_parent : (r : Folder) → (g r).parent_id ≡ r.parent_id)
    (same_user : (r : Folder) → (g r).user_id ≡ r.user_id) where
  abbrev pub after : Folder → Folder
  after = updated p g

  id-after : (r : Folder) → (after r).id ≡ r.id
  id-after r = ground (arith, same_id r)

  parent_id-after : (r : Folder) → (after r).parent_id ≡ r.parent_id
  parent_id-after r = ground (arith, same_parent r)

  user_id-after : (r : Folder) → (after r).user_id ≡ r.user_id
  user_id-after r = ground (arith, same_user r)

  pub IsUnder-after :
      {top user : ℕ} {r : Folder}
      → IsUnder t top user r
      → IsUnder (update_where p g t) top user (after r)
  IsUnder-after {r = r} (itself h e u) =
      itself (Has-update_where p g t r h) (id-after r ∙ e) (user_id-after r ∙ u)
  IsUnder-after {r = r} (below s h e u) =
      below (after s) (Has-update_where p g t r h)
        (parent_id-after r ∙ e ∙ ap some (sym (id-after s))) (IsUnder-after u)

  pub IsUnder-of_after :
      {top user : ℕ} {b : Folder}
      → IsUnder (update_where p g t) top user b
      → (r : Folder) × IsUnder t top user r × (b ≡ after r)
  IsUnder-of_after {b = b} (itself h e u) =
      let (r, k, same) = Has-of_update_where p g t b h in
      (
        r,
        itself k (sym (id-after r) ∙ ap (λ (x : Folder). x.id) (sym same) ∙ e)
            (sym (user_id-after r) ∙ ap (λ (x : Folder). x.user_id) (sym same) ∙ u),
        same,
      )
  IsUnder-of_after {b = b} (below s h e u) =
      let (r, k, same) = Has-of_update_where p g t b h in
      let (s', under, same') = IsUnder-of_after u in
      (
        r,
        below s' k
            (sym (parent_id-after r)
              ∙ ap (λ (x : Folder). x.parent_id) (sym same)
              ∙ e
              ∙ ap (λ (x : Folder). some x.id) same'
              ∙ ap some (id-after s'))
            under,
        same,
      )
