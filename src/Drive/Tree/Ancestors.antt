-- ===== src/Drive/Tree/Ancestors.antt =====
-- What `isDescendant` answers in a forest.
use terab.Base.{
  ℕ, ◌≡◌, refl, ap, sym, ◌∙◌, Bool, true, false, Option, none, some, List, arith, ==-refl, is_value,
  Has, All, All-Has, All-of_Has, All-mono,
}
use terab.Table.{select_where, exists_where}
use terab.Table.Laws.{select_where-All, Has-select_where, exists_where_of_Has, Has-of_exists_where}
use terab.Table.Recursive.{working-Has, closed-Has, with_recursive-All}
use terab.Drive.Schema.{Folder}
use terab.Drive.FolderRepository.{has_id, parent_rows, ancestors, is_descendant}
use terab.Drive.Tree.{IsForest, ancestors_ends}

abbrev pub get_or : Option Bool → Bool → Bool
get_or none d = d
get_or (some b) d = b

-- Whether folder `x` is `v` or stands above it, as the query answers.
abbrev pub climbs_to : List Folder → ℕ → ℕ → Bool
climbs_to t x v = get_or (is_descendant v x t) false

module _ (t : List Folder) (f : IsForest t) where
  abbrev above_list : ℕ → List Folder
  above_list v = (ancestors_ends t f v).0

  answer : (x v : ℕ) → is_descendant v x t ≡ some (exists_where (has_id x) (above_list v))
  unfolding is_descendant
  answer x v = rw (ancestors_ends t f v).1 refl

  climbs_to_lem : (x v : ℕ) → climbs_to t x v ≡ exists_where (has_id x) (above_list v)
  climbs_to_lem x v = ap (λ (o : Option Bool). get_or o false) (answer x v)

  -- In a forest the test for a descendant always answers.
  pub is_descendant_ends : (x v : ℕ) → is_descendant v x t ≡ some (climbs_to t x v)
  is_descendant_ends x v = answer x v ∙ ap some (sym (climbs_to_lem x v))

  pub climbs_to_self : (r : Folder) → Has r t → climbs_to t r.id r.id ≡ true
  unfolding ancestors
  climbs_to_self r h = rw (climbs_to_lem r.id r.id) (
      exists_where_of_Has (has_id r.id) (above_list r.id) r
        (working-Has _ (parent_rows t) _ _ r (ancestors_ends t f r.id).1
          (Has-select_where (has_id r.id) t r h (==-refl r.id)))
        (==-refl r.id))

  -- What stands above a folder's parent stands above the folder.
  above_list_mono :
      (r : Folder) (q : ℕ)
      → Has r t
      → r.parent_id ≡ some q
      → All (λ a. Has a (above_list r.id)) (above_list q)
  unfolding ancestors
  above_list_mono r q h e =
      with_recursive-All (λ a. Has a (above_list r.id)) (parent_rows t)
        (λ a here. All-of-next a here) _ (select_where (has_id q) t) (above_list q)
        (ancestors_ends t f q).1
        (All-mono (λ b. Has b t × (has_id q b ≡ true)) (λ b. Has b (above_list r.id))
          (λ b (listed, same). start b listed same) (select_where (has_id q) t)
          (select_where-All (has_id q) t))
    where
      grow :
          (a b : Folder)
          → Has a (above_list r.id)
          → Has b (parent_rows t a)
          → Has b (above_list r.id)
      grow a b here joined =
          closed-Has _ (parent_rows t) _ _ a b (ancestors_ends t f r.id).1 here joined

      All-of-next :
          (a : Folder)
          → Has a (above_list r.id)
          → All (λ b. Has b (above_list r.id)) (parent_rows t a)
      All-of-next a here =
          All-of_Has (λ b. Has b (above_list r.id)) (parent_rows t a)
            (λ b joined. grow a b here joined)

      itself : Has r (above_list r.id)
      itself =
          working-Has _ (parent_rows t) _ _ r (ancestors_ends t f r.id).1
            (Has-select_where (has_id r.id) t r h (==-refl r.id))

      start : (b : Folder) → Has b t → has_id q b ≡ true → Has b (above_list r.id)
      start b listed same =
          grow r b itself
            (Has-select_where (λ s. is_value r.parent_id s.id) t b listed (rw e (ground arith)))

  pub climbs_to_child :
      (x : ℕ) (r : Folder) (q : ℕ)
      → Has r t
      → r.parent_id ≡ some q
      → climbs_to t x q ≡ true
      → climbs_to t x r.id ≡ true
  climbs_to_child x r q h e c =
      let (a, here, same) =
        Has-of_exists_where (has_id x) (above_list q) (rw (climbs_to_lem x q) at c) in
      rw (climbs_to_lem x r.id) (
        exists_where_of_Has (has_id x) (above_list r.id) a
          (All-Has (λ b. Has b (above_list r.id)) (above_list q) (above_list_mono r q h e) here)
          same)
