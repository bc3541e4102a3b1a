-- ===== src/Drive/Tree.antt =====
-- The folders form a forest: what that means, and that the recursive queries then end.
pub mod Ancestors
pub mod Moving
pub mod Subtree
use terab.Base.{
  ℕ, suc, ◌≤◌, ◌<◌, ◌≡◌, Bool, true, some, List, arith, ltb, is_value, ◌==◌, ◌&&◌, some_of_is_value,
  Has, All, All-Has, All-mono, length,
}
use terab.Table.{select_where}
use terab.Table.Laws.{select_where-All}
use terab.Table.Recursive.{with_recursive_ends}
use terab.Table.Count.{count, count-lt-length, count-lt-count}
use terab.Drive.Schema.{Folder}
use terab.Drive.FolderRepository.{has_id, parent_rows, child_rows, ancestors, subtree}

abbrev pub Below : (ℕ → ℕ) → Folder → Type 0
Below rank r = (p : ℕ) → r.parent_id ≡ some p → rank p < rank r.id

-- There is no cycle of parents: some rank falls from every folder to its parent.
pub record IsForest (t : List Folder) : Type 0 where
  pub rank : ℕ → ℕ
  pub above : All (Below rank) t

module _ (t : List Folder) (f : IsForest t) where
  abbrev higher : Folder → ℕ
  higher a = count (λ (r : Folder). ltb (f.rank a.id) (f.rank r.id)) t

  abbrev lower : Folder → ℕ
  lower a = count (λ (r : Folder). ltb (f.rank r.id) (f.rank a.id)) t

  higher-lt-higher : (a b : Folder) → Has a t → f.rank b.id < f.rank a.id → higher a < higher b
  higher-lt-higher a b here falls =
      count-lt-count (λ (r : Folder). ltb (f.rank a.id) (f.rank r.id))
        (λ (r : Folder). ltb (f.rank b.id) (f.rank r.id)) (λ r h. ground arith) t a here
        (ground arith) (ground arith)

  lower-lt-lower : (a b : Folder) → Has a t → f.rank a.id < f.rank b.id → lower a < lower b
  lower-lt-lower a b here falls =
      count-lt-count (λ (r : Folder). ltb (f.rank r.id) (f.rank a.id))
        (λ (r : Folder). ltb (f.rank r.id) (f.rank b.id)) (λ r h. ground arith) t a here
        (ground arith) (ground arith)

  -- Round `k` of `ancestors` holds only folders with `k` folders of a higher rank.
  abbrev Climbs : ℕ → Folder → Type 0
  Climbs k a = Has a t × (k ≤ higher a)

  Climbs-parent_rows : (k : ℕ) (a : Folder) → Climbs k a → All (Climbs (suc k)) (parent_rows t a)
  Climbs-parent_rows k a (here, c) =
      All-mono (λ b. Has b t × (is_value a.parent_id b.id ≡ true)) (Climbs (suc k))
        (λ b (listed, joined). (
          listed,
          omega (
            arith,
            higher-lt-higher a b here
                (All-Has (Below f.rank) t f.above here b.id (some_of_is_value _ _ joined)),
          ),
        ))
        (parent_rows t a) (select_where-All (λ b. is_value a.parent_id b.id) t)

  -- Round `k` of `subtree` holds only folders with `k` folders of a lower rank.
  abbrev Descends : ℕ → Folder → Type 0
  Descends k a = Has a t × (k ≤ lower a)

  Descends-child_rows :
      (k : ℕ) (a : Folder) → Descends k a → All (Descends (suc k)) (child_rows t a)
  Descends-child_rows k a (here, c) =
      All-mono (λ b. Has b t × (is_value b.parent_id a.id ≡ true)) (Descends (suc k))
        (λ b (listed, joined). (
          listed,
          omega (
            arith,
            lower-lt-lower a b here
                (All-Has (Below f.rank) t f.above listed a.id (some_of_is_value _ _ joined)),
          ),
        ))
        (child_rows t a) (select_where-All (λ b. is_value b.parent_id a.id) t)

  -- In a forest the query for the ancestors of any folder ends.
  pub ancestors_ends : (id : ℕ) → (out : List Folder) × (ancestors id t ≡ some out)
  unfolding ancestors
  ancestors_ends id =
      with_recursive_ends Climbs (parent_rows t) (length t)
        (λ k a (here, c). omega (
          arith,
          count-lt-length (λ (r : Folder). ltb (f.rank a.id) (f.rank r.id)) t a here (ground arith),
        ))
        Climbs-parent_rows (suc (length t)) 0 (select_where (has_id id) t) (omega arith)
        (omega arith)
        (All-mono (λ a. Has a t × (has_id id a ≡ true)) (Climbs 0) (λ a h. (h.0, omega arith))
          (select_where (has_id id) t) (select_where-All (has_id id) t))

  -- In a forest the query for the folders below any folder ends.
  pub subtree_ends : (id user : ℕ) → (out : List Folder) × (subtree id user t ≡ some out)
  unfolding subtree
  subtree_ends id user =
      with_recursive_ends Descends (child_rows t) (length t)
        (λ k a (here, c). omega (
          arith,
          count-lt-length (λ (r : Folder). ltb (f.rank r.id) (f.rank a.id)) t a here (ground arith),
        ))
        Descends-child_rows (suc (length t)) 0 (select_where start t) (omega arith) (omega arith)
        (All-mono (λ a. Has a t × (start a ≡ true)) (Descends 0) (λ a h. (h.0, omega arith))
          (select_where start t) (select_where-All start t))
    where
      start : Folder → Bool
      start r = r.id == id && r.user_id == user
