-- ===== src/Drive/Tree/Moving.antt =====
-- Every change of the folder table keeps it a forest.
use terab.Base.{
  ℕ, suc, ◌+◌, ◌<◌, ◌≡◌, ◌≢◌, Bool, true, false, Option, none, some, List, [], ◌∷◌, arith, ◌==◌,
  Has, All, All-Has, All-of_Has, All-append, if◌then◌else◌,
}
use terab.Table.{update_where, insert}
use terab.Table.Laws.{update_where_split}
use terab.Drive.Schema.{Folder}
use terab.Drive.FolderRepository.{is_live, with_parent}
use terab.Drive.Tree.{IsForest, Below}
use terab.Drive.Tree.Ancestors.{climbs_to, climbs_to_self, climbs_to_child}

module _ (t : List Folder) (f : IsForest t) where
  -- A change that leaves every id and parent alone keeps the forest.
  pub update_where-IsForest :
      (p : Folder → Bool) (g : Folder → Folder)
      → ((r : Folder) → (g r).id ≡ r.id)
      → ((r : Folder) → (g r).parent_id ≡ r.parent_id)
      → IsForest (update_where p g t)
  update_where-IsForest p g same_id same_parent = record {
    rank = f.rank;
    above =
        update_where_split (Below f.rank) (Below f.rank) p g t
          (λ r below fits q e. rw (same_id r) (below q (rw (same_parent r) at e)))
          (λ r below misses. below) f.above;
  }

  -- A new folder below a parent that is there, under an id that nobody uses.
  module _ (row : Folder)
      (unused : All (λ (r : Folder). (r.id ≢ row.id) × (r.parent_id ≢ some row.id)) t)
      (other : row.parent_id ≢ some row.id) where
    rank_new : Option ℕ → ℕ
    rank_new none = 0
    rank_new (some p) = suc (f.rank p)

    abbrev rank_with : ℕ → ℕ
    rank_with v = if v == row.id then rank_new row.parent_id else f.rank v

    old_row : (r : Folder) → Has r t → Below rank_with r
    old_row r h q e =
        let (ne, np) =
          All-Has (λ (s : Folder). (s.id ≢ row.id) × (s.parent_id ≢ some row.id)) t unused h in
        let falls : f.rank q < f.rank r.id = All-Has (Below f.rank) t f.above h q e in
        ground (arith)

    new_row : Below rank_with row
    unfolding rank_new
    new_row q e = ground arith

    pub insert-IsForest : IsForest (insert row t)
    insert-IsForest = record {
      rank = rank_with;
      above =
          All-append (Below rank_with) t (row ∷ []) (All-of_Has (Below rank_with) t old_row)
            (new_row, tt);
    }

  module _ (x p : ℕ) (apart : climbs_to t x p ≡ false) where
    -- The moved subtree is lifted above its new parent.
    abbrev lifted : ℕ → ℕ
    lifted v = if climbs_to t x v then f.rank v + suc (f.rank p) else f.rank v

    stays : (r : Folder) → Has r t → Below lifted r
    stays r h q e =
        let falls : f.rank q < f.rank r.id = All-Has (Below f.rank) t f.above h q e in
        ground (arith, climbs_to_child t f x r q h e)

    moves : (r : Folder) → Has r t → r.id ≡ x → lifted p < lifted r.id
    moves r h e =
        let self : climbs_to t x r.id ≡ true = rw (← e) (climbs_to_self t f r h) in
        rw (apart, self) (omega arith)

    pub reparent-IsForest :
        (user now : ℕ) → IsForest (update_where (is_live x user) (with_parent (some p) now) t)
    reparent-IsForest user now = record {
      rank = lifted;
      above =
          update_where_split (λ r. Has r t) (Below lifted) (is_live x user)
            (with_parent (some p) now) t (λ r h fits q e. to_parent r h fits q e)
            (λ r h misses. stays r h) (All-of_Has (λ r. Has r t) t (λ r h. h));
    }
      where
        to_parent :
            (r : Folder)
            → Has r t
            → is_live x user r ≡ true
            → (q : ℕ) → some p ≡ some q
            → lifted q < lifted r.id
        to_parent r h fits q e =
            let same : r.id ≡ x = ground arith in
            let pq : p ≡ q = ground arith in rw (← pq) (moves r h same)

  pub unparent-IsForest :
      (x user now : ℕ) → IsForest (update_where (is_live x user) (with_parent none now) t)
  unparent-IsForest x user now = record {
    rank = f.rank;
    above =
        update_where_split (Below f.rank) (Below f.rank) (is_live x user) (with_parent none now) t
          (λ r below fits q e. absurd (no_parent q e)) (λ r below misses. below) f.above;
  }
    where
      no_parent : (q : ℕ) → none ≡ some q → ⊥
      no_parent q e = cc
