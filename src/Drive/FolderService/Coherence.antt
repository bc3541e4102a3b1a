-- ===== src/Drive/FolderService/Coherence.antt =====
-- The cached listings agree with the tables after every method of the folder service.
pub mod Moving
use terab.Base.{
  ℕ, ◌≡◌, ◌≢◌, refl, sym, ◌∙◌, ap, Bool, true, false, Option, none, some, List, arith, inl, inr,
  ◌⊎◌, ◌==◌, Has, All, Option-cases, Bool-cases, map, All-append_left, [], ◌∷◌, leb,
}
use terab.Action.{World, Result, ok, err}
use terab.Table.{UniqueIds, select_where, insert, update_where, first}
use terab.Table.Laws.{
  select-insert, select-update_where, first_changed, none_changed, same_row, find_where-Has,
}
use terab.Drive.Schema.{Text, DriveDb, Folder, File, FolderItem, FolderChildren}
use terab.Drive.Outside.{Cache, CacheKey, IsLawful}
use terab.Drive.FolderRepository
use terab.Drive.FolderRepository.{
  is_child, is_live, lies_in, with_name, with_parent, new_folder, to_folder_item, find_children,
  find_root_children, find_by_id_and_user, get_depth,
}
use terab.Drive.FolderService.{listing, cache_key, rename, create, max_folder_depth}

-- No row of the folder is in the trash. The listing of a folder in the trash is never served.
abbrev pub IsShown : Option ℕ → List Folder → Type 0
IsShown none t = Unit
IsShown (some f) t = All (λ (r : Folder). r.id ≡ f → r.soft_deleted_at ≡ none) t

abbrev pub children_of : ℕ → Option ℕ → List Folder → List Folder
children_of user folder t = select_where (is_child user folder) t

module _ {X : Type 0} (cache : Cache X) where
  -- Whatever is cached for a folder outside the trash is its listing.
  abbrev pub IsCoherent : DriveDb → X → Type 0
  IsCoherent d x =
      (user : ℕ) (folder : Option ℕ) (v : FolderChildren)
      → cache.get (cache_key user folder) x ≡ some v
      → IsShown folder d.folders
      → v ≡ listing user folder d

pub lies_in-eq : (parent folder : Option ℕ) → lies_in parent folder ≡ true → folder ≡ parent
lies_in-eq none none e = refl
lies_in-eq none (some f) e = cc
lies_in-eq (some p) none e = cc
lies_in-eq (some p) (some f) e = ground arith

-- A row is only a child of the folder that it names, for the user that owns it.
is_child-eq :
    (user : ℕ) (folder : Option ℕ) (r : Folder)
    → is_child user folder r ≡ true
    → (user ≡ r.user_id) × (folder ≡ r.parent_id)
is_child-eq user folder r e = (ground arith, lies_in-eq r.parent_id folder (ground arith))

-- The listing depends on the children and the files alone.
pub listing-congr :
    (user : ℕ) (folder : Option ℕ) (t t' : List Folder) (d : DriveDb)
    → children_of user folder t' ≡ children_of user folder t
    → listing user folder (record d { folders = t' })
      ≡ listing user folder (record d { folders = t })
unfolding find_children find_root_children
listing-congr user none t t' d e = rw e
listing-congr user (some f) t t' d e = rw e

unseen :
    (v : ℕ) (f : Option ℕ) (r : Folder)
    → ¬ ((v ≡ r.user_id) × (f ≡ r.parent_id))
    → is_child v f r ≡ false
unseen v f r apart = elim (Bool-cases (is_child v f r)) [
  | inl seen ↦ absurd (apart (is_child-eq v f r seen))
  | inr e ↦ e
]

module _ {X : Type 0} (cache : Cache X) (lawful : IsLawful cache) where
  pub get-del_lem :
      (k j : CacheKey) (v : FolderChildren) (x : X)
      → cache.get j (cache.del k x) ≡ some v
      → (cache.get j x ≡ some v) × (j ≢ k)
  get-del_lem k j v x e = (
    lawful.get-del k j v x e,
    λ same. cc (lawful.get-del_self k x, ap (λ i. cache.get i (cache.del k x)) same),
  )

  -- A change of the folders is safe where it is seen under stale keys only, and those are deleted.
  pub refresh-IsCoherent :
      (IsStale : ℕ → Option ℕ → Type 0) (d : DriveDb) (t' : List Folder) (x x' : X)
      → ((u : ℕ) (f : Option ℕ) (v : FolderChildren)
          → cache.get (cache_key u f) x' ≡ some v
          → (cache.get (cache_key u f) x ≡ some v) × (¬ IsStale u f))
      → ((u : ℕ) (f : Option ℕ) → ¬ IsStale u f → children_of u f t' ≡ children_of u f d.folders)
      → ((f : Option ℕ) → IsShown f t' → IsShown f d.folders)
      → IsCoherent cache d x
      → IsCoherent cache (record d { folders = t' }) x'
  refresh-IsCoherent IsStale d t' x x' gone same shown c u f v cached visible =
      let (before, fresh) = gone u f v cached in
      c u f v before (shown f visible) ∙ sym (listing-congr u f d.folders t' d (same u f fresh))

  -- The row that `create` writes is seen under its parent's key only.
  new_folder-IsCoherent :
      (row : Folder) (d : DriveDb) (x : X)
      → IsCoherent cache d x
      → IsCoherent cache
          (record d { folders = insert row d.folders })
          (cache.del (cache_key row.user_id row.parent_id) x)
  new_folder-IsCoherent row d x =
      refresh-IsCoherent (λ u f. (u ≡ row.user_id) × (f ≡ row.parent_id)) d (insert row d.folders) x
        (cache.del (cache_key row.user_id row.parent_id) x)
        (λ u f v cached.
          let (before, other) =
            get-del_lem (cache_key row.user_id row.parent_id) (cache_key u f) v x cached in
          (before, λ (p, q). other (cc)))
        (λ u f fresh. select-insert (is_child u f) row d.folders (unseen u f row fresh)) shown
    where
      shown : (f : Option ℕ) → IsShown f (insert row d.folders) → IsShown f d.folders
      shown none s = tt
      shown (some f) s =
          All-append_left (λ (r : Folder). r.id ≡ f → r.soft_deleted_at ≡ none) d.folders (row ∷ [])
            s

  -- With a lawful cache, `FolderService.create` keeps the cache coherent, whether it succeeds or
  -- throws.
  pub create-IsCoherent :
      (id now user : ℕ) (name : Text) (parent : Option ℕ) (w : World DriveDb X)
      → IsCoherent cache w.db w.ext
      → let w' = (create cache id now user name parent w).1 in IsCoherent cache w'.db w'.ext
  unfolding create
  create-IsCoherent id now user name none w c =
      new_folder-IsCoherent (new_folder id now user name none) w.db w.ext c
  create-IsCoherent id now user name (some p) w c =
      elim (Option-cases (find_by_id_and_user p user w.db.folders)) [
        | inl e ↦ rw e c
        | inr (target, e) ↦ elim (Option-cases (get_depth p w.db.folders)) [
          | inl endless ↦ rw (e, endless) c
          | inr (depth, d) ↦ elim (Bool-cases (leb max_folder_depth depth)) [
            | inl deep ↦ rw (e, d, deep) c
            | inr fits ↦
                rw (e, d, fits)
                  (new_folder-IsCoherent (new_folder id now user name (some p)) w.db w.ext c)
          ]
        ]
      ]

  -- A change of the rows that `is_live` finds is seen under the keys of the folders in which the
  -- row lies before and after.
  module _ (id user : ℕ) (g : Folder → Folder)
      (same_user : (r : Folder) → (g r).user_id ≡ r.user_id)
      (same_id : (r : Folder) → (g r).id ≡ r.id)
      (same_mark : (r : Folder) → (g r).soft_deleted_at ≡ r.soft_deleted_at) where
    abbrev pub IsSeen : Folder → ℕ → Option ℕ → Type 0
    IsSeen row v f = (v ≡ user) × ((f ≡ row.parent_id) ⊎ (f ≡ (g row).parent_id))

    pub update-children :
        (t : List Folder) (row : Folder)
        → UniqueIds (λ (r : Folder). r.id) t
        → Has row t
        → is_live id user row ≡ true
        → (v : ℕ) (f : Option ℕ) → ¬ IsSeen row v f
        → children_of v f (update_where (is_live id user) g t) ≡ children_of v f t
    update-children t row unique h live v f fresh =
        select-update_where (is_child v f) (is_live id user) g t (λ a k fits.
          let one : a ≡ row = same_row (λ (r : Folder). r.id) t a row unique k h (ground arith) in
          (
            rw one (unseen v f row (λ (p, q). fresh (ground arith, inl q))),
            rw one (unseen v f (g row) (λ (p, q). fresh (ground (arith, same_user row), inr q))),
          ))

    pub IsShown-before :
        (t : List Folder) (f : Option ℕ)
        → IsShown f (update_where (is_live id user) g t)
        → IsShown f t
    IsShown-before t none s = tt
    IsShown-before [] (some f) s = tt
    IsShown-before (r ∷ t) (some f) s = (
      elim (Bool-cases (is_live id user r)) [
        | inl fits ↦ λ e. ground (arith, same_id r, same_mark r, s.0)
        | inr misses ↦ λ e. ground (arith, s.0)
      ],
      IsShown-before t (some f) s.1,
    )

  -- With a lawful cache and unique folder ids, `FolderService.rename` keeps the cache coherent,
  -- whether it succeeds or throws.
  pub rename-IsCoherent :
      (now user id : ℕ) (name : Text) (w : World DriveDb X)
      → UniqueIds (λ (r : Folder). r.id) w.db.folders
      → IsCoherent cache w.db w.ext
      → let w' = (rename cache now user id name w).1 in IsCoherent cache w'.db w'.ext
  unfolding rename FolderRepository.rename
  rename-IsCoherent now user id name w unique c =
      elim (Option-cases
        (first (map (with_name name now) (select_where (is_live id user) w.db.folders)))) [
          | inl gone ↦
              rw (gone, none_changed (is_live id user) (with_name name now) w.db.folders gone) c
          | inr (row, e) ↦
              let (r, h, live, same) =
                first_changed (is_live id user) (with_name name now) w.db.folders row e in
              rw (e, same)
                (refresh-IsCoherent
                  (IsSeen id user (with_name name now) (λ r. refl) (λ r. refl) (λ r. refl) r) w.db
                  (update_where (is_live id user) (with_name name now) w.db.folders) w.ext
                  (cache.del (cache_key user r.parent_id) w.ext)
                  (λ u f v cached.
                    let (before, other) =
                      get-del_lem (cache_key user r.parent_id) (cache_key u f) v w.ext cached in
                    (before, λ (p, q). other (ground arith)))
                  (update-children id user (with_name name now) (λ r. refl) (λ r. refl) (λ r. refl)
                    w.db.folders r unique h live)
                  (IsShown-before id user (with_name name now) (λ r. refl) (λ r. refl) (λ r. refl)
                    w.db.folders)
                  c)
        ]
