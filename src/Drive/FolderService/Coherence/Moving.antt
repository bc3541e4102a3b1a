-- ===== src/Drive/FolderService/Coherence/Moving.antt =====
-- `move` and the two reads keep the cached listings in agreement with the tables.
use terab.Base.{
  ℕ, ◌≡◌, refl, sym, ap, ◌∙◌, true, false, Option, none, some, List, arith, inl, inr, Has,
  Option-cases,
}
use terab.Action.{World, ok}
use terab.Table.{UniqueIds, update_where}
use terab.Table.Laws.{none_changed, find_where-Has}
use terab.Drive.Schema.{DriveDb, Folder}
use terab.Drive.Outside.{Cache, CacheKey, IsLawful}
use terab.Drive.FolderRepository
use terab.Drive.FolderRepository.{is_live, with_parent, find_by_id_and_user, is_descendant}
use terab.Drive.FolderService.{listing, cache_key, move, get_root}
use terab.Drive.FolderService.Coherence.{
  IsCoherent, IsSeen, get-del_lem, refresh-IsCoherent, update-children, IsShown-before,
}

module _ {X : Type 0} (cache : Cache X) (lawful : IsLawful cache) where
  -- The row that `move` writes is seen under the keys of its old and its new parent.
  moved-IsCoherent :
      (now user id : ℕ) (parent : Option ℕ) (r : Folder) (d : DriveDb) (x : X)
      → UniqueIds (λ (s : Folder). s.id) d.folders
      → Has r d.folders
      → is_live id user r ≡ true
      → IsCoherent cache d x
      → IsCoherent cache
          (record d { folders = update_where (is_live id user) (with_parent parent now) d.folders })
          (cache.del (cache_key user parent) (cache.del (cache_key user r.parent_id) x))
  moved-IsCoherent now user id parent r d x unique h live =
      refresh-IsCoherent cache lawful
        (IsSeen cache lawful id user (with_parent parent now) (λ s. refl) (λ s. refl) (λ s. refl) r)
        d (update_where (is_live id user) (with_parent parent now) d.folders) x
        (cache.del (cache_key user parent) (cache.del (cache_key user r.parent_id) x))
        (λ u f v cached.
          let (middle, other) =
            get-del_lem cache lawful (cache_key user parent) (cache_key u f) v
              (cache.del (cache_key user r.parent_id) x) cached in
          let (before, other') =
            get-del_lem cache lawful (cache_key user r.parent_id) (cache_key u f) v x middle in
          (before, λ (p, q). ground (arith)))
        (update-children cache lawful id user (with_parent parent now) (λ s. refl) (λ s. refl)
          (λ s. refl) d.folders r unique h live)
        (IsShown-before cache lawful id user (with_parent parent now) (λ s. refl) (λ s. refl)
          (λ s. refl) d.folders)

  -- The statement of `move` and what follows it.
  finish-IsCoherent :
      (now user id : ℕ) (parent : Option ℕ) (w : World DriveDb X)
      → UniqueIds (λ (r : Folder). r.id) w.db.folders
      → IsCoherent cache w.db w.ext
      → (folder : Folder) → find_by_id_and_user id user w.db.folders ≡ some folder
      → (row : Folder) → (FolderRepository.move id user parent now w.db.folders).0 ≡ some row
      → IsCoherent cache
          (record w.db { folders = (FolderRepository.move id user parent now w.db.folders).1 })
          (cache.del (cache_key user parent) (cache.del (cache_key user folder.parent_id) w.ext))
  unfolding FolderRepository.move find_by_id_and_user
  finish-IsCoherent now user id parent w unique c folder found row e =
      let (h, live) = find_where-Has (is_live id user) w.db.folders folder found in
      moved-IsCoherent now user id parent folder w.db w.ext unique h live c

  unmoved :
      (now user id : ℕ) (parent : Option ℕ) (t : List Folder)
      → (FolderRepository.move id user parent now t).0 ≡ none
      → (FolderRepository.move id user parent now t).1 ≡ t
  unfolding FolderRepository.move
  unmoved now user id parent t e = none_changed (is_live id user) (with_parent parent now) t e

  -- With a lawful cache and unique folder ids, `FolderService.move` keeps every cached listing of
  -- a folder outside the trash equal to what the tables say, whether it succeeds or throws.
  pub move-IsCoherent :
      (now user id : ℕ) (parent : Option ℕ) (w : World DriveDb X)
      → UniqueIds (λ (r : Folder). r.id) w.db.folders
      → IsCoherent cache w.db w.ext
      → let w' = (move cache now user id parent w).1 in IsCoherent cache w'.db w'.ext
  unfolding move
  move-IsCoherent now user id none w unique c =
      elim (Option-cases (find_by_id_and_user id user w.db.folders)) [
        | inl e ↦ rw e c
        | inr (folder, e) ↦
            elim (Option-cases (FolderRepository.move id user none now w.db.folders).0) [
              | inl gone ↦ rw (e, gone, unmoved now user id none w.db.folders gone) c
              | inr (row, m) ↦
                  rw (e, m) (finish-IsCoherent now user id none w unique c folder e row m)
            ]
      ]
  move-IsCoherent now user id (some p) w unique c =
      elim (Option-cases (find_by_id_and_user id user w.db.folders)) [
        | inl e ↦ rw e c
        | inr (folder, e) ↦ elim (Option-cases (find_by_id_and_user p user w.db.folders)) [
          | inl e' ↦ rw (e, e') c
          | inr (target, e') ↦ elim (Option-cases (is_descendant p id w.db.folders)) [
            | inl endless ↦ rw (e, e', endless) c
            | inr (true, below) ↦ rw (e, e', below) c
            | inr (false, apart) ↦
                elim (Option-cases (FolderRepository.move id user (some p) now w.db.folders).0) [
                  | inl gone ↦
                      rw (e, e', apart, gone, unmoved now user id (some p) w.db.folders gone) c
                  | inr (row, m) ↦
                      rw (e, e', apart, m)
                        (finish-IsCoherent now user id (some p) w unique c folder e row m)
                ]
          ]
        ]
      ]

  -- A listing that is read and kept is coherent.
  pub kept-IsCoherent :
      (user : ℕ) (folder : Option ℕ) (d : DriveDb) (x : X)
      → IsCoherent cache d x
      → IsCoherent cache d (cache.set (cache_key user folder) (listing user folder d) x)
  kept-IsCoherent user folder d x c u f v cached visible =
      elim (lawful.get-set (cache_key user folder) (cache_key u f) (listing user folder d) v x
        cached) [
          | inl (same, e) ↦ e ∙ ap (λ (k : CacheKey). listing k.user k.folder d) (sym same)
          | inr before ↦ c u f v before visible
        ]

  -- With a lawful and coherent cache, `FolderService.getRoot` answers the listing of the tables,
  -- cached or not, changes no table, and leaves the cache coherent.
  pub get_root-eq-listing :
      (user : ℕ) (w : World DriveDb X)
      → IsCoherent cache w.db w.ext
      → let (r, w') = get_root cache user w in
        (r ≡ ok (listing user none w.db)) × (w'.db ≡ w.db) × IsCoherent cache w'.db w'.ext
  unfolding get_root
  get_root-eq-listing user w c = elim (Option-cases (cache.get (cache_key user none) w.ext)) [
    | inl missing ↦ rw missing (refl, refl, kept-IsCoherent user none w.db w.ext c)
    | inr (v, hit) ↦ rw hit (ap ok (c user none v hit tt), refl, c)
  ]
