-- ===== src/Drive/FileService/Coherence.antt =====
-- The methods of the file service keep the cached listings in agreement with the tables.
use terab.Base.{
  ℕ, ◌≡◌, refl, sym, ◌∙◌, true, false, Option, none, some, List, arith, inl, inr, ◌⊎◌, Has,
  Option-cases, Bool-cases, map,
}
use terab.Action.{World}
use terab.Table.{UniqueIds, select_where, update_where, find_where, first}
use terab.Table.Laws.{
  select-update_where, first_changed, none_changed, same_row, find_where-Has, exists_where_of_Has,
}
use terab.Drive.Schema.{Text, DriveDb, File}
use terab.Drive.Outside.{Cache, IsLawful, ObjectStore}
use terab.Drive.FolderRepository.{is_file_in, find_root_files, find_files_by_folder}
use terab.Drive.FolderService.{listing, cache_key}
use terab.Drive.FolderService.Coherence.{IsCoherent, lies_in-eq, get-del_lem}
use terab.Drive.FileRepository
use terab.Drive.FileRepository.{is_live_file, with_name, with_folder, with_mark, soft_delete}
use terab.Drive.FileService.{rename, move, remove}
use terab.Drive.FileService.Isolation.{checked, FileCall, renames, moves, copies, removes, perform}

abbrev files_in : ℕ → Option ℕ → List File → List File
files_in user folder t = select_where (is_file_in user folder) t

-- The listing depends on the folders and the files in the folder alone.
listing-files :
    (user : ℕ) (folder : Option ℕ) (t t' : List File) (d : DriveDb)
    → files_in user folder t' ≡ files_in user folder t
    → listing user folder (record d { files = t' }) ≡ listing user folder (record d { files = t })
unfolding find_root_files find_files_by_folder
listing-files user none t t' d e = rw e
listing-files user (some f) t t' d e = rw e

unseen :
    (v : ℕ) (f : Option ℕ) (r : File)
    → ¬ ((v ≡ r.user_id) × (f ≡ r.folder_id))
    → is_file_in v f r ≡ false
unseen v f r apart = elim (Bool-cases (is_file_in v f r)) [
  | inl seen ↦ absurd (apart (ground arith, lies_in-eq r.folder_id f (ground arith)))
  | inr e ↦ e
]

module _ {X : Type 0} (cache : Cache X) (lawful : IsLawful cache) where
  -- A change of the files is safe where it is seen under stale keys only, and those are deleted.
  refresh-IsCoherent :
      (IsStale : ℕ → Option ℕ → Type 0) (d : DriveDb) (t' : List File) (x x' : X)
      → ((u : ℕ) (f : Option ℕ)
          → (v : _) → cache.get (cache_key u f) x' ≡ some v
          → (cache.get (cache_key u f) x ≡ some v) × (¬ IsStale u f))
      → ((u : ℕ) (f : Option ℕ) → ¬ IsStale u f → files_in u f t' ≡ files_in u f d.files)
      → IsCoherent cache d x
      → IsCoherent cache (record d { files = t' }) x'
  refresh-IsCoherent IsStale d t' x x' gone same c u f v cached visible =
      let (before, fresh) = gone u f v cached in
      c u f v before visible ∙ sym (listing-files u f d.files t' d (same u f fresh))

  -- A change of one live file is seen under the keys of the folders in which it lies before and after.
  module _ (id user : ℕ) (g : File → File)
      (same_user : (r : File) → (g r).user_id ≡ r.user_id) where
    changed-IsCoherent :
        (r : File) (d : DriveDb) (x x' : X)
        → UniqueIds (λ (s : File). s.id) d.files
        → Has r d.files
        → is_live_file id user r ≡ true
        → ((u : ℕ) (f : Option ℕ) (v : _)
            → cache.get (cache_key u f) x' ≡ some v
            → (cache.get (cache_key u f) x ≡ some v)
              × (¬ ((u ≡ user) × ((f ≡ r.folder_id) ⊎ (f ≡ (g r).folder_id)))))
        → IsCoherent cache d x
        → IsCoherent cache (record d { files = update_where (is_live_file id user) g d.files }) x'
    changed-IsCoherent r d x x' unique h live gone =
        refresh-IsCoherent (λ u f. (u ≡ user) × ((f ≡ r.folder_id) ⊎ (f ≡ (g r).folder_id))) d
          (update_where (is_live_file id user) g d.files) x x' gone
          (λ v f fresh.
            select-update_where (is_file_in v f) (is_live_file id user) g d.files (λ a k fits.
              let one : a ≡ r =
                same_row (λ (s : File). s.id) d.files a r unique k h (ground arith) in
              (
                rw one (unseen v f r (λ (p, q). fresh (ground arith, inl q))),
                rw one (unseen v f (g r) (λ (p, q). fresh (ground (arith, same_user r), inr q))),
              )))

  -- One deletion is enough for a change that leaves the file in its folder.
  in_place-IsCoherent :
      (id user : ℕ) (g : File → File) (r : File) (d : DriveDb) (x : X)
      → ((s : File) → (g s).user_id ≡ s.user_id)
      → ((s : File) → (g s).folder_id ≡ s.folder_id)
      → UniqueIds (λ (s : File). s.id) d.files
      → Has r d.files
      → is_live_file id user r ≡ true
      → IsCoherent cache d x
      → IsCoherent cache
          (record d { files = update_where (is_live_file id user) g d.files })
          (cache.del (cache_key user r.folder_id) x)
  in_place-IsCoherent id user g r d x same_user same_folder unique h live =
      changed-IsCoherent id user g same_user r d x (cache.del (cache_key user r.folder_id) x) unique
        h live
        (λ u f v cached.
          let (before, other) =
            get-del_lem cache lawful (cache_key user r.folder_id) (cache_key u f) v x cached in
          (before, λ (p, q). other (ground (arith, same_folder r))))

  module _ (minio : ObjectStore X) where
    -- With a lawful cache and unique file ids, `FileService.rename` keeps the cache coherent,
    -- whether it succeeds or throws.
    pub rename-file-IsCoherent :
        (now user id : ℕ) (name : Text) (w : World DriveDb X)
        → UniqueIds (λ (r : File). r.id) w.db.files
        → IsCoherent cache w.db w.ext
        → let w' = (rename cache minio now user id name w).1 in IsCoherent cache w'.db w'.ext
    unfolding rename FileRepository.rename
    rename-file-IsCoherent now user id name w unique c =
        elim (Option-cases
          (first (map (with_name name now) (select_where (is_live_file id user) w.db.files)))) [
            | inl gone ↦
                rw (gone, none_changed (is_live_file id user) (with_name name now) w.db.files gone)
                  c
            | inr (row, e) ↦
                let (r, h, live, same) =
                  first_changed (is_live_file id user) (with_name name now) w.db.files row e in
                rw (e, same)
                  (in_place-IsCoherent id user (with_name name now) r w.db w.ext (λ s. refl)
                    (λ s. refl) unique h live c)
          ]

    -- The statement of `move` and what follows it.
    moved-IsCoherent :
        (now user id : ℕ) (folder : Option ℕ) (r : File) (d : DriveDb) (x : X)
        → UniqueIds (λ (s : File). s.id) d.files
        → FileRepository.find_by_id_and_user id user d.files ≡ some r
        → IsCoherent cache d x
        → IsCoherent cache
            (record d { files = (FileRepository.move id user folder now d.files).1 })
            (cache.del (cache_key user folder) (cache.del (cache_key user r.folder_id) x))
    unfolding FileRepository.move FileRepository.find_by_id_and_user
    moved-IsCoherent now user id folder r d x unique found =
        let (h, live) = find_where-Has (is_live_file id user) d.files r found in
        changed-IsCoherent id user (with_folder folder now) (λ s. refl) r d x
          (cache.del (cache_key user folder) (cache.del (cache_key user r.folder_id) x)) unique h
          live
          (λ u f v cached.
            let (middle, other) =
              get-del_lem cache lawful (cache_key user folder) (cache_key u f) v
                (cache.del (cache_key user r.folder_id) x) cached in
            let (before, other') =
              get-del_lem cache lawful (cache_key user r.folder_id) (cache_key u f) v x middle in
            (before, λ (p, q). ground arith))

    unmoved :
        (now user id : ℕ) (folder : Option ℕ) (t : List File)
        → (FileRepository.move id user folder now t).0 ≡ none
        → (FileRepository.move id user folder now t).1 ≡ t
    unfolding FileRepository.move
    unmoved now user id folder t e =
        none_changed (is_live_file id user) (with_folder folder now) t e

    -- With a lawful cache and unique file ids, `FileService.move` keeps the cache coherent,
    -- whether it succeeds or throws.
    pub move-file-IsCoherent :
        (now user id : ℕ) (folder : Option ℕ) (w : World DriveDb X)
        → UniqueIds (λ (r : File). r.id) w.db.files
        → IsCoherent cache w.db w.ext
        → let w' = (move cache minio now user id folder w).1 in IsCoherent cache w'.db w'.ext
    unfolding move
    move-file-IsCoherent now user id folder w unique c =
        elim (Option-cases (FileRepository.find_by_id_and_user id user w.db.files)) [
          | inl missing ↦ rw missing c
          | inr (r, found) ↦ elim (checked cache minio user folder w) [
            | inl (e, refused) ↦ rw (found, refused) c
            | inr allowed ↦
                elim (Option-cases (FileRepository.move id user folder now w.db.files).0) [
                  | inl gone ↦
                      rw (found, allowed, gone, unmoved now user id folder w.db.files gone) c
                  | inr (row, m) ↦
                      rw (found, allowed, m)
                        (moved-IsCoherent now user id folder r w.db w.ext unique found c)
                ]
          ]
        ]

    -- With a lawful cache and unique file ids, `FileService.remove` keeps the cache coherent,
    -- whether it succeeds or throws.
    pub remove-file-IsCoherent :
        (now user id : ℕ) (w : World DriveDb X)
        → UniqueIds (λ (r : File). r.id) w.db.files
        → IsCoherent cache w.db w.ext
        → let w' = (remove cache minio now user id w).1 in IsCoherent cache w'.db w'.ext
    unfolding remove soft_delete FileRepository.find_by_id_and_user
    remove-file-IsCoherent now user id w unique c =
        elim (Option-cases (find_where (is_live_file id user) w.db.files)) [
          | inl missing ↦ rw missing c
          | inr (r, found) ↦
              let (h, live) = find_where-Has (is_live_file id user) w.db.files r found in
              rw (found, exists_where_of_Has (is_live_file id user) w.db.files r h live)
                (in_place-IsCoherent id user (with_mark now) r w.db w.ext (λ s. refl) (λ s. refl)
                  unique h live c)
        ]

abbrev pub IsCopy : FileCall → Type 0
IsCopy (renames now id name) = ⊥
IsCopy (moves now id folder) = ⊥
IsCopy (copies refused id uuid now source folder) = Unit
IsCopy (removes now id) = ⊥

module _ {X : Type 0} (cache : Cache X) (lawful : IsLawful cache) (minio : ObjectStore X) where
  -- With a lawful cache and unique file ids, each of `rename`, `move` and `remove` of the file
  -- service keeps every cached listing of a folder outside the trash equal to what the tables say,
  -- whether it succeeds or throws.
  pub perform-file-IsCoherent :
      (user : ℕ) (call : FileCall) (w : World DriveDb X)
      → ¬ IsCopy call
      → UniqueIds (λ (r : File). r.id) w.db.files
      → IsCoherent cache w.db w.ext
      → let w' = perform cache minio user call w in IsCoherent cache w'.db w'.ext
  perform-file-IsCoherent user (renames now id name) w kept unique c =
      rename-file-IsCoherent cache lawful minio now user id name w unique c
  perform-file-IsCoherent user (moves now id folder) w kept unique c =
      move-file-IsCoherent cache lawful minio now user id folder w unique c
  perform-file-IsCoherent user (copies refused id uuid now source folder) w kept unique c =
      absurd (kept tt)
  perform-file-IsCoherent user (removes now id) w kept unique c =
      remove-file-IsCoherent cache lawful minio now user id w unique c
