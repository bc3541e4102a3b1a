-- ===== src/Drive/FileService/Isolation.antt =====
-- What the file service does to the files of a user is seen by that user alone.
use terab.Base.{
  ℕ, ◌≡◌, ◌≢◌, ◌⊎◌, refl, Option, none, some, List, arith, inl, inr, ◌==◌, Option-cases, Bool-cases,
}
use terab.ErrorCode.{Error, api, folder_not_found}
use terab.Drive.FolderRepository
use terab.Drive.FolderService.{assert_belongs_to_user, invalidate}
use terab.Action.{World, ok, err, pure, ◌>>=◌, ◌>>◌}
use terab.Action.Laws.{Result-cases}
use terab.Table.{select_where, insert, update_where, exists_where}
use terab.Table.Laws.{select-insert, select-update_where}
use terab.Drive.Schema.{Text, DriveDb, File}
use terab.Drive.Outside.{Cache, ObjectStore}
use terab.Drive.FileRepository
use terab.Drive.FileRepository.{
  is_live_file, with_name, with_folder, with_mark, soft_delete, to_file_item,
}
use terab.Drive.FileService.{rename, move, copy, remove, copied, check_folder, insert_or_clean}

-- The calls of the file service that write, with what they draw.
pub data FileCall : Type 0 where
  renames : (now id : ℕ) → Text → FileCall
  moves : (now id : ℕ) → Option ℕ → FileCall
  copies : (refused : Option Error) (id uuid now source : ℕ) → Option ℕ → FileCall
  removes : (now id : ℕ) → FileCall

abbrev pub files_of : ℕ → List File → List File
files_of user t = select_where (λ (r : File). r.user_id == user) t

-- Of the tables before and after: all that differs is files of the one user.
pub record IsWithin (user : ℕ) (before after : DriveDb) : Type 0 where
  pub others : (v : ℕ) → v ≢ user → files_of v after.files ≡ files_of v before.files
  pub folders : after.folders ≡ before.folders
  pub upload_sessions : after.upload_sessions ≡ before.upload_sessions

IsWithin-same : (user : ℕ) (d : DriveDb) → IsWithin user d d
IsWithin-same user d = record { others = λ v other. refl; folders = refl; upload_sessions = refl }

-- A change of live files of the user.
IsWithin-update_where :
    (id user : ℕ) (g : File → File) (d : DriveDb)
    → ((r : File) → (g r).user_id ≡ r.user_id)
    → IsWithin user d (record d { files = update_where (is_live_file id user) g d.files })
IsWithin-update_where id user g d same = record {
  others = λ v other.
      select-update_where (λ (r : File). r.user_id == v) (is_live_file id user) g d.files
        (λ a h fits. (ground arith, ground (arith, same a)));
  folders = refl;
  upload_sessions = refl;
}

IsWithin-insert :
    (row : File) (d : DriveDb) → IsWithin row.user_id d (record d { files = insert row d.files })
IsWithin-insert row d = record {
  others = λ v other. select-insert (λ (r : File). r.user_id == v) row d.files (ground arith);
  folders = refl;
  upload_sessions = refl;
}

module _ {X : Type 0} (cache : Cache X) (minio : ObjectStore X) where
  -- A check of the target folder answers and changes nothing.
  pub checked :
      (user : ℕ) (folder : Option ℕ) (w : World DriveDb X)
      → ((e : Error) × (check_folder cache minio user folder w ≡ (err e, w)))
        ⊎ (check_folder cache minio user folder w ≡ (ok tt, w))
  unfolding assert_belongs_to_user
  checked user none w = inr refl
  checked user (some f) w =
      elim (Option-cases (FolderRepository.find_by_id_and_user f user w.db.folders)) [
        | inl missing ↦ inl (api folder_not_found, rw missing)
        | inr (row, there) ↦ inr (rw there)
      ]

  -- A call, whatever it answers.
  abbrev pub perform : ℕ → FileCall → World DriveDb X → World DriveDb X
  perform user (renames now id name) w = (rename cache minio now user id name w).1
  perform user (moves now id folder) w = (move cache minio now user id folder w).1
  perform user (copies refused id uuid now source folder) w =
      (copy cache minio refused id uuid now user source folder w).1
  perform user (removes now id) w = (remove cache minio now user id w).1

  rename-IsWithin :
      (now user id : ℕ) (name : Text) (w : World DriveDb X)
      → IsWithin user w.db (rename cache minio now user id name w).1.db
  unfolding rename FileRepository.rename
  rename-IsWithin now user id name w =
      elim (Option-cases (FileRepository.rename id user name now w.db.files).0) [
        | inl gone ↦ rw gone (IsWithin-update_where id user (with_name name now) w.db (λ r. refl))
        | inr (row, e) ↦ rw e (IsWithin-update_where id user (with_name name now) w.db (λ r. refl))
      ]

  move-IsWithin :
      (now user id : ℕ) (folder : Option ℕ) (w : World DriveDb X)
      → IsWithin user w.db (move cache minio now user id folder w).1.db
  unfolding move FileRepository.move
  move-IsWithin now user id folder w =
      elim (Option-cases (FileRepository.find_by_id_and_user id user w.db.files)) [
        | inl missing ↦ rw missing (IsWithin-same user w.db)
        | inr (r, found) ↦ elim (checked user folder w) [
          | inl (e, refused) ↦ rw (found, refused) (IsWithin-same user w.db)
          | inr allowed ↦
              elim (Option-cases (FileRepository.move id user folder now w.db.files).0) [
                | inl gone ↦
                    rw (found, allowed, gone)
                      (IsWithin-update_where id user (with_folder folder now) w.db (λ s. refl))
                | inr (row, m) ↦
                    rw (found, allowed, m)
                      (IsWithin-update_where id user (with_folder folder now) w.db (λ s. refl))
              ]
        ]
      ]

  remove-IsWithin :
      (now user id : ℕ) (w : World DriveDb X)
      → IsWithin user w.db (remove cache minio now user id w).1.db
  unfolding remove soft_delete
  remove-IsWithin now user id w =
      elim (Option-cases (FileRepository.find_by_id_and_user id user w.db.files)) [
        | inl missing ↦ rw missing (IsWithin-same user w.db)
        | inr (r, found) ↦ elim (Bool-cases (exists_where (is_live_file id user) w.db.files)) [
          | inl there ↦
              rw (found, there) (IsWithin-update_where id user (with_mark now) w.db (λ s. refl))
          | inr gone ↦
              rw (found, gone) (IsWithin-update_where id user (with_mark now) w.db (λ s. refl))
        ]
      ]

  -- What follows the copy of the object.
  inserted :
      (refused : Option Error) (id uuid now user : ℕ) (folder : Option ℕ) (file : File)
      (w : World DriveDb X)
      → IsWithin user w.db
          ((insert_or_clean cache minio refused (copied cache minio id uuid now user folder file)
              >>= λ row. invalidate cache user folder >> pure (to_file_item row))
            w).1.db
  inserted none id uuid now user folder file w =
      IsWithin-insert (copied cache minio id uuid now user folder file) w.db
  inserted (some e) id uuid now user folder file w =
      elim (Result-cases (minio.remove_object (record { owner = user; uuid = uuid }) w.ext).0) [
        | inl (e', broken) ↦ rw broken (IsWithin-same user w.db)
        | inr (done, worked) ↦ rw worked (IsWithin-same user w.db)
      ]

  copy-IsWithin :
      (refused : Option Error) (id uuid now user source : ℕ) (folder : Option ℕ)
      (w : World DriveDb X)
      → IsWithin user w.db (copy cache minio refused id uuid now user source folder w).1.db
  unfolding copy
  copy-IsWithin refused id uuid now user source folder w =
      elim (Option-cases (FileRepository.find_by_id_and_user source user w.db.files)) [
        | inl missing ↦ rw missing (IsWithin-same user w.db)
        | inr (file, found) ↦ elim (checked user folder w) [
          | inl (e, denied) ↦ rw (found, denied) (IsWithin-same user w.db)
          | inr allowed ↦
              rw (found, allowed)
                (elim (Result-cases
                  (minio.copy_object file.minio_key (record { owner = user; uuid = uuid })
                    w.ext).0) [
                      | inl (e, broken) ↦ rw broken (IsWithin-same user w.db)
                      | inr (u, worked) ↦
                          rw worked (inserted refused id uuid now user folder file _)
                    ])
        ]
      ]

  -- Whatever call of `rename`, `move`, `copy` and `remove` the file service performs for a user,
  -- and however it ends, the files of other users, the folders and the uploads stay as they were.
  pub perform-IsWithin :
      (user : ℕ) (call : FileCall) (w : World DriveDb X)
      → IsWithin user w.db (perform user call w).db
  perform-IsWithin user (renames now id name) w = rename-IsWithin now user id name w
  perform-IsWithin user (moves now id folder) w = move-IsWithin now user id folder w
  perform-IsWithin user (copies refused id uuid now source folder) w =
      copy-IsWithin refused id uuid now user source folder w
  perform-IsWithin user (removes now id) w = remove-IsWithin now user id w
