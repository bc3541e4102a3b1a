-- ===== src/Drive/FolderService/Removal.antt =====
-- What `remove` puts in the trash.
use terab.Base.{ℕ, ◌≡◌, ◌↔◌, refl, Bool, true, Option, some, Has}
use terab.Action.{World, ok}
use terab.Table.{UniqueIds, update_where, is_in}
use terab.Drive.Schema.{DriveDb, Folder, File}
use terab.Drive.Outside.{Cache}
use terab.Drive.FolderRepository.{
  find_by_id_and_user, ids_of, in_folders, mark_folder, mark_file, soft_delete_cascade,
}
use terab.Drive.FolderService.{remove, cache_key}
use terab.Drive.Tree.{IsForest, subtree_ends}
use terab.Drive.Tree.Subtree.{IsUnder, is_in-subtree_iff, in_folders-subtree_iff}

-- Of the tables before and after: the folders under `top` and the files in them, and no other rows,
-- have `at` in their trash column, and nothing else has changed.
pub record IsMarked (top user : ℕ) (at : Option ℕ) (before after : DriveDb) : Type 0 where
  pub chosen : Folder → Bool
  pub chosen_iff :
      (r : Folder) → Has r before.folders → (chosen r ≡ true) ↔ IsUnder before.folders top user r
  pub folders : after.folders ≡ update_where chosen (mark_folder at) before.folders
  pub held : File → Bool
  pub held_iff :
      (r : File)
      → (held r ≡ true)
        ↔ ((s : Folder) × IsUnder before.folders top user s × (r.folder_id ≡ some s.id))
  pub files : after.files ≡ update_where held (mark_file at) before.files
  pub upload_sessions : after.upload_sessions ≡ before.upload_sessions

module _ {X : Type 0} (cache : Cache X) where
  -- In a forest with unique ids, `FolderService.remove` of a live folder of the user succeeds,
  -- puts exactly the folders under it and the files in those in the trash, changes nothing else,
  -- and deletes the cached listing of its parent.
  pub remove-IsMarked :
      (now user id : ℕ) (folder : Folder) (w : World DriveDb X)
      → IsForest w.db.folders
      → UniqueIds (λ (r : Folder). r.id) w.db.folders
      → find_by_id_and_user id user w.db.folders ≡ some folder
      → let (r, w') = remove cache now user id w in
        (r ≡ ok tt)
        × IsMarked id user (some now) w.db w'.db
        × (w'.ext ≡ cache.del (cache_key user folder.parent_id) w.ext)
  unfolding remove soft_delete_cascade
  remove-IsMarked now user id folder w f unique found =
      let (rows, ended) = subtree_ends w.db.folders f id user in
      rw (found, ended)
        (
          refl,
          record {
            chosen = λ r. is_in r.id (ids_of rows);
            chosen_iff = is_in-subtree_iff w.db.folders id user rows ended unique;
            folders = refl;
            held = λ r. in_folders (ids_of rows) r.folder_id;
            held_iff = λ r. in_folders-subtree_iff w.db.folders id user rows ended r.folder_id;
            files = refl;
            upload_sessions = refl;
          },
          refl,
        )
