-- ===== src/Drive/Trash/Deletion.antt =====
-- What the permanent delete of a folder removes.
use terab.Base.{
  ℕ, ◌≡◌, ◌↔◌, refl, Bool, true, false, some, List, [], ◌∷◌, map, ◌&&◌, ◌||◌, ◌==◌, inl, inr,
  Bool-cases, arith, Has, Option, if◌then◌else◌,
}
use terab.Action.{World, Result, ok, pure, external}
use terab.Table.{UniqueIds, delete_where, select_where, is_in}
use terab.Drive.Schema.{DriveDb, Folder, File, MinioKey, UploadSession}
use terab.Drive.Outside.{ObjectStore}
use terab.Drive.FolderRepository.{ids_of, in_folders}
use terab.Drive.Tree.{IsForest, subtree_ends}
use terab.Drive.Tree.Subtree.{IsUnder, below, is_in-subtree_iff, in_folders-subtree_iff}
use terab.Drive.Trash.{
  folder, is_parent_in_trash, find_deleted_folder, permanent_delete_folder_tree, permanent_delete,
  keys_in, drop_tree, is_empty,
}

-- A row that lies in a folder under `top`.
abbrev pub LiesUnder : DriveDb → ℕ → ℕ → Option ℕ → Type 0
LiesUnder d top user o = (s : Folder) × IsUnder d.folders top user s × (o ≡ some s.id)

-- Of the tables before and after: the folders under `top`, and the files and the uploads in them, are
-- gone, and no other rows. `keys` are the objects of the user's files among them.
pub record IsDropped (top user : ℕ) (before after : DriveDb) (keys : List MinioKey) : Type 0 where
  pub chosen : Folder → Bool
  pub chosen_iff :
      (r : Folder) → Has r before.folders → (chosen r ≡ true) ↔ IsUnder before.folders top user r
  pub folders : after.folders ≡ delete_where chosen before.folders
  pub held : Option ℕ → Bool
  pub held_iff : (o : Option ℕ) → (held o ≡ true) ↔ LiesUnder before top user o
  pub files : after.files ≡ delete_where (λ (r : File). held r.folder_id) before.files
  pub upload_sessions :
      after.upload_sessions
      ≡ delete_where (λ (r : UploadSession). held r.folder_id) before.upload_sessions
  pub objects :
      keys
      ≡ map
          (λ (r : File). r.minio_key)
          (select_where (λ (r : File). held r.folder_id && r.user_id == user) before.files)

-- The one call that removes the objects, if there are any.
abbrev pub purge : {X : Type 0} → ObjectStore X → List MinioKey → X → Result (Unit {0}) × X
purge minio [] x = (ok tt, x)
purge minio (k ∷ keys) x = minio.remove_objects (k ∷ keys) x

module _ {X : Type 0} (minio : ObjectStore X) where
  -- The end of the permanent delete.
  purge-eq :
      (keys : List MinioKey) (w : World DriveDb X)
      → (if is_empty keys then pure tt else external (minio.remove_objects keys)) w
        ≡ ((purge minio keys w.ext).0, record w { ext = (purge minio keys w.ext).1 })
  purge-eq [] w = refl
  purge-eq (k ∷ keys) w = refl

  -- In a forest with unique ids, `TrashService.permanentDelete` of a folder that lies at the top
  -- of the user's trash removes exactly the folders under it with the files and the uploads in
  -- them, and then the objects of the user's files among them, whose removal alone can fail.
  pub permanent_delete-IsDropped :
      (id user : ℕ) (row : Folder) (w : World DriveDb X)
      → IsForest w.db.folders
      → UniqueIds (λ (r : Folder). r.id) w.db.folders
      → is_parent_in_trash id folder user w.db ≡ false
      → find_deleted_folder id user w.db.folders ≡ some row
      → let (r, w') = permanent_delete minio user id folder w in
        (keys : List MinioKey) × IsDropped id user w.db w'.db keys
        × (r ≡ (purge minio keys w.ext).0)
        × (w'.ext ≡ (purge minio keys w.ext).1)
  unfolding permanent_delete permanent_delete_folder_tree
  permanent_delete-IsDropped id user row w f unique clear found =
      let (rows, ended) = subtree_ends w.db.folders f id user in
      let ids = ids_of rows in
      let inside = in_folders-subtree_iff w.db.folders id user rows ended in
      let whole = is_in-subtree_iff w.db.folders id user rows ended unique in
      let dropped : World DriveDb X = record w { db = drop_tree ids w.db } in
      (
        keys_in ids user w.db.files,
        rw (clear, found, ended, purge-eq (keys_in ids user w.db.files) dropped)
            (record {
              chosen = λ r. is_in r.id ids || in_folders ids r.parent_id;
              chosen_iff = λ r h. (
                λ e. elim (Bool-cases (is_in r.id ids)) [
                  | inl listed ↦ (whole r h).0 listed
                  | inr other ↦
                      let (s, under, joined) = (inside r.parent_id).0 (ground arith) in
                      below s h joined under
                ],
                λ u. let listed = (whole r h).1 u in rw listed refl,
              );
              folders = refl;
              held = in_folders ids;
              held_iff = inside;
              files = refl;
              upload_sessions = refl;
              objects = refl;
            }),
        rw (clear, found, ended, purge-eq (keys_in ids user w.db.files) dropped) refl,
        rw (clear, found, ended, purge-eq (keys_in ids user w.db.files) dropped) refl,
      )
