-- ===== src/Drive/Trash/FileRoundTrip.antt =====
-- Putting a file in the trash and restoring it gives the tables back.
use terab.Base.{
  ℕ, ◌≡◌, refl, ap, ◌∙◌, true, false, none, some, List, arith, inl, inr, ◌&&◌, is_null, not, Has,
  Option-cases, Bool-cases,
}
use terab.Action.{World, ok}
use terab.Table.{UniqueIds, update_where, find_where}
use terab.Table.Laws.{
  find_where-Has, find_where_of_Has, exists_where_of_Has, same_row, Has-update_where,
  update_where_undo, update_where-UniqueIds,
}
use terab.Drive.Schema.{DriveDb, File}
use terab.Drive.Outside.{Cache, ObjectStore}
use terab.Drive.FolderRepository.{mark_file}
use terab.Drive.FileRepository
use terab.Drive.FileRepository.{is_live_file, with_mark, soft_delete}
use terab.Drive.FolderService.{cache_key}
use terab.Drive.FileService.{remove}
use terab.Drive.Trash.{
  file, joined_mark, is_own_file, is_parent_in_trash, find_deleted_file, restore_file, restore,
}

module _ (id user now : ℕ) (found : File) (t : List File)
    (unique : UniqueIds (λ (r : File). r.id) t)
    (live : FileRepository.find_by_id_and_user id user t ≡ some found) where
  abbrev marked : List File
  marked = update_where (is_live_file id user) (with_mark now) t

  found_live : Has found t × (is_live_file id user found ≡ true)
  unfolding FileRepository.find_by_id_and_user
  found_live = find_where-Has (is_live_file id user) t found live

  found_marked : Has (with_mark now found) marked
  found_marked =
      let (h, fits) = found_live in
      let k = Has-update_where (is_live_file id user) (with_mark now) t found h in rw fits at k

  -- The user's row of that id is the marked one.
  own_row : (b : File) → find_where (is_own_file id user) marked ≡ some b → b ≡ with_mark now found
  own_row b there =
      let (k, fits) = find_where-Has (is_own_file id user) marked b there in
      let (h, was) = found_live in
      same_row (λ (r : File). r.id) marked b (with_mark now found)
        (update_where-UniqueIds (λ (r : File). r.id) (is_live_file id user) (with_mark now) t
          (λ r. refl) unique)
        k found_marked (ground arith)

  undone : update_where (is_own_file id user) (mark_file none) marked ≡ t
  undone =
      let (h, was) = found_live in
      update_where_undo (is_live_file id user) (is_own_file id user) (with_mark now)
        (mark_file none) t
        (λ a k. elim (Bool-cases (is_live_file id user a)) [
          | inl fits ↦ ground arith
          | inr misses ↦ elim (Bool-cases (is_own_file id user a)) [
            | inl own ↦
                let one : a ≡ found =
                  same_row (λ (r : File). r.id) t a found unique k h (ground arith) in
                let fits : is_live_file id user a ≡ true = rw one was in cc
            | inr other ↦ rw (misses, other) refl
          ]
        ])
        (λ a k fits. let was : a.soft_deleted_at ≡ none = ground arith in ground arith)

  in_trash : (b : File) × (find_deleted_file id user marked ≡ some b)
  unfolding find_deleted_file
  in_trash =
      let (h, was) = found_live in
      find_where_of_Has (λ (r : File). is_own_file id user r && not (is_null r.soft_deleted_at))
        marked (with_mark now found) found_marked (ground arith)

  unblocked :
      (d : DriveDb)
      → joined_mark found.folder_id d.folders ≡ none
      → is_parent_in_trash id file user (record d { files = marked }) ≡ false
  unfolding is_parent_in_trash
  unblocked d clear = elim (Option-cases (find_where (is_own_file id user) marked)) [
    | inl missing ↦ rw missing refl
    | inr (b, there) ↦ rw (there, own_row b there, clear) refl
  ]

module _ {X : Type 0} (cache : Cache X) (minio : ObjectStore X) where
  -- The service's `remove` of a file that is there.
  remove-eq :
      (id user now : ℕ) (found : File) (w : World DriveDb X)
      → FileRepository.find_by_id_and_user id user w.db.files ≡ some found
      → Has found w.db.files
      → is_live_file id user found ≡ true
      → remove cache minio now user id w ≡ (
        ok tt,
        record w {
          db = record w.db {
            files = update_where (is_live_file id user) (with_mark now) w.db.files;
          };
          ext = cache.del (cache_key user found.folder_id) w.ext;
        },
      )
  unfolding remove soft_delete
  remove-eq id user now found w live h was =
      rw (live, exists_where_of_Has (is_live_file id user) w.db.files found h was) refl

  restore-eq :
      (id user : ℕ) (b : File) (v : World DriveDb X)
      → is_parent_in_trash id file user v.db ≡ false
      → find_deleted_file id user v.db.files ≡ some b
      → restore minio user id file v ≡ (ok tt, record v { db = restore_file id user v.db })
  unfolding restore
  restore-eq id user b v clear there = rw (clear, there) refl

  -- A file of the user put in the trash by `FileService.remove` and then restored by
  -- `TrashService.restore`: both succeed, and every table is as before, where file ids are unique
  -- and its folder is not in the trash.
  pub restore-remove_file :
      (id user now : ℕ) (found : File) (w : World DriveDb X)
      → UniqueIds (λ (r : File). r.id) w.db.files
      → FileRepository.find_by_id_and_user id user w.db.files ≡ some found
      → joined_mark found.folder_id w.db.folders ≡ none
      → let (removed, w') = remove cache minio now user id w in
        let (r, w'') = restore minio user id file w' in
        (removed ≡ ok tt) × (r ≡ ok tt) × (w''.db ≡ w.db)
  restore-remove_file id user now found w unique live clear =
      let (h, was) = found_live id user now found w.db.files unique live in
      let (b, there) = in_trash id user now found w.db.files unique live in
      let back = undone id user now found w.db.files unique live in
      let free = unblocked id user now found w.db.files unique live w.db clear in
      rw (remove-eq id user now found w live h was) (
        refl,
        ap (λ p. p.0) (restore-eq id user b _ free there),
        ap (λ p. p.1.db) (restore-eq id user b _ free there)
            ∙ ap (λ t. record w.db { files = t }) back,
      )
