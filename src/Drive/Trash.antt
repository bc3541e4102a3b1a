-- ===== src/Drive/Trash.antt =====
-- services/api/src/trash/trash.repository.ts and trash.service.ts: the trash.
pub mod Deletion
pub mod FileRoundTrip
pub mod RoundTrip
pub mod Tests
use mathlib.Core.Option
use terab.Base.{
  ℕ, Bool, true, false, Option, none, some, List, [], ◌∷◌, ◌++◌, map, leb, ◌==◌, ◌&&◌, ◌||◌, not,
  is_value, is_null, if◌then◌else◌,
}
use terab.ErrorCode.{parent_in_trash, file_not_found, folder_not_found}
use terab.Action.{World, Action, pure, or_throw, throw_if, query, statement, external, ◌>>=◌, ◌>>◌}
use terab.Table.{select_where, find_where, update_where, delete_where, is_in}
use terab.Drive.Schema.{Text, MinioKey, DriveDb, Folder, File, UploadSession}
use terab.Drive.Outside.{ObjectStore}
use terab.Drive.FolderRepository.{has_id, subtree, ids_of, in_folders, mark_file, mark_subtree}
use terab.Drive.FolderService.{or_hang, write_cascade}

pub data ItemType : Type 0 where
  file folder : ItemType

pub record TrashItem : Type 0 where
  pub id : ℕ
  pub type : ItemType
  pub name : Text
  pub deleted_at : ℕ

abbrev pub mark_of : Option Folder → Option ℕ
mark_of none = none
mark_of (some r) = r.soft_deleted_at

-- LEFT JOIN folders ON … = folders.id: the row's time in the trash, `none` where there is no such
-- row or it is not in the trash.
abbrev pub joined_mark : Option ℕ → List Folder → Option ℕ
joined_mark none t = none
joined_mark (some f) t = mark_of (find_where (has_id f) t)

-- WHERE user_id = … AND soft_deleted_at IS NOT NULL AND (parent IS NULL OR the parent is not in the
-- trash)
abbrev pub is_top_file : ℕ → List Folder → File → Bool
is_top_file user t r =
    r.user_id == user
    && (not (is_null r.soft_deleted_at)
        && (is_null r.folder_id || is_null (joined_mark r.folder_id t)))

abbrev pub is_top_folder : ℕ → List Folder → Folder → Bool
is_top_folder user t r =
    r.user_id == user
    && (not (is_null r.soft_deleted_at)
        && (is_null r.parent_id || is_null (joined_mark r.parent_id t)))

-- `softDeletedAt!`: the selected rows have one.
abbrev pub time_of : Option ℕ → ℕ
time_of none = 0
time_of (some at) = at

abbrev pub file_item : File → TrashItem
file_item r = record {
  id = r.id;
  type = file;
  name = r.name;
  deleted_at = time_of r.soft_deleted_at;
}

abbrev pub folder_item : Folder → TrashItem
folder_item r = record {
  id = r.id;
  type = folder;
  name = r.name;
  deleted_at = time_of r.soft_deleted_at;
}

-- `sort((a, b) => b.deletedAt - a.deletedAt)`: latest first, and stable.
unfoldable pub place : TrashItem → List TrashItem → List TrashItem
place a [] = a ∷ []
place a (b ∷ items) =
    let rest = place a items in if leb b.deleted_at a.deleted_at then a ∷ b ∷ items else b ∷ rest

unfoldable pub sort_latest : List TrashItem → List TrashItem
sort_latest [] = []
sort_latest (a ∷ items) = place a (sort_latest items)

unfoldable pub find_all_deleted : ℕ → DriveDb → List TrashItem
find_all_deleted user d = sort_latest (
    map file_item (select_where (is_top_file user d.folders) d.files)
    ++ map folder_item (select_where (is_top_folder user d.folders) d.folders))

abbrev pub is_own_file : ℕ → ℕ → File → Bool
is_own_file id user r = r.id == id && r.user_id == user

abbrev pub is_own_folder : ℕ → ℕ → Folder → Bool
is_own_folder id user r = r.id == id && r.user_id == user

abbrev pub parent_marked : Option (Option ℕ) → List Folder → Bool
parent_marked none t = false
parent_marked (some parent) t = not (is_null (joined_mark parent t))

unfoldable pub is_parent_in_trash : ℕ → ItemType → ℕ → DriveDb → Bool
is_parent_in_trash id file user d =
    parent_marked
      (Option.map (λ (r : File). r.folder_id) (find_where (is_own_file id user) d.files)) d.folders
is_parent_in_trash id folder user d =
    parent_marked
      (Option.map (λ (r : Folder). r.parent_id) (find_where (is_own_folder id user) d.folders))
      d.folders

unfoldable pub find_deleted_file : ℕ → ℕ → List File → Option File
find_deleted_file id user t =
    find_where (λ r. is_own_file id user r && not (is_null r.soft_deleted_at)) t

unfoldable pub find_deleted_folder : ℕ → ℕ → List Folder → Option Folder
find_deleted_folder id user t =
    find_where (λ r. is_own_folder id user r && not (is_null r.soft_deleted_at)) t

abbrev pub restore_file : ℕ → ℕ → DriveDb → DriveDb
restore_file id user d = record d {
  files = update_where (is_own_file id user) (mark_file none) d.files;
}

unfoldable pub restore_folder : ℕ → ℕ → DriveDb → Option (List Folder × List File)
restore_folder id user d =
    Option.map (λ rows. mark_subtree none (ids_of rows) (d.folders, d.files))
      (subtree id user d.folders)

-- DELETE … RETURNING minio_key
abbrev pub permanent_delete_file : ℕ → ℕ → DriveDb → Option MinioKey × DriveDb
permanent_delete_file id user d = (
  Option.map (λ (r : File). r.minio_key) (find_where (is_own_file id user) d.files),
  record d { files = delete_where (is_own_file id user) d.files },
)

-- The keys of the user's files in the subtree. The folders of the subtree go, and by the foreign
-- keys (ON DELETE CASCADE) every file and every upload session in them.
abbrev pub keys_in : List ℕ → ℕ → List File → List MinioKey
keys_in ids user files =
    map (λ (r : File). r.minio_key)
      (select_where (λ (r : File). in_folders ids r.folder_id && r.user_id == user) files)

abbrev pub drop_tree : List ℕ → DriveDb → DriveDb
drop_tree ids d = record {
  folders = delete_where (λ (r : Folder). is_in r.id ids || in_folders ids r.parent_id) d.folders;
  files = delete_where (λ (r : File). in_folders ids r.folder_id) d.files;
  upload_sessions =
      delete_where (λ (r : UploadSession). in_folders ids r.folder_id) d.upload_sessions;
}

unfoldable pub permanent_delete_folder_tree : ℕ → ℕ → DriveDb → Option (List MinioKey × DriveDb)
permanent_delete_folder_tree id user d =
    Option.map (λ rows. (keys_in (ids_of rows) user d.files, drop_tree (ids_of rows) d))
      (subtree id user d.folders)

abbrev pub is_empty : List MinioKey → Bool
is_empty [] = true
is_empty (k ∷ keys) = false

module _ {X : Type 0} (minio : ObjectStore X) where
  abbrev pub TrashAction : Type 0 → Type 0
  TrashAction A = Action (World DriveDb X) A

  unfoldable pub list : ℕ → TrashAction (List TrashItem)
  list user = query (find_all_deleted user)

  abbrev pub restore_item : ℕ → ℕ → ItemType → TrashAction (Unit {0})
  restore_item user id file = do
    found ← query (λ d. find_deleted_file id user d.files)
    or_throw found file_not_found
    statement (λ d. (tt, restore_file id user d))
  restore_item user id folder = do
    found ← query (λ d. find_deleted_folder id user d.folders)
    or_throw found folder_not_found
    restored ← query (restore_folder id user)
    or_hang restored
    statement (λ d. (tt, write_cascade restored d))

  unfoldable pub restore : ℕ → ℕ → ItemType → TrashAction (Unit {0})
  restore user id type = do
    blocked ← query (is_parent_in_trash id type user)
    throw_if blocked parent_in_trash
    restore_item user id type

  abbrev pub delete_item : ℕ → ℕ → ItemType → TrashAction (Unit {0})
  delete_item user id file = do
    deleted ← statement (permanent_delete_file id user)
    key ← or_throw deleted file_not_found
    external (minio.remove_object key)
  delete_item user id folder = do
    found ← query (λ d. find_deleted_folder id user d.folders)
    or_throw found folder_not_found
    dropped ← query (permanent_delete_folder_tree id user)
    result ← or_hang dropped
    statement (λ d. (tt, result.1))
    if is_empty result.0 then pure tt else external (minio.remove_objects result.0)

  unfoldable pub permanent_delete : ℕ → ℕ → ItemType → TrashAction (Unit {0})
  permanent_delete user id type = do
    blocked ← query (is_parent_in_trash id type user)
    throw_if blocked parent_in_trash
    delete_item user id type
