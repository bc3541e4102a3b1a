-- ===== src/Drive/FolderService.antt =====
-- services/api/src/folder/folder.service.ts, one action per method. What the database or the clock
-- chooses for a method is an argument: the id and the time of a new row, the time of an update.
-- An API body that is `null` for the root folder is `none`.
pub mod Forest
pub mod Coherence
pub mod Calls
pub mod Removal
pub mod Tests
use terab.Base.{ℕ, Bool, Option, none, some, List, map, leb, if◌then◌else◌}
use terab.ErrorCode.{hang, folder_not_found, folder_depth_exceeded, invalid_move_target}
use terab.Action.{
  World, Action, ok, pure, throw, or_throw, throw_if, query, statement, external, ◌>>=◌, ◌>>◌,
}
use terab.Table.{insert}
use terab.Drive.Schema.{Text, DriveDb, Folder, File, FolderItem, FolderChildren}
use terab.Drive.Outside.{Cache, CacheKey}
use terab.Drive.FolderRepository
use terab.Drive.FolderRepository.{
  to_folder_item, find_by_id_and_user, find_root_children, find_children, find_root_files,
  find_files_by_folder, get_depth, is_descendant, new_folder, soft_delete_cascade,
}

abbrev pub max_folder_depth : ℕ
max_folder_depth = 20

abbrev pub cache_key : ℕ → Option ℕ → CacheKey
cache_key user folder = record { user = user; folder = folder }

-- A statement on the folders alone.
abbrev pub on_folders : {A : Type 0} → (List Folder → A × List Folder) → DriveDb → A × DriveDb
on_folders f d = ((f d.folders).0, record d { folders = (f d.folders).1 })

-- A recursive query that never returns leaves its caller waiting.
abbrev pub or_hang : {W A : Type 0} → Option A → Action W A
or_hang none = throw hang
or_hang (some a) = pure a

-- What `getRoot` and `getChildren` read when nothing is cached.
abbrev pub listing : ℕ → Option ℕ → DriveDb → FolderChildren
listing user none d = record {
  folders = map to_folder_item (find_root_children user d.folders);
  files = find_root_files user d.files;
}
listing user (some folder) d = record {
  folders = map to_folder_item (find_children folder user d.folders);
  files = find_files_by_folder folder user d.files;
}

abbrev pub write_cascade : Option (List Folder × List File) → DriveDb → DriveDb
write_cascade none d = d
write_cascade (some (folders, files)) d = record d { folders = folders; files = files }

module _ {X : Type 0} (cache : Cache X) where
  abbrev pub DriveAction : Type 0 → Type 0
  DriveAction A = Action (World DriveDb X) A

  abbrev pub cache_get : CacheKey → DriveAction (Option FolderChildren)
  cache_get key = external (λ x. (ok (cache.get key x), x))

  abbrev pub cache_set : CacheKey → FolderChildren → DriveAction (Unit {0})
  cache_set key v = external (λ x. (ok tt, cache.set key v x))

  abbrev pub invalidate : ℕ → Option ℕ → DriveAction (Unit {0})
  invalidate user folder = external (λ x. (ok tt, cache.del (cache_key user folder) x))

  abbrev pub find_folder : ℕ → ℕ → DriveAction (Option Folder)
  find_folder id user = query (λ d. find_by_id_and_user id user d.folders)

  unfoldable pub find_by_id : ℕ → ℕ → DriveAction (Option FolderItem)
  find_by_id id user = do
    row ← find_folder id user
    pure (elim row [ none ↦ none | some r ↦ some (to_folder_item r) ])

  -- The part that `getRoot` and `getChildren` share: the cached listing, or a fresh one that is kept.
  abbrev pub cached_or_read : ℕ → Option ℕ → Option FolderChildren → DriveAction FolderChildren
  cached_or_read user folder (some cached) = pure cached
  cached_or_read user folder none = do
    result ← query (listing user folder)
    cache_set (cache_key user folder) result
    pure result

  unfoldable pub get_root : ℕ → DriveAction FolderChildren
  get_root user = do cached ← cache_get (cache_key user none); cached_or_read user none cached

  unfoldable pub get_children : ℕ → ℕ → DriveAction FolderChildren
  get_children user folder = do
    found ← find_folder folder user
    or_throw found folder_not_found
    cached ← cache_get (cache_key user (some folder))
    cached_or_read user (some folder) cached

  -- The guards of `create`.
  abbrev pub check_parent : ℕ → Option ℕ → DriveAction (Unit {0})
  check_parent user none = pure tt
  check_parent user (some parent) = do
    found ← find_folder parent user
    or_throw found folder_not_found
    depth ← query (λ d. get_depth parent d.folders)
    level ← or_hang depth
    throw_if (leb max_folder_depth level) folder_depth_exceeded

  unfoldable pub create : (id now : ℕ) → ℕ → Text → Option ℕ → DriveAction FolderItem
  create id now user name parent = do
    check_parent user parent
    let row = new_folder id now user name parent
    statement (on_folders (λ t. (row, insert row t)))
    invalidate user parent
    pure (to_folder_item row)

  unfoldable pub rename : (now : ℕ) → ℕ → ℕ → Text → DriveAction FolderItem
  rename now user id name = do
    changed ← statement (on_folders (FolderRepository.rename id user name now))
    row ← or_throw changed folder_not_found
    invalidate user row.parent_id
    pure (to_folder_item row)

  -- The guards of `move` on its target.
  abbrev pub check_target : ℕ → ℕ → Option ℕ → DriveAction (Unit {0})
  check_target user id none = pure tt
  check_target user id (some parent) = do
    target ← find_folder parent user
    or_throw target folder_not_found
    answer ← query (λ d. is_descendant parent id d.folders)
    inside ← or_hang answer
    throw_if inside invalid_move_target

  unfoldable pub move : (now : ℕ) → ℕ → ℕ → Option ℕ → DriveAction FolderItem
  move now user id parent = do
    found ← find_folder id user
    folder ← or_throw found folder_not_found
    check_target user id parent
    changed ← statement (on_folders (FolderRepository.move id user parent now))
    row ← or_throw changed folder_not_found
    invalidate user folder.parent_id
    invalidate user parent
    pure (to_folder_item row)

  unfoldable pub remove : (now : ℕ) → ℕ → ℕ → DriveAction (Unit {0})
  remove now user id = do
    found ← find_folder id user
    folder ← or_throw found folder_not_found
    swept ← query (λ d. soft_delete_cascade id user now d.folders d.files)
    or_hang swept
    statement (λ d. (tt, write_cascade swept d))
    invalidate user folder.parent_id

  unfoldable pub assert_belongs_to_user : ℕ → ℕ → DriveAction (Unit {0})
  assert_belongs_to_user folder user = do
    found ← find_folder folder user
    or_throw found folder_not_found
    pure tt
