-- ===== src/Drive/FolderRepository.antt =====
-- services/api/src/folder/folder.repository.ts: the queries on folders, over the tables.
use terab.Base.{
  ℕ, suc, ◌-◌, Option, none, some, Bool, List, map, ◌&&◌, ◌==◌, is_value, is_null, length,
}
use mathlib.Core.Option
use terab.Table.{select_where, find_where, update_where, first, exists_where, is_in}
use terab.Table.Recursive.{with_recursive}
use terab.Drive.Schema.{Text, Folder, File, FolderItem}

abbrev pub to_folder_item : Folder → FolderItem
to_folder_item row = record {
  id = row.id;
  name = row.name;
  parent_id = row.parent_id;
  created_at = row.created_at;
  updated_at = row.updated_at;
}

-- `eq(folders.parentId, x)`, and `IS NULL` for the root
abbrev pub lies_in : Option ℕ → Option ℕ → Bool
lies_in parent none = is_null parent
lies_in parent (some f) = is_value parent f

-- WHERE user_id = … AND parent_id IS NULL / = … AND soft_deleted_at IS NULL
abbrev pub is_child : ℕ → Option ℕ → Folder → Bool
is_child user parent r =
    r.user_id == user && (lies_in r.parent_id parent && is_null r.soft_deleted_at)

unfoldable pub find_root_children : ℕ → List Folder → List Folder
find_root_children user t = select_where (is_child user none) t

unfoldable pub find_children : ℕ → ℕ → List Folder → List Folder
find_children folder user t = select_where (is_child user (some folder)) t

-- WHERE id = … AND user_id = … AND soft_deleted_at IS NULL
abbrev pub is_live : ℕ → ℕ → Folder → Bool
is_live id user r = r.id == id && (r.user_id == user && is_null r.soft_deleted_at)

unfoldable pub find_by_id_and_user : ℕ → ℕ → List Folder → Option Folder
find_by_id_and_user id user t = find_where (is_live id user) t

-- The row that `insert` writes; `id` and `now` are the column defaults.
abbrev pub new_folder : ℕ → ℕ → ℕ → Text → Option ℕ → Folder
new_folder id now user name parent = record {
  id = id;
  user_id = user;
  parent_id = parent;
  name = name;
  soft_deleted_at = none;
  created_at = now;
  updated_at = now;
}

-- UPDATE … RETURNING, for `rename` and `move`: the first row changed, and the table.
abbrev pub update_returning :
    (Folder → Bool) → (Folder → Folder) → List Folder → Option Folder × List Folder
update_returning p f t = (first (map f (select_where p t)), update_where p f t)

abbrev pub with_name : Text → ℕ → Folder → Folder
with_name name now r = record r { name = name; updated_at = now }

unfoldable pub rename : ℕ → ℕ → Text → ℕ → List Folder → Option Folder × List Folder
rename id user name now t = update_returning (is_live id user) (with_name name now) t

abbrev pub with_parent : Option ℕ → ℕ → Folder → Folder
with_parent parent now r = record r { parent_id = parent; updated_at = now }

unfoldable pub move : ℕ → ℕ → Option ℕ → ℕ → List Folder → Option Folder × List Folder
move id user parent now t = update_returning (is_live id user) (with_parent parent now) t

abbrev pub is_file_in : ℕ → Option ℕ → File → Bool
is_file_in user folder r =
    r.user_id == user && (lies_in r.folder_id folder && is_null r.soft_deleted_at)

unfoldable pub find_root_files : ℕ → List File → List File
find_root_files user t = select_where (is_file_in user none) t

unfoldable pub find_files_by_folder : ℕ → ℕ → List File → List File
find_files_by_folder folder user t = select_where (is_file_in user (some folder)) t

abbrev pub has_id : ℕ → Folder → Bool
has_id id r = r.id == id

-- JOIN ancestors a ON a.parent_id = f.id
abbrev pub parent_rows : List Folder → Folder → List Folder
parent_rows t a = select_where (λ f. is_value a.parent_id f.id) t

-- The `ancestors` of both queries below: the folder itself, its parent, and so on. One more round
-- than there are rows is fuel enough for a table without cycles.
unfoldable pub ancestors : ℕ → List Folder → Option (List Folder)
ancestors id t = with_recursive (suc (length t)) (parent_rows t) (select_where (has_id id) t)

-- SELECT COUNT(*) - 1: 0 - 1 is -1 in SQL, for a folder that is not there.
unfoldable pub get_depth : ℕ → List Folder → Option ℕ
get_depth id t = Option.map (λ rows. length rows - 1) (ancestors id t)

unfoldable pub is_descendant : ℕ → ℕ → List Folder → Option Bool
is_descendant id potential_ancestor t =
    Option.map (exists_where (has_id potential_ancestor)) (ancestors id t)

-- INNER JOIN subtree s ON f.parent_id = s.id
abbrev pub child_rows : List Folder → Folder → List Folder
child_rows t s = select_where (λ f. is_value f.parent_id s.id) t

-- The `subtree` of `softDeleteCascade`, `restoreFolder` and `permanentDeleteFolderTree`.
unfoldable pub subtree : ℕ → ℕ → List Folder → Option (List Folder)
subtree id user t =
    with_recursive (suc (length t)) (child_rows t)
      (select_where (λ f. f.id == id && f.user_id == user) t)

abbrev pub ids_of : List Folder → List ℕ
ids_of rows = map (λ (r : Folder). r.id) rows

abbrev pub in_folders : List ℕ → Option ℕ → Bool
in_folders ids none = Bool.false
in_folders ids (some f) = is_in f ids

abbrev pub mark_folder : Option ℕ → Folder → Folder
mark_folder at r = record r { soft_deleted_at = at }

abbrev pub mark_file : Option ℕ → File → File
mark_file at r = record r { soft_deleted_at = at }

-- UPDATE folders SET soft_deleted_at = … WHERE id IN subtree, and files WHERE folder_id IN subtree
abbrev pub mark_subtree : Option ℕ → List ℕ → List Folder × List File → List Folder × List File
mark_subtree at ids (folders, files) = (
  update_where (λ (r : Folder). is_in r.id ids) (mark_folder at) folders,
  update_where (λ (r : File). in_folders ids r.folder_id) (mark_file at) files,
)

unfoldable pub soft_delete_cascade :
    ℕ → ℕ → ℕ → List Folder → List File → Option (List Folder × List File)
soft_delete_cascade id user now folders files =
    Option.map (λ rows. mark_subtree (some now) (ids_of rows) (folders, files))
      (subtree id user folders)
