-- ===== src/Drive/FileRepository.antt =====
-- services/api/src/file/file.repository.ts: the queries on files, over the tables.
use terab.Base.{ℕ, Bool, true, Option, none, some, List, map, ◌&&◌, ◌==◌, is_null, is_value}
use terab.Table.{select_where, find_where, update_where, first, exists_where}
use terab.Drive.Schema.{Text, MinioKey, Folder, File, FileItem}
use terab.Drive.FolderRepository.{is_live}

abbrev pub to_file_item : File → FileItem
to_file_item row = record {
  id = row.id;
  name = row.name;
  folder_id = row.folder_id;
  size = row.size;
  mime_type = row.mime_type;
  created_at = row.created_at;
  updated_at = row.updated_at;
}

-- WHERE id = … AND user_id = … AND soft_deleted_at IS NULL
abbrev pub is_live_file : ℕ → ℕ → File → Bool
is_live_file id user r = r.id == id && (r.user_id == user && is_null r.soft_deleted_at)

unfoldable pub find_by_id_and_user : ℕ → ℕ → List File → Option File
find_by_id_and_user id user t = find_where (is_live_file id user) t

-- The row that `insert` writes; `id` and `now` are the column defaults.
abbrev pub new_file : (id now : ℕ) → ℕ → Option ℕ → Text → MinioKey → ℕ → Text → File
new_file id now user folder name key size mime = record {
  id = id;
  user_id = user;
  folder_id = folder;
  name = name;
  minio_key = key;
  size = size;
  mime_type = mime;
  soft_deleted_at = none;
  created_at = now;
  updated_at = now;
}

abbrev pub update_returning : (File → Bool) → (File → File) → List File → Option File × List File
update_returning p f t = (first (map f (select_where p t)), update_where p f t)

abbrev pub with_name : Text → ℕ → File → File
with_name name now r = record r { name = name; updated_at = now }

unfoldable pub rename : ℕ → ℕ → Text → ℕ → List File → Option File × List File
rename id user name now t = update_returning (is_live_file id user) (with_name name now) t

abbrev pub with_folder : Option ℕ → ℕ → File → File
with_folder folder now r = record r { folder_id = folder; updated_at = now }

unfoldable pub move : ℕ → ℕ → Option ℕ → ℕ → List File → Option File × List File
move id user folder now t = update_returning (is_live_file id user) (with_folder folder now) t

abbrev pub with_mark : ℕ → File → File
with_mark now r = record r { soft_deleted_at = some now }

-- `softDelete`: whether there was such a file.
unfoldable pub soft_delete : ℕ → ℕ → ℕ → List File → Bool × List File
soft_delete id user now t =
    (exists_where (is_live_file id user) t, update_where (is_live_file id user) (with_mark now) t)

unfoldable pub folder_belongs_to_user : ℕ → ℕ → List Folder → Bool
folder_belongs_to_user folder user t = exists_where (is_live folder user) t

abbrev pub is_in_scope : Option ℕ → File → Bool
is_in_scope none r = true
is_in_scope (some folder) r = is_value r.folder_id folder

-- `ilike name q` is PostgreSQL's `name ILIKE '%' || q || '%'`.
unfoldable pub search : (ilike : Text → Text → Bool) → ℕ → Text → Option ℕ → List File → List File
search ilike user q folder t =
    select_where
      (λ (r : File).
        (r.user_id == user && (is_null r.soft_deleted_at && ilike r.name q))
        && is_in_scope folder r)
      t
