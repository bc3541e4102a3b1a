-- ===== src/Drive/FileService.antt =====
-- services/api/src/file/file.service.ts, one action per method. The ids, the uuids and the times that a
-- call draws are its arguments, and so is the database's answer to an insert.
pub mod Cleaning
pub mod Coherence
pub mod Isolation
pub mod Tests
use terab.Base.{ℕ, Bool, true, false, Option, none, some, List, [], ◌∷◌, ◌++◌, map, if◌then◌else◌}
use mathlib.Core.Option
use terab.ErrorCode.{Error, file_not_found, folder_not_found}
use terab.Action.{
  World, Action, ok, pure, throw, or_throw, throw_if, catch, query, statement, external, ◌>>=◌,
  ◌>>◌,
}
use terab.Table.{insert}
use terab.Drive.Schema.{Text, MinioKey, DriveDb, File, FileItem}
use terab.Drive.Outside.{Cache, ObjectStore, FileNames}
use terab.Drive.FileRepository
use terab.Drive.FileRepository.{to_file_item, new_file, soft_delete, search}
use terab.Drive.FolderService.{assert_belongs_to_user, invalidate}

-- A statement on the files alone.
abbrev pub on_files : {A : Type 0} → (List File → A × List File) → DriveDb → A × DriveDb
on_files f d = ((f d.files).0, record d { files = (f d.files).1 })

-- What a download sends: an open stream (its handle), a name, a size and a type.
pub record Download : Type 0 where
  pub stream : ℕ
  pub name : Text
  pub size : ℕ
  pub mime_type : Text

pub record ZipEntry : Type 0 where
  pub name : Text
  pub key : MinioKey

-- The `scope` of `FileSearchQueryDto`.
pub data SearchScope : Type 0 where
  everywhere in_folder : SearchScope

module _ (names : FileNames) where
  abbrev pub with_extension : Text → Option Text → Text
  with_extension name none = name
  with_extension name (some ext) = name ++ b'.' ∷ ext

  abbrev pub ensure_extension : Text → Text → Text
  ensure_extension name mime = elim (names.extname name) [
    | [] ↦ with_extension name (names.mime_extension mime)
    | c ∷ rest ↦ name
  ]

  -- The files of the list that are there, in its order; `filter` and `map` in one.
  unfoldable pub zip_files : ℕ → List ℕ → List File → List ZipEntry
  zip_files user [] t = []
  zip_files user (id ∷ ids) t =
      let rest = zip_files user ids t in
      elim (FileRepository.find_by_id_and_user id user t) [
        | none ↦ rest
        | some r ↦ record { name = ensure_extension r.name r.mime_type; key = r.minio_key } ∷ rest
      ]

module _ {X : Type 0} (cache : Cache X) (minio : ObjectStore X) where
  abbrev pub FileAction : Type 0 → Type 0
  FileAction A = Action (World DriveDb X) A

  abbrev pub find_file : ℕ → ℕ → FileAction (Option File)
  find_file id user = query (λ d. FileRepository.find_by_id_and_user id user d.files)

  unfoldable pub get_download_stream : FileNames → ℕ → ℕ → FileAction Download
  get_download_stream names user id = do
    found ← find_file id user
    file ← or_throw found file_not_found
    stream ← external (minio.get_object file.minio_key)
    pure (record {
      stream = stream;
      name = ensure_extension names file.name file.mime_type;
      size = file.size;
      mime_type = file.mime_type;
    })

  unfoldable pub resolve_zip_files : FileNames → List ℕ → ℕ → FileAction (List ZipEntry)
  resolve_zip_files names ids user = query (λ d. zip_files names user ids d.files)

  unfoldable pub rename : (now : ℕ) → ℕ → ℕ → Text → FileAction FileItem
  rename now user id name = do
    changed ← statement (on_files (FileRepository.rename id user name now))
    row ← or_throw changed file_not_found
    invalidate cache user row.folder_id
    pure (to_file_item row)

  abbrev pub check_folder : ℕ → Option ℕ → FileAction (Unit {0})
  check_folder user none = pure tt
  check_folder user (some folder) = assert_belongs_to_user cache folder user

  unfoldable pub move : (now : ℕ) → ℕ → ℕ → Option ℕ → FileAction FileItem
  move now user id folder = do
    found ← find_file id user
    file ← or_throw found file_not_found
    check_folder user folder
    changed ← statement (on_files (FileRepository.move id user folder now))
    row ← or_throw changed file_not_found
    invalidate cache user file.folder_id
    invalidate cache user folder
    pure (to_file_item row)

  -- INSERT, which the database may refuse.
  abbrev pub insert_file : (refused : Option Error) → File → FileAction File
  insert_file none row = statement (on_files (λ t. (row, insert row t)))
  insert_file (some e) row = throw e

  abbrev pub copied : (id uuid now : ℕ) → ℕ → Option ℕ → File → File
  copied id uuid now user folder file =
      new_file id now user folder file.name (record { owner = user; uuid = uuid }) file.size
        file.mime_type

  -- The insert of `copy`: where it fails, the copied object is removed and the error passed on.
  abbrev pub insert_or_clean : Option Error → File → FileAction File
  insert_or_clean refused row =
      catch (insert_file refused row)
        (λ e. do catch (external (minio.remove_object row.minio_key)) (λ ignored. pure tt); throw e)

  unfoldable pub copy :
      (refused : Option Error) (id uuid now : ℕ) → ℕ → ℕ → Option ℕ → FileAction FileItem
  copy refused id uuid now user source folder = do
    found ← find_file source user
    file ← or_throw found file_not_found
    check_folder user folder
    external (minio.copy_object file.minio_key (record { owner = user; uuid = uuid }))
    row ← insert_or_clean refused (copied id uuid now user folder file)
    invalidate cache user folder
    pure (to_file_item row)

  unfoldable pub remove : (now : ℕ) → ℕ → ℕ → FileAction (Unit {0})
  remove now user id = do
    found ← find_file id user
    file ← or_throw found file_not_found
    deleted ← statement (on_files (soft_delete id user now))
    if deleted then pure tt else throw (Error.api file_not_found)
    invalidate cache user file.folder_id

  -- `query.folderId` is only read in the folder scope.
  abbrev pub search_files :
      (Text → Text → Bool) → ℕ → Text → SearchScope → Option ℕ → FileAction (List FileItem)
  search_files ilike user q everywhere folder =
      query (λ d. map to_file_item (search ilike user q none d.files))
  search_files ilike user q in_folder none = throw (Error.api folder_not_found)
  search_files ilike user q in_folder (some folder) =
      query (λ d. map to_file_item (search ilike user q (some folder) d.files))
