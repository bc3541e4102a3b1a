-- ===== src/Drive/Schema.antt =====
-- services/api/src/database/schema/{folders,files,upload-sessions}.schema.ts: the tables of the drive.
-- A uuid and a timestamp (milliseconds) are numbers; `none` is NULL.
use terab.Base.{ℕ, Option, List}
pub use terab.Base.{Text}

-- `${userId}/${uuid}`, the name of an object in the bucket.
pub record MinioKey : Type 0 where
  pub owner : ℕ
  pub uuid : ℕ

pub record Folder : Type 0 where
  pub id : ℕ
  pub user_id : ℕ
  pub parent_id : Option ℕ
  pub name : Text
  pub soft_deleted_at : Option ℕ
  pub created_at : ℕ
  pub updated_at : ℕ

pub record File : Type 0 where
  pub id : ℕ
  pub user_id : ℕ
  pub folder_id : Option ℕ
  pub name : Text
  pub minio_key : MinioKey
  pub size : ℕ
  pub mime_type : Text
  pub soft_deleted_at : Option ℕ
  pub created_at : ℕ
  pub updated_at : ℕ

pub data UploadKind : Type 0 where
  single multipart : UploadKind

pub record UploadSession : Type 0 where
  pub id : ℕ
  pub user_id : ℕ
  pub folder_id : Option ℕ
  pub name : Text
  pub size : ℕ
  pub mime_type : Text
  pub minio_key : MinioKey
  pub upload_kind : UploadKind
  pub multipart_upload_id : Option ℕ
  pub expires_at : ℕ
  pub created_at : ℕ

pub record DriveDb : Type 0 where
  pub folders : List Folder
  pub files : List File
  pub upload_sessions : List UploadSession

-- What the clients see of a row (`FolderItemDto`, `FileItemDto`).
pub record FolderItem : Type 0 where
  pub id : ℕ
  pub name : Text
  pub parent_id : Option ℕ
  pub created_at : ℕ
  pub updated_at : ℕ

pub record FileItem : Type 0 where
  pub id : ℕ
  pub name : Text
  pub folder_id : Option ℕ
  pub size : ℕ
  pub mime_type : Text
  pub created_at : ℕ
  pub updated_at : ℕ

-- `FolderChildrenResponseDto`. `FolderRepository.findRootFiles` and `findFilesByFolder` spread the
-- whole row into it, so the files are rows.
pub record FolderChildren : Type 0 where
  pub folders : List FolderItem
  pub files : List File
