-- ===== src/Drive/Outside.antt =====
-- What the drive uses and does not implement: the cache manager (Redis) and the object store (MinIO).
-- Each is a record of operations on an unknown state `X`.
use terab.Action.{Result}
use terab.Base.{ℕ, List, Option, none, some, ◌≡◌, ◌⊎◌}
use terab.Drive.Schema.{Text, MinioKey, FolderChildren}

-- `files:user:${userId}:folder:${folderId ?? 'root'}`. A uuid has no colon and is never `root`, so
-- the text and this pair determine one another.
pub record CacheKey : Type 0 where
  pub user : ℕ
  pub folder : Option ℕ

pub record Cache (X : Type 0) : Type 0 where
  pub get : CacheKey → X → Option FolderChildren
  pub set : CacheKey → FolderChildren → X → X
  pub del : CacheKey → X → X

-- What cache-manager documents: a deleted entry is gone, and an entry that is there was set under
-- its key. Any entry may expire at any call.
pub record IsLawful {X : Type 0} (cache : Cache X) : Type 0 where
  pub get-del_self : (k : CacheKey) (x : X) → cache.get k (cache.del k x) ≡ none
  pub get-del :
      (k j : CacheKey) (v : FolderChildren) (x : X)
      → cache.get j (cache.del k x) ≡ some v
      → cache.get j x ≡ some v
  pub get-set :
      (k j : CacheKey) (v u : FolderChildren) (x : X)
      → cache.get j (cache.set k v x) ≡ some u
      → ((j ≡ k) × (u ≡ v)) ⊎ (cache.get j x ≡ some u)

pub record Part : Type 0 where
  pub part_number : ℕ
  pub etag : Text

-- The methods of `MinioService` (services/api/src/minio/minio.service.ts), each one call of the MinIO
-- client. `stat_object` gives the size, which is all that its callers read.
pub record ObjectStore (X : Type 0) : Type 0 where
  pub stat_object : MinioKey → X → Result ℕ × X
  -- An open stream is its handle.
  pub get_object : MinioKey → X → Result ℕ × X
  pub copy_object : MinioKey → MinioKey → X → Result (Unit {0}) × X
  pub remove_object : MinioKey → X → Result (Unit {0}) × X
  pub remove_objects : List MinioKey → X → Result (Unit {0}) × X
  pub presigned_put_object : MinioKey → ℕ → X → Result Text × X
  pub presigned_put_part : MinioKey → ℕ → ℕ → ℕ → X → Result Text × X
  pub create_multipart_upload : MinioKey → Text → X → Result ℕ × X
  pub complete_multipart_upload : MinioKey → ℕ → List Part → X → Result (Unit {0}) × X
  pub abort_multipart_upload : MinioKey → ℕ → X → Result (Unit {0}) × X

-- `extname` of node:path, and `extension` of mime-types (`none` for its `false`).
pub record FileNames : Type 0 where
  pub extname : Text → Text
  pub mime_extension : Text → Option Text
