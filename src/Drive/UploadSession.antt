-- ===== src/Drive/UploadSession.antt =====
-- services/api/src/file/upload-session.service.ts and upload-session.repository.ts: uploads to
-- presigned URLs. The uuids, the times and the row ids that a call draws are its arguments.
pub mod Mime
pub mod Parts
pub mod Complete
pub mod Entered
pub mod Cleanup
pub mod Tests
use terab.Base.{
  ℕ, zero, suc, ◌+◌, ◌-◌, ◌*◌, ◌/◌, Bool, true, false, Option, none, some, List, [], ◌∷◌, max, ltb,
  ◌==◌, ◌&&◌, not, length, if◌then◌else◌,
}
use terab.ErrorCode.{
  Error, no_such_key, api, file_too_large, upload_session_not_found, upload_session_expired,
  upload_object_missing, upload_size_mismatch,
}
use terab.Action.{
  World, Action, pure, throw, or_throw, throw_if, catch, query, statement, external, run_in_tx,
  ◌>>=◌, ◌>>◌,
}
use terab.Table.{find_where, select_where, delete_where, insert}
use terab.Drive.Schema.{
  Text, MinioKey, UploadKind, single, multipart, UploadSession, DriveDb, File, FileItem,
}
use terab.Drive.Outside.{Cache, ObjectStore, Part}
use terab.Drive.FileRepository.{to_file_item}
use terab.Drive.FolderService.{assert_belongs_to_user}
use terab.Drive.UploadSession.Mime.{sanitize_mime}

abbrev pub ttl_ms : ℕ
ttl_ms = 60 * 60 * 1000

abbrev pub grace_ms : ℕ
grace_ms = 30 * 1000

abbrev pub multipart_threshold : ℕ
multipart_threshold = 100 * 1024 * 1024

abbrev pub default_part_size : ℕ
default_part_size = 100 * 1024 * 1024

abbrev pub max_parts : ℕ
max_parts = 10000

abbrev pub url_expiry_sec : ℕ
url_expiry_sec = 3600

abbrev pub max_file_size : ℕ
max_file_size = 100 * 1024 * 1024 * 1024

-- `Math.ceil(a / b)`
abbrev pub ceil_div : ℕ → ℕ → ℕ
ceil_div a b = (a + b - 1) / b

pub record UploadInitBody : Type 0 where
  pub folder_id : Option ℕ
  pub name : Text
  pub size : ℕ
  pub mime_type : Text

pub record UploadPart : Type 0 where
  pub part_number : ℕ
  pub upload_url : Text

pub record UploadInitResponse : Type 0 where
  pub session_id : ℕ
  pub parts : List UploadPart
  pub content_type : Text
  pub expires_at : ℕ

unfoldable pub part_size_for : ℕ → ℕ
part_size_for size = max default_part_size (ceil_div size 9000)

unfoldable pub part_count_for : ℕ → ℕ
unfolding part_size_for
part_count_for size = ceil_div size (part_size_for size)

abbrev pub find_session : ℕ → List UploadSession → Option UploadSession
find_session id t = find_where (λ (s : UploadSession). s.id == id) t

abbrev pub delete_session : ℕ → DriveDb → DriveDb
delete_session id d = record d {
  upload_sessions = delete_where (λ (s : UploadSession). s.id == id) d.upload_sessions;
}

-- `expires_at + grace < now()`
abbrev pub is_overdue : ℕ → UploadSession → Bool
is_overdue now s = ltb (s.expires_at + grace_ms) now

abbrev pub take : ℕ → List UploadSession → List UploadSession
take zero t = []
take (suc n) [] = []
take (suc n) (s ∷ t) = s ∷ take n t

-- `findExpiredForCleanup`, where no other transaction holds a row (`skipLocked` skips none).
abbrev pub find_expired_for_cleanup : ℕ → ℕ → List UploadSession → List UploadSession
find_expired_for_cleanup now limit t = take limit (select_where (is_overdue now) t)

pub record CleanupStats : Type 0 where
  pub scanned_count : ℕ
  pub aborted_count : ℕ
  pub removed_count : ℕ

-- `${userId}/${randomUUID()}`
abbrev pub new_key : ℕ → ℕ → MinioKey
new_key user uuid = record { owner = user; uuid = uuid }

abbrev pub new_session :
    ℕ → ℕ → ℕ → UploadInitBody → MinioKey → UploadKind → Option ℕ → UploadSession
new_session id now user body key kind upload = record {
  id = id;
  user_id = user;
  folder_id = body.folder_id;
  name = body.name;
  size = body.size;
  mime_type = sanitize_mime body.mime_type;
  minio_key = key;
  upload_kind = kind;
  multipart_upload_id = upload;
  expires_at = now + ttl_ms;
  created_at = now;
}

abbrev pub init_response : UploadSession → List UploadPart → UploadInitResponse
init_response s parts = record {
  session_id = s.id;
  parts = parts;
  content_type = s.mime_type;
  expires_at = s.expires_at;
}

-- The session, if it is there and the user's.
abbrev pub owned : ℕ → Option UploadSession → Option UploadSession
owned user none = none
owned user (some s) = if s.user_id == user then some s else none

abbrev pub file_of : ℕ → ℕ → ℕ → UploadSession → File
file_of id now user s = record {
  id = id;
  user_id = user;
  folder_id = s.folder_id;
  name = s.name;
  minio_key = s.minio_key;
  size = s.size;
  mime_type = s.mime_type;
  soft_deleted_at = none;
  created_at = now;
  updated_at = now;
}

module _ {X : Type 0} (cache : Cache X) (minio : ObjectStore X) where
  abbrev pub UploadAction : Type 0 → Type 0
  UploadAction A = Action (World DriveDb X) A

  abbrev pub check_folder : ℕ → Option ℕ → UploadAction (Unit {0})
  check_folder user none = pure tt
  check_folder user (some folder) = assert_belongs_to_user cache folder user

  -- The URLs of parts `number`, `number + 1`, … (`count` of them).
  unfoldable pub presign_parts : MinioKey → ℕ → (count number : ℕ) → UploadAction (List UploadPart)
  presign_parts key upload zero number = pure []
  presign_parts key upload (suc count) number = do
    url ← external (minio.presigned_put_part key upload number url_expiry_sec)
    rest ← presign_parts key upload count (number + 1)
    pure (record { part_number = number; upload_url = url } ∷ rest)

  abbrev pub insert_session : UploadSession → UploadAction (Unit {0})
  insert_session s =
      statement (λ d. (tt, record d { upload_sessions = insert s d.upload_sessions }))

  -- The direct upload of a small file.
  abbrev pub init_single : (id uuid now : ℕ) → ℕ → UploadInitBody → UploadAction UploadInitResponse
  init_single id uuid now user body = do
    let key = new_key user uuid
    url ← external (minio.presigned_put_object key url_expiry_sec)
    let session = new_session id now user body key single none
    insert_session session
    pure (init_response session (record { part_number = 1; upload_url = url } ∷ []))

  abbrev pub init_multipart :
      (id uuid now : ℕ) → ℕ → UploadInitBody → UploadAction UploadInitResponse
  init_multipart id uuid now user body = do
    throw_if (ltb max_parts (part_count_for body.size)) file_too_large
    let key = new_key user uuid
    upload ← external (minio.create_multipart_upload key (sanitize_mime body.mime_type))
    parts ← presign_parts key upload (part_count_for body.size) 1
    let session = new_session id now user body key multipart (some upload)
    insert_session session
    pure (init_response session parts)

  unfoldable pub init : (id uuid now : ℕ) → ℕ → UploadInitBody → UploadAction UploadInitResponse
  init id uuid now user body = do
    throw_if (ltb max_file_size body.size) file_too_large
    check_folder user body.folder_id
    if ltb body.size multipart_threshold
        then init_single id uuid now user body
        else init_multipart id uuid now user body

  abbrev pub is_there : MinioKey → UploadAction Bool
  is_there key = catch (external (minio.stat_object key) >>= λ size. pure true) (λ e. pure false)

  abbrev pub drop_session : UploadSession → UploadAction (Unit {0})
  drop_session s = statement (λ d. (tt, delete_session s.id d))

  -- An overdue session goes on only if its object is there.
  abbrev pub check_expiry : Bool → UploadSession → UploadAction (Unit {0})
  check_expiry false s = pure tt
  check_expiry true s = do
    there ← is_there s.minio_key
    if there then pure tt else do drop_session s; throw (api upload_session_expired)

  abbrev pub finish_parts : UploadSession → UploadKind → List Part → UploadAction (Unit {0})
  finish_parts s single parts = pure tt
  finish_parts s multipart parts = do
    upload ← or_throw s.multipart_upload_id upload_object_missing
    external (minio.complete_multipart_upload s.minio_key upload parts)

  -- `NoSuchKey` is no object; any other error is passed on.
  abbrev pub missing_if_no_key : Error → UploadAction (Option ℕ)
  missing_if_no_key no_such_key = pure none
  missing_if_no_key e = throw e

  abbrev pub stat_or_none : MinioKey → UploadAction (Option ℕ)
  stat_or_none key =
      catch (external (minio.stat_object key) >>= λ size. pure (some size)) missing_if_no_key

  abbrev pub check_size : UploadSession → ℕ → UploadAction (Unit {0})
  check_size s size = if size == s.size then pure tt else do
    catch (external (minio.remove_object s.minio_key)) (λ e. pure tt)
    drop_session s
    throw (api upload_size_mismatch)

  abbrev pub complete_session : (id now : ℕ) → ℕ → UploadSession → List Part → UploadAction FileItem
  complete_session id now user s parts = do
    check_expiry (is_overdue now s) s
    finish_parts s s.upload_kind parts
    found ← stat_or_none s.minio_key
    size ← or_throw found upload_object_missing
    check_size s size
    statement (λ d. (tt, record d { files = insert (file_of id now user s) d.files }))
    drop_session s
    pure (to_file_item (file_of id now user s))

  -- What `complete` does in its transaction.
  abbrev pub complete_body : (id now : ℕ) → ℕ → ℕ → List Part → UploadAction FileItem
  complete_body id now user session parts = do
    found ← query (λ d. find_session session d.upload_sessions)
    s ← or_throw (owned user found) upload_session_not_found
    complete_session id now user s parts

  unfoldable pub complete : (id now : ℕ) → ℕ → ℕ → List Part → UploadAction FileItem
  complete id now user session parts = run_in_tx (complete_body id now user session parts)

  abbrev pub count_ok : UploadAction (Unit {0}) → UploadAction ℕ
  count_ok m = catch (m >>= λ u. pure 1) (λ e. pure 0)

  abbrev pub abort_upload : UploadSession → UploadKind → Option ℕ → UploadAction ℕ
  abort_upload s multipart (some upload) =
      count_ok (external (minio.abort_multipart_upload s.minio_key upload))
  abort_upload s multipart none = pure 0
  abort_upload s single upload = pure 0

  unfoldable pub clean_sessions : List UploadSession → ℕ → ℕ → UploadAction (ℕ × ℕ)
  clean_sessions [] aborted removed = pure (aborted, removed)
  clean_sessions (s ∷ rest) aborted removed = do
    a ← abort_upload s s.upload_kind s.multipart_upload_id
    r ← count_ok (external (minio.remove_object s.minio_key))
    drop_session s
    clean_sessions rest (aborted + a) (removed + r)

  unfoldable pub cleanup_expired : (now batch_size : ℕ) → UploadAction CleanupStats
  cleanup_expired now batch_size = do
    sessions ← query (λ d. find_expired_for_cleanup now batch_size d.upload_sessions)
    counts ← clean_sessions sessions 0 0
    pure (record {
      scanned_count = length sessions;
      aborted_count = counts.0;
      removed_count = counts.1;
    })
