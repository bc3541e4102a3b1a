-- ===== src/Storage/MountCredential.antt =====
-- services/api/src/mount-credential: mount-credential.service.ts, mount-credential.repository.ts and
-- dto/mount-credential.dto.ts. The uuids, the password and the times are arguments. Of the answer the
-- PowerShell script, a text made of the other values, is left out.
pub mod Compensation
pub mod Revoking
pub mod Tests
use terab.Base.{
  ℕ, Bool, true, false, Option, none, some, List, map, ◌++◌, ◌∷◌, ◌==◌, ◌&&◌, is_null, Text, codes,
  text_eq, if◌then◌else◌,
}
use terab.ErrorCode.{
  Error, api, no_such_key, unique_violation, failure, hang, ErrorCode,
  storage_agent_target_not_found, mount_credential_not_found, mount_credential_duplicate_protocol,
  mount_credential_revoked,
}
use terab.Action.{
  World, Result, ok, err, pure, throw, or_throw, catch, handle, query, statement, run_in_tx, ◌>>=◌,
  ◌>>◌,
}
use terab.Table.{select_where, find_where, update_where, exists_where, insert}
use terab.Storage.Schema.{
  DriveRow, MountCredential, StorageDb, StorageOutside, StorageConfig, StorageAction,
}
use terab.Storage.Agent.{create_target, delete_target}
use terab.Storage.SecretStore.{write, remove}
use terab.Storage.DriveService.{ensure_personal_drive, find_by_id_or_throw, setting}

abbrev pub protocol_iscsi : Text
protocol_iscsi = codes "iscsi"

-- The number of the constraint `mount_credentials_active_unique`.
abbrev pub active_unique_constraint : ℕ
active_unique_constraint = 4

abbrev pub is_active_unique_violation : Error → Bool
is_active_unique_violation (unique_violation n) = n == active_unique_constraint
is_active_unique_violation (api code) = false
is_active_unique_violation no_such_key = false
is_active_unique_violation (failure n) = false
is_active_unique_violation hang = false

abbrev pub is_active_for : ℕ → ℕ → Text → MountCredential → Bool
is_active_for drive user protocol r =
    r.drive_id == drive
    && (r.user_id == user && (text_eq r.protocol protocol && is_null r.revoked_at))

unfoldable pub find_active_by_drive_and_protocol :
    ℕ → ℕ → Text → List MountCredential → Option MountCredential
find_active_by_drive_and_protocol drive user protocol t =
    find_where (is_active_for drive user protocol) t

abbrev pub is_owned : ℕ → ℕ → MountCredential → Bool
is_owned id user r = r.id == id && r.user_id == user

unfoldable pub find_by_id_and_user_id : ℕ → ℕ → List MountCredential → Option MountCredential
find_by_id_and_user_id id user t = find_where (is_owned id user) t

abbrev pub with_revoked_at : ℕ → MountCredential → MountCredential
with_revoked_at now r = record r { revoked_at = some now }

unfoldable pub soft_revoke : ℕ → ℕ → List MountCredential → List MountCredential
soft_revoke id now t = update_where (λ (r : MountCredential). r.id == id) (with_revoked_at now) t

-- What an issue draws: the ids of the row and of a personal drive, the times, and the texts of the
-- uuid in the reference and of the password.
pub record IssueDraws : Type 0 where
  pub id : ℕ
  pub drive_id : ℕ
  pub now : ℕ
  pub uuid : Text
  pub password : Text

pub record MountCredentialDto : Type 0 where
  pub id : ℕ
  pub drive_id : ℕ
  pub protocol : Text
  pub os_username : Text
  pub iqn : Option Text
  pub portal_host : Text
  pub portal_port : ℕ
  pub created_at : ℕ

pub record IssueResponse : Type 0 where
  pub credential : MountCredentialDto
  pub password : Text

abbrev pub secret_ref_of : IssueDraws → Text
secret_ref_of drawn = codes "mount-cred-" ++ drawn.uuid

abbrev pub iqn_of : StorageConfig → DriveRow → Text
iqn_of config drive = codes "iqn.2026-05.com.terab" ++ b':' ∷ config.uuid_text drive.id

abbrev pub new_credential : StorageConfig → IssueDraws → ℕ → DriveRow → MountCredential
new_credential config drawn user drive = record {
  id = drawn.id;
  drive_id = drive.id;
  user_id = user;
  protocol = protocol_iscsi;
  os_username = secret_ref_of drawn;
  secret_ref = secret_ref_of drawn;
  iqn = some (iqn_of config drive);
  revoked_at = none;
  created_at = drawn.now;
}

abbrev pub to_mount_credential_dto : Text → ℕ → MountCredential → MountCredentialDto
to_mount_credential_dto host port r = record {
  id = r.id;
  drive_id = r.drive_id;
  protocol = r.protocol;
  os_username = r.os_username;
  iqn = r.iqn;
  portal_host = host;
  portal_port = port;
  created_at = r.created_at;
}

abbrev pub on_mount_credentials :
    (List MountCredential → List MountCredential) → StorageDb → Unit {0} × StorageDb
on_mount_credentials f d = (tt, record d { mount_credentials = f d.mount_credentials })

-- `err.code === 'STORAGE_AGENT_TARGET_NOT_FOUND'`
abbrev pub is_missing : Error → Bool
is_missing (api storage_agent_target_not_found) = true
is_missing e = false

abbrev pub is_ok : {A : Type 0} → Result A → Bool
is_ok (ok a) = true
is_ok (err e) = false

module _ {X : Type 0} where
  -- The partial unique index rejects a second active row of a drive, a user and a protocol.
  unfoldable pub insert_issued :
      (rejects_with : ℕ → Error) → MountCredential → StorageAction X (Unit {0})
  insert_issued rejects_with row = do
    taken ← query (λ d.
        exists_where (is_active_for row.drive_id row.user_id row.protocol) d.mount_credentials)
    if taken
        then throw (rejects_with active_unique_constraint)
        else statement (on_mount_credentials (insert row))

  abbrev pub swallow : Error → StorageAction X (Unit {0})
  swallow e = pure tt

  -- `revoke` goes on where the target is gone already.
  abbrev pub tolerate_missing : Error → StorageAction X (Unit {0})
  tolerate_missing e = if is_missing e then pure tt else throw e

module _ {X : Type 0} (config : StorageConfig) (out : StorageOutside X) where
  abbrev pub find_drive : IssueDraws → ℕ → Option ℕ → StorageAction X DriveRow
  find_drive drawn user none = ensure_personal_drive config drawn.drive_id drawn.now user
  find_drive drawn user (some id) = find_by_id_or_throw id user

  -- The transaction up to `targetCreated = true`.
  abbrev pub reach_target : IssueDraws → ℕ → DriveRow → StorageAction X (Unit {0})
  reach_target drawn user drive = do
    insert_issued config.rejects_with (new_credential config drawn user drive)
    create_target out (iqn_of config drive) drive.name (secret_ref_of drawn) drawn.password

  abbrev pub issue_body : IssueDraws → ℕ → DriveRow → StorageAction X IssueResponse
  issue_body drawn user drive = do
    reach_target drawn user drive
    host ← setting config.portal_host
    port ← setting config.portal_port
    pure (record {
      credential = to_mount_credential_dto host port (new_credential config drawn user drive);
      password = drawn.password;
    })

  unfoldable pub undo_target : Bool → Text → StorageAction X (Unit {0})
  undo_target false iqn = pure tt
  undo_target true iqn = catch (delete_target out iqn) swallow

  -- The `catch` of `issue`; `created` is `targetCreated`.
  abbrev pub compensate :
      (created : Bool) → (iqn secret_ref : Text) → Error → StorageAction X IssueResponse
  compensate created iqn secret_ref e =
      if is_active_unique_violation e
      then (do remove out secret_ref; throw (api mount_credential_duplicate_protocol))
      else (do undo_target created iqn; remove out secret_ref; throw e)

  -- The `try` of `issue`. Whether the target was created is asked of the first steps of the
  -- transaction from the same world.
  abbrev pub issue_guarded : IssueDraws → ℕ → DriveRow → StorageAction X IssueResponse
  issue_guarded drawn user drive w =
      let created = is_ok (reach_target drawn user drive (record w { in_tx = true })).0 in
      catch (run_in_tx (issue_body drawn user drive))
        (compensate created (iqn_of config drive) (secret_ref_of drawn)) w

  abbrev pub issue_for : IssueDraws → ℕ → DriveRow → StorageAction X IssueResponse
  issue_for drawn user drive = do
    existing ←
        query
          (λ d. find_active_by_drive_and_protocol drive.id user protocol_iscsi d.mount_credentials)
    if is_null existing
        then (do write out (secret_ref_of drawn) drawn.password; issue_guarded drawn user drive)
        else throw (api mount_credential_duplicate_protocol)

  unfoldable pub issue : IssueDraws → ℕ → Option ℕ → StorageAction X IssueResponse
  issue drawn user drive_id = do drive ← find_drive drawn user drive_id; issue_for drawn user drive

  abbrev pub release_target : Option Text → StorageAction X (Unit {0})
  release_target none = pure tt
  release_target (some iqn) = catch (delete_target out iqn) tolerate_missing

  unfoldable pub revoke : (now : ℕ) → ℕ → ℕ → StorageAction X (Unit {0})
  revoke now user id = do
    found ← query (λ d. find_by_id_and_user_id id user d.mount_credentials)
    row ← or_throw found mount_credential_not_found
    if is_null row.revoked_at
        then (do
          release_target row.iqn
          remove out row.secret_ref
          statement (on_mount_credentials (soft_revoke row.id now)))
        else throw (api mount_credential_revoked)

  unfoldable pub list_active : ℕ → StorageAction X (List MountCredentialDto)
  list_active user = do
    rows ← query (λ d.
        select_where (λ (r : MountCredential). r.user_id == user && is_null r.revoked_at)
          d.mount_credentials)
    host ← setting config.portal_host
    port ← setting config.portal_port
    pure (map (to_mount_credential_dto host port) rows)
