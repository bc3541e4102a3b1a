-- ===== src/Storage/MountCredential/Tests.antt =====
-- Runs of the mount credentials, and the theorems about them at them.
use terab.Base.{◌≡◌, refl, Bool, true, false, none, some, [], ◌∷◌, Text, Option, codes}
use terab.ErrorCode.{api, unique_violation, storage_agent_target_conflict, mount_credential_revoked}
use terab.Action.{World, ok, err}
use terab.Storage.Schema.{
  StorageDb, StorageOutside, StorageConfig, DriveRow, AgentRequest, AgentResponse, post_target,
  delete_target_at,
}
use terab.Storage.Agent.{create_target, delete_target, response_error}
use terab.Storage.SecretStore.{write, remove}
use terab.Storage.DriveService.{find_by_id_or_throw, find_drive_by_id}
use terab.Storage.MountCredential.{
  IssueDraws, issue, revoke, new_credential, insert_issued, undo_target, secret_ref_of,
  find_active_by_drive_and_protocol, find_by_id_and_user_id,
}
use terab.Storage.MountCredential.Compensation.{IsClean, issue-cleans}
use terab.Storage.MountCredential.Revoking.{revoke-once}

-- The outside is whether the one secret is there.
abbrev holds : Text → Bool → Bool
holds name there = there

abbrev config : StorageConfig
config = record {
  drive_root = some (codes "root");
  rejects_with = unique_violation;
  portal_host = some (codes "nas");
  portal_port = some 3260;
  uuid_text = λ id. id ∷ [];
}

-- An agent that answers a creation with 409 and a deletion with 204.
abbrev answered : AgentRequest → Option AgentResponse
answered (post_target iqn name user password) = some (record { status_code = 409; code = none })
answered (delete_target_at iqn) = some (record { status_code = 204; code = none })

abbrev out : StorageOutside Bool
out = record {
  request = λ r x. (answered r, x);
  write_file = λ name secret x. (true, true);
  remove_file = λ name x. false;
}

abbrev drive : DriveRow
drive = record { id = 7; owner_id = 4; name = []; kind = []; mount_path = []; created_at = 0 }

abbrev drawn : IssueDraws
drawn = record { id = 1; drive_id = 8; now = 10; uuid = b'x' ∷ []; password = b'y' ∷ [] }

abbrev before : World StorageDb Bool
before = record {
  db = record {
    drives = drive ∷ [];
    mount_credentials =
        new_credential config (record drawn { id = 2 }) 4 (record drive { id = 9 }) ∷ [];
  };
  ext = false;
  in_tx = false;
}

conflict : (issue config out drawn 4 (some 7) before).0 ≡ err (api storage_agent_target_conflict)
unfolding issue find_by_id_or_throw find_drive_by_id find_active_by_drive_and_protocol write
    insert_issued create_target response_error undo_target remove
conflict = refl

issue-cleans_example :
    IsClean config out holds
      (secret_ref_of drawn)
      before
      (issue config out drawn 4 (some 7) before).1
issue-cleans_example =
    issue-cleans config out holds (λ name x. refl) drawn 4 (some 7) before refl refl refl conflict
      (λ e. cc)

revoked : (revoke config out 20 4 2 before).0 ≡ ok tt
unfolding revoke find_by_id_and_user_id delete_target remove
revoked = refl

revoke-once_example :
    (revoke config out 30 4 2 (revoke config out 20 4 2 before).1).0
    ≡ err (api mount_credential_revoked)
revoke-once_example = revoke-once config out 20 30 4 2 before revoked
