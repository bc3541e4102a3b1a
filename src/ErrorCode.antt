-- ===== src/ErrorCode.antt =====
-- services/api/src/common/exceptions: the codes an `ApiException` can carry, and the HTTP status of
-- each. The messages are texts for a reader and are left out.
use terab.Base.{ℕ}

pub data ErrorCode : Type 0 where
  invalid_credentials : ErrorCode
  token_expired : ErrorCode
  token_invalid : ErrorCode
  refresh_token_invalid : ErrorCode
  forbidden : ErrorCode
  username_taken : ErrorCode
  account_disabled : ErrorCode
  role_not_found : ErrorCode
  registration_failed : ErrorCode
  backup_code_invalid : ErrorCode
  twofa_challenge_not_found : ErrorCode
  twofa_strategy_not_found : ErrorCode
  twofa_setup_not_supported : ErrorCode
  twofa_totp_invalid_code : ErrorCode
  twofa_totp_locked : ErrorCode
  twofa_last_strategy_cannot_remove : ErrorCode
  device_not_found : ErrorCode
  trusted_device_not_found : ErrorCode
  invitation_not_found : ErrorCode
  invitation_expired : ErrorCode
  invitation_already_used : ErrorCode
  file_not_found : ErrorCode
  folder_not_found : ErrorCode
  file_upload_failed : ErrorCode
  file_already_deleted : ErrorCode
  folder_already_deleted : ErrorCode
  invalid_move_target : ErrorCode
  folder_depth_exceeded : ErrorCode
  zip_limit_exceeded : ErrorCode
  parent_in_trash : ErrorCode
  file_too_large : ErrorCode
  upload_session_not_found : ErrorCode
  upload_session_expired : ErrorCode
  upload_object_missing : ErrorCode
  upload_size_mismatch : ErrorCode
  storage_agent_unavailable : ErrorCode
  storage_agent_target_conflict : ErrorCode
  storage_agent_target_not_found : ErrorCode
  storage_agent_internal : ErrorCode
  drive_not_found : ErrorCode
  drive_forbidden : ErrorCode
  mount_credential_not_found : ErrorCode
  mount_credential_duplicate_protocol : ErrorCode
  mount_credential_revoked : ErrorCode
  mount_credential_secret_write_failed : ErrorCode

abbrev pub status : ErrorCode → ℕ
status invalid_credentials = 401
status token_expired = 401
status token_invalid = 401
status refresh_token_invalid = 401
status forbidden = 403
status username_taken = 409
status account_disabled = 423
status role_not_found = 500
status registration_failed = 500
status backup_code_invalid = 401
status twofa_challenge_not_found = 404
status twofa_strategy_not_found = 404
status twofa_setup_not_supported = 400
status twofa_totp_invalid_code = 400
status twofa_totp_locked = 429
status twofa_last_strategy_cannot_remove = 400
status device_not_found = 404
status trusted_device_not_found = 404
status invitation_not_found = 404
status invitation_expired = 410
status invitation_already_used = 409
status file_not_found = 404
status folder_not_found = 404
status file_upload_failed = 500
status file_already_deleted = 409
status folder_already_deleted = 409
status invalid_move_target = 400
status folder_depth_exceeded = 400
status zip_limit_exceeded = 400
status parent_in_trash = 400
status file_too_large = 413
status upload_session_not_found = 404
status upload_session_expired = 410
status upload_object_missing = 400
status upload_size_mismatch = 400
status storage_agent_unavailable = 503
status storage_agent_target_conflict = 409
status storage_agent_target_not_found = 404
status storage_agent_internal = 500
status drive_not_found = 404
status drive_forbidden = 403
status mount_credential_not_found = 404
status mount_credential_duplicate_protocol = 409
status mount_credential_revoked = 410
status mount_credential_secret_write_failed = 500

-- What a failed call rejects with: an `ApiException`; the object store's NoSuchKey; an error that has
-- itself the code 23505 of PostgreSQL, a unique violation, with the constraint's number; any other
-- error of a library, by a number.
-- `hang` stands for a query that never returns.
pub data Error : Type 0 where
  api : ErrorCode → Error
  no_such_key : Error
  unique_violation : ℕ → Error
  failure : ℕ → Error
  hang : Error
