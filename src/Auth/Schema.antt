-- ===== src/Auth/Schema.antt =====
-- services/api/src/database/schema: the tables of the login, in the files refresh-tokens,
-- trusted-devices, invitations, devices, backup-codes, users, roles, permissions, role-permissions,
-- user-roles, two-fa-challenges and two-fa-totp.
-- A uuid, a timestamp (milliseconds) and a SHA-256 digest are numbers; `none` is NULL.
use terab.Base.{ℕ, Bool, Option, List, []}
use terab.Drive.Schema.{Text}

pub record RefreshToken : Type 0 where
  pub id : ℕ
  pub user_id : ℕ
  pub token_hash : ℕ
  pub device_id : Option ℕ
  pub expires_at : ℕ
  pub revoked_at : Option ℕ

pub record TrustedDevice : Type 0 where
  pub id : ℕ
  pub user_id : ℕ
  pub token_hash : ℕ
  pub user_agent : Option Text
  pub expires_at : ℕ
  pub created_at : ℕ

pub record Invitation : Type 0 where
  pub id : ℕ
  pub token : ℕ
  pub created_by : ℕ
  pub used_by : Option ℕ
  pub used_at : Option ℕ
  pub expires_at : ℕ
  pub deactivated_at : Option ℕ
  pub created_at : ℕ

-- A push token is only compared: a number.
pub record Device : Type 0 where
  pub id : ℕ
  pub user_id : ℕ
  pub push_token : ℕ
  pub user_agent : Option Text
  pub created_at : ℕ

-- A bcrypt hash is a number.
pub record BackupCode : Type 0 where
  pub id : ℕ
  pub user_id : ℕ
  pub code_hash : ℕ
  pub used_at : Option ℕ
  pub created_at : ℕ

-- A bcrypt hash is a number. The email, which no operation of the login reads, is left out.
pub record User : Type 0 where
  pub id : ℕ
  pub username : Text
  pub nickname : Text
  pub password : ℕ
  pub active : Bool
  pub created_at : ℕ

pub record Role : Type 0 where
  pub id : ℕ
  pub name : Text

pub record Permission : Type 0 where
  pub id : ℕ
  pub resource : Text
  pub action : Text

pub record RolePermission : Type 0 where
  pub role_id : ℕ
  pub permission_id : ℕ

pub record UserRole : Type 0 where
  pub user_id : ℕ
  pub role_id : ℕ

pub data ChallengeStatus : Type 0 where
  pending : ChallengeStatus
  approved : ChallengeStatus
  denied : ChallengeStatus
  expired : ChallengeStatus

pub record Challenge : Type 0 where
  pub id : ℕ
  pub user_id : ℕ
  pub options : Text
  pub correct_num : Text
  pub status : ChallengeStatus
  pub expires_at : ℕ
  pub responded_at : Option ℕ

-- `secret_encrypted`, `iv` and `auth_tag`, which `EncryptionService` makes and reads.
pub record Encrypted : Type 0 where
  pub ciphertext : List ℕ
  pub iv : List ℕ
  pub auth_tag : List ℕ

pub record TotpRow : Type 0 where
  pub id : ℕ
  pub user_id : ℕ
  pub secret : Encrypted
  pub created_at : ℕ
  pub last_used_at : Option ℕ

pub record AuthDb : Type 0 where
  pub refresh_tokens : List RefreshToken
  pub trusted_devices : List TrustedDevice
  pub invitations : List Invitation
  pub devices : List Device
  pub backup_codes : List BackupCode
  pub users : List User
  pub roles : List Role
  pub permissions : List Permission
  pub role_permissions : List RolePermission
  pub user_roles : List UserRole
  pub challenges : List Challenge
  pub totps : List TotpRow

abbrev pub empty_auth : AuthDb
empty_auth = record {
  refresh_tokens = [];
  trusted_devices = [];
  invitations = [];
  devices = [];
  backup_codes = [];
  users = [];
  roles = [];
  permissions = [];
  role_permissions = [];
  user_roles = [];
  challenges = [];
  totps = [];
}

-- What `TokenService` (services/api/src/security/token.service.ts) takes from elsewhere: SHA-256 of
-- node:crypto, and the life of a refresh token from the environment.
pub record TokenConfig : Type 0 where
  pub hash_token : Text → ℕ
  pub refresh_exp_ms : ℕ
