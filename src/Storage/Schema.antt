-- ===== src/Storage/Schema.antt =====
-- services/api/src/database/schema/{drives,mount-credentials}.schema.ts, and what the service of the
-- mount credentials calls outside the database.
use terab.Base.{ℕ, Bool, Option, List, Text}
use terab.ErrorCode.{Error}
use terab.Action.{World, Action}

pub record DriveRow : Type 0 where
  pub id : ℕ
  pub owner_id : ℕ
  pub name : Text
  pub kind : Text
  pub mount_path : Text
  pub created_at : ℕ

pub record MountCredential : Type 0 where
  pub id : ℕ
  pub drive_id : ℕ
  pub user_id : ℕ
  pub protocol : Text
  pub os_username : Text
  pub secret_ref : Text
  pub iqn : Option Text
  pub revoked_at : Option ℕ
  pub created_at : ℕ

pub record StorageDb : Type 0 where
  pub drives : List DriveRow
  pub mount_credentials : List MountCredential

-- A request to the storage agent.
pub data AgentRequest : Type 0 where
  post_target : (iqn name os_username os_password : Text) → AgentRequest
  delete_target_at : (iqn : Text) → AgentRequest

-- The status, and the `error.code` of the body where there is one.
pub record AgentResponse : Type 0 where
  pub status_code : ℕ
  pub code : Option Text

-- `request` is the HTTP client (`none`: the network failed), `write_file` and `remove_file` those of
-- node:fs on the directory of the secrets: whether the file was written; a removal is not answered.
pub record StorageOutside (X : Type 0) : Type 0 where
  pub request : AgentRequest → X → Option AgentResponse × X
  pub write_file : Text → Text → X → Bool × X
  pub remove_file : Text → X → X

-- The environment: `uuid_text` is the text of a uuid.
pub record StorageConfig : Type 0 where
  pub drive_root : Option Text
  pub portal_host : Option Text
  pub portal_port : Option ℕ
  pub uuid_text : ℕ → Text
  -- What drizzle-orm makes of the violation of a unique constraint.
  pub rejects_with : (constraint : ℕ) → Error

abbrev pub StorageAction : Type 0 → Type 0 → Type 0
StorageAction X A = Action (World StorageDb X) A
