-- ===== src/Storage.antt =====
-- The network drives (services/api/src/{drive,mount-credential,storage-agent}).
pub mod Schema
pub mod Agent
pub mod SecretStore
pub mod DriveService
pub mod MountCredential
