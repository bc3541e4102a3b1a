-- ===== src/Drive.antt =====
-- The drive: folders, files, the trash and uploads (services/api/src/{folder,file,trash}).
pub mod Schema
pub mod Outside
pub mod FolderRepository
pub mod FolderService
pub mod Tree
pub mod Trash
pub mod FileRepository
pub mod FileService
pub mod Samples
pub mod UploadSession
