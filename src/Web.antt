-- ===== src/Web.antt =====
-- services/web: the parts of the web client that the server depends on.
pub mod UploadParts
