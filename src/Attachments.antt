-- ===== src/Attachments.antt =====
-- backend/apps/attachments: what a client may upload, and the life of an upload.
pub mod Filenames
pub mod Validators
pub mod Storage
pub mod Services
pub mod Steps
pub mod Lifecycle
pub mod Removal
