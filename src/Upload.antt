-- ===== src/Upload.antt =====
-- src/infrastructure/upload: what takes the files of a finished download.
pub mod GoogleDrive
