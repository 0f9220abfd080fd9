-- ===== src/Upload/GoogleDrive/Resource/Counted.antt =====
-- What `GoogleDriveUploader::count` gives for a folder.
