-- ===== src/Tests/Directory.antt =====
-- The directory entry of a user named a.
