-- ===== src/Upload.antt =====
-- apps/api/nps/upload.py: what an upload must pass before it is parsed.
pub mod Archive
pub mod Names
pub mod Scan
