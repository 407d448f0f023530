-- ===== src/Chunking.antt =====
-- apps/api/nps/chunking.py: a document is cut into chunks, and plans refer to them.
pub mod Tokens
pub mod Document
pub mod Evidence
