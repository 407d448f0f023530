-- ===== src/Auth.antt =====
-- apps/api/nps/auth.py.
pub mod Tokens
pub mod Audit
pub mod Accounts
pub mod Scope
pub mod Sessions
