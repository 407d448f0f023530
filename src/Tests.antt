-- ===== src/Tests.antt =====
-- Sample data, and the theorems at concrete inputs.
pub mod Samples
mod Auth
mod Chunking
mod Jobs
mod Leases
mod Plans
mod Requests
mod System
mod Upload
mod Files
mod Outputs
mod Artifacts
mod Api
mod Routes
mod Steps
