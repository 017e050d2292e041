-- ===== src/Mover.antt =====
-- src/bin/file-mover.rs, part by part.
pub mod Jobs
pub mod Names
pub mod Walk
pub mod Run
pub mod Delete
pub mod Requests
pub mod Search
pub mod Listing
pub mod Put
pub mod Route
pub mod Start
