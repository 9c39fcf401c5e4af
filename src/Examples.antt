-- ===== src/Examples.antt =====
-- The theorems at concrete inputs.
mod Library
mod Server
pub mod Data
mod Loop
mod Talk
mod Resources
