-- ===== src/Tests.antt =====
-- The theorems at concrete inputs.
mod Data
mod Bugs
mod Members
mod Pieces
mod Notices
mod Files
mod Lists
mod Environment
