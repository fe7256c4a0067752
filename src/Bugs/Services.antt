-- ===== src/Bugs/Services.antt =====
-- backend/apps/bugs/services.py, one module for each group of services.
pub mod Create
pub mod Update
pub mod Duplicates
pub mod Transition
pub mod Assign
pub mod Archive
pub mod Tags
pub mod Relationships
pub mod Removal
