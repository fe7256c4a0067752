-- ===== src/Core.antt =====
-- backend/apps/core: what every part of the server relies on.
pub mod Environ
pub mod TarSafety
pub mod Urls
pub mod Checks
