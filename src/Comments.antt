-- ===== src/Comments.antt =====
-- backend/apps/comments: mentions, policies and services.
pub mod Mentions
pub mod Services
pub mod Steps
pub mod Lifecycle
