-- ===== src/Notifications.antt =====
-- backend/apps/notifications: the dispatch of events, the recipients, and the task that creates notifications.
pub mod Notify
pub mod Recipients
pub mod Tasks
pub mod Emails
pub mod Inbox
pub mod Preferences
