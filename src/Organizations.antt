-- ===== src/Organizations.antt =====
-- backend/apps/organizations, with the parts of accounts/services.py and projects/services.py that
-- it calls: members, invitations, and the administrator that every organization keeps.
pub mod Services
pub mod Administrators
pub mod Invitations
pub mod Slugs
pub mod Setup
