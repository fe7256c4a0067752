-- ===== src/Bugs.antt =====
-- backend/apps/bugs: the workflow, the policies and the services on bugs.
pub mod Selectors
pub mod Serializers
pub mod Workflow
pub mod Policies
pub mod Monad
pub mod Services
pub mod Versions
pub mod Views
pub mod Transitions
pub mod Outcome
pub mod Numbers
