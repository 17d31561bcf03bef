-- ===== src/Launch.antt =====
-- Workspaces on behalf of their users: the class `WorkspaceService` of
-- apps/api/src/services/workspaceService.ts.
pub mod Image
pub mod Rows
pub mod Assign
pub mod Service
pub mod Terminate
pub mod Named
pub mod Untouched
pub mod Replay
pub mod Quota
pub mod Stranded
pub mod Ended
mod Tests
