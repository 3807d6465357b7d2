-- ===== src/Shell.antt =====
-- frontend/src/admin/shell/AdminLayout.tsx: the services of the signed-in shell. Badge is the summary
-- with the unread count, Guard the question before unsaved changes are left, Notice the status line.
pub mod Badge
pub mod Guard
pub mod Notice
pub mod SignOut
