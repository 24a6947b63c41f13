-- ===== src/Version.antt =====
-- versionmgr: the history of a repository and the merging of its versions.
pub mod Objects
pub mod Worktree
pub mod Repo
pub mod Changes
pub mod History
mod Tests
