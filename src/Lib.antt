-- ===== src/Lib.antt =====
-- jiaozifs keeps versions of data sets. This library models its permission checks, the walks over
-- the history of commits with the search for merge bases, the pairing of changes for a merge of two
-- versions, and the work tree that writes changes into the stored trees.
--
-- The parts and the files that model them:
-- Prelude and its children: shared types, tests and lemmas. A Go string or byte slice is `Text`,
--   the list of its bytes. An error of a function is a case of `Result`.
-- Utf8 and Strings: the parts of Go's `unicode/utf8` and `strings` that the program uses.
-- Auth/Wildcard: auth/rbac/wildcard/match.go. `match` is `Match`, `scan_chunk` and `match_chunk`
--   are its helpers, `skipping` and `advance` the loops of its body. Auth/Wildcard/Language is an
--   independent meaning of patterns.
-- Auth/Arn: auth/rbac/arn.go, `ParseARN` and `ArnMatch`.
-- Auth/Model, Auth/Actions, Auth/Statements: models/rbacmodel and auth/rbac/statements.go, the
--   data of policies.
-- Auth/Check: `checkPermissions` of auth/rbac/rbac.go. A policy speaks of a permission if the
--   resource matches as a resource name and an action matches as a pattern.
-- Auth/Db: the tables behind the checks, with the conditions of the queries of
--   models/rbacmodel/policies.go, models/rbacmodel/group.go, models/members.go and
--   models/repository.go. The generator of identifiers of the database is a parameter.
-- Auth/Rbac: `InitRbac`, `Authorize` and `AuthorizeMember` of auth/rbac/rbac.go, which fetch the
--   policies from the tables and hand them to `checkPermissions`.
-- Merkletrie/Noder and Merkletrie/Change: versionmgr/merkletrie/noder and
--   versionmgr/merkletrie/change.go, the paths of a tree and what a change did to one.
-- Strings/Trim: `strings.TrimSpace` and `strings.Trim`.
-- Version/Objects: models/tree.go, the entries of a tree, blobs, trees and the table with the rows of
--   both. The sum of `crypto/md5` is a parameter. Version/Objects/Program is the interface
--   `IFileTreeRepo`: a function that uses it is a program of queries and inserts, and `run` is what
--   the program does with the table.
-- Version/Worktree: versionmgr/tree_node.go and versionmgr/worktree.go. `find_segs` is the loop of
--   `findNodeByPath`; the child Write is `AddLeaf` and `ReplaceLeaf`, and Remove, Read and Apply are `RemoveEntry`, `Ls` with `FindBlob`, and `ApplyOneChange`. That every row inserted reads
--   back, `ReadsBack`, is a hypothesis where two rows with one hash would be told apart by nothing else.
-- Version/Changes: versionmgr/changes.go and versionmgr/conflict.go. Two sets of changes are
--   paired by path, the pairs are tested for conflicts, and a resolver settles these.
-- Version/Repo: the tables of models/branch.go, models/tag.go, models/wip.go, models/commit.go and
--   models/user.go, with the work repository of versionmgr/work_repo.go in its children. State is
--   the cache of a `WorkRepository`, and an operation takes the cache with the database to a result
--   and both of them afterwards; an error takes a transaction back, and leaves the cache. Operations
--   is `CheckOut`; Write is `RootTree`, `ChangeInWip`, `CommitChanges` and `ChangeAndCommit`; Refs
--   is what creates and deletes wips, branches and tags. `md5`, `uuid_generate`, the time of an
--   operation and the reading of hexadecimal digits are parameters.
-- Version/History: versionmgr/commit_node.go, commits and the store that finds them, with
--   the loop `ForEach` over an iterator. Version/History/Walker is the interface of an iterator: one
--   `Next` takes a pending commit and makes its parents pending. Bfs, Preorder and Postorder fill it
--   with versionmgr/commit_walker_bfs.go and the two walks of versionmgr/commit_walker.go.
--   Callback and Ancestor are `IsAncestor` and `ancestorsIndex` of versionmgr/merge_base.go, and
--   MergeBase is the rest of that file with the walk of versionmgr/commit_walker_bfs_filtered.go.
-- Filemode: models/filemode/filemode.go, git's modes with their text and the file system's.
-- HttpRange: utils/httputil/range.go, the range of bytes that a request asks for.
--
-- Fuel: the outer loop of `Match` takes as much as the pattern has bytes, since every round takes
-- a byte off it; the loop over pairs takes one unit for each change before a cursor, since every
-- pair uses up at least one; a walk over the history takes more than the store has commits, since
-- every round marks one that was not marked. That these are enough is part of the results.
--
-- Left out: failures of the database, times of creation, logging and locks. The web
-- interface, the controllers, the block adapters and the configuration are not modelled, since
-- they mostly call third-party packages. The walk by time of versionmgr/commit_walker_ctime.go is
-- not modelled, since its heap is a third-party package. The fuel of the filtered walk and of the
-- loop over positions is not shown to be enough. The difference of trees is not modelled, nor is
-- what needs it, `GetTreeManifest` and `Diff` of the work tree and `Revert`, `Merge` and the diffs
-- of the work repository, nor are its archives.
pub mod Prelude
pub mod Utf8
pub mod Strings
pub mod Tests
pub mod Auth
pub mod Filemode
pub mod HttpRange
pub mod Merkletrie
pub mod Version
