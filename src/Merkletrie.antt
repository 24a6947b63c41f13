-- ===== src/Merkletrie.antt =====
-- versionmgr/merkletrie: the nodes of a hashed tree, paths of nodes, and changes between two trees.
pub mod Noder
pub mod Change
