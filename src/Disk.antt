-- ===== src/Disk.antt =====
-- hm4/disk: the tables that a list is written to.
pub mod FileBuilder
pub mod DiskTable
pub mod Search
pub mod Common
pub mod Near
pub mod Exact
pub mod HotLine
pub mod HashIndex
pub mod DiskList
pub mod BTree
