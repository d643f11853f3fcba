-- ===== src/Paging.antt =====
-- The page table walks and permission bits of libs/page_table_libs/page_table_utils.c.
pub mod Bits
pub mod Walk
pub mod Reads
pub mod Flip
pub mod Layers
pub mod Change
pub mod Loops
pub mod Areas
pub mod Unreached
pub mod Rules
pub mod Denied
pub mod ReadOnly
pub mod Flips
pub mod UserMap
pub mod Shared
