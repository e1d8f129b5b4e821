-- ===== src/Paged.antt =====
-- src/common/paged.rs: the KV blocks of a layer and what sequences hold of them.
pub mod Allocator
pub mod Cache
pub mod Release
pub mod Truncate
pub mod Contig
pub mod Append
