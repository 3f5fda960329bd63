-- ===== src/Tests.antt =====
-- Tests and concrete runs: images, a shared cache, files and a registry, built byte by byte.
pub mod Bytes
pub mod Kernel
pub mod Image
pub mod Cache
pub mod Disk
pub mod FileRuns
pub mod ImageRuns
pub mod SymbolRuns
pub mod CacheRuns
pub mod CodeRuns
pub mod WriteRuns
pub mod RebindRuns
pub mod SectionRuns
pub mod GlobalRuns
