-- ===== src/Resource.antt =====
-- Resource packages, tools/res2c/resource.c and tools/res2c/resource.h: the files mapped so far,
-- searches in mapped memory, and strings by their identifiers.
pub mod Files
pub mod Memory
pub mod Search
pub mod Package
mod Examples
