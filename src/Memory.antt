-- ===== src/Memory.antt =====
-- patches/hermes/memory_tencentdb: the modules of the memory plugin that are the repository's own.
pub mod Ingress
pub mod Trusted
pub mod Shards
pub mod Counted
