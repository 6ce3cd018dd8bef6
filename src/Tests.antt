-- ===== src/Tests.antt =====
-- The theorems at concrete inputs.
mod Fixtures
mod Bytes
mod Blocks
mod Keys
mod Names
mod Derive
mod Chunks
mod Ctl
mod Chains
mod Nodes
mod Caches
