-- ===== src/Tests.antt =====
-- The theorems at concrete inputs.
mod Data
mod Chains
mod Encodings
mod Orphans
mod Pools
mod Scripts
mod Interp
mod Sets
mod Signatures
mod Blocks
mod Transactions
mod Views
