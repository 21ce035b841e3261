-- ===== src/Snapshot.antt =====
-- The constructors by which a snapshot makes the state from the contract's records (abi/dex/Exchange.json).
pub mod Orders
pub mod Holdings
pub mod Contracts
