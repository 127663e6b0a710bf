-- ===== src/Store.antt =====
-- The transaction metadata of the wallet (orange-sdk/src/store.rs). The data types and the
-- operations are in the children, and so are their proofs.
pub mod Types
pub mod Ids
pub mod World
pub mod Wrote
pub mod Metadata
pub mod Mpp
pub mod Merge
pub mod Enabled
pub mod Restart
pub mod SpliceOuts
