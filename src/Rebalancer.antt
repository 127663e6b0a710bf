-- ===== src/Rebalancer.antt =====
-- The graduated rebalancer (graduated-rebalancer/src/lib.rs). The interfaces that it calls are in
-- `Wallets`, its two kinds of rebalance in the other children.
pub mod Wallets
pub mod Trusted
pub mod Onchain
