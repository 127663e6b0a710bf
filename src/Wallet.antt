-- ===== src/Wallet.antt =====
-- The wallet's entry points (orange-sdk/src/lib.rs).
pub mod PaymentInfo
pub mod Receive
pub mod Mpp
pub mod Pay
