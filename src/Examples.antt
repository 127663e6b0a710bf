-- ===== src/Examples.antt =====
-- The theorems at concrete inputs, and runs of the code: an in-memory key-value store, a hex crate
-- and amounts that meet the laws, and states to apply them to.
pub mod Fixtures
pub mod StoreRuns
pub mod RestartRuns
pub mod QueueRuns
pub mod RebalancerRuns
pub mod WalletRuns
pub mod NodeRuns
pub mod PayRuns
pub mod WalletKv
pub mod CashuFixtures
pub mod CashuRuns
pub mod SparkRuns
