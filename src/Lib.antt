-- ===== src/Lib.antt =====
-- The Orange SDK: a wallet that keeps small balances with a trusted custodian and moves them into
-- its own lightning wallet as they grow.
--
-- The parts and the files that model them:
--
--   Prelude         tests on numbers and texts, association lists, and `Run`, the monad of a state
--                   and a panic (`none`): an `expect` or `unwrap` that fails ends the run.
--   Platform        what the SDK calls: the key-value store, the hex crate, the crate's `Amount`. Each
--                   is a record of operations with a record of the laws that its documentation gives.
--                   `Reads` is `read_keys_bounded` of orange-sdk/src/dyn_store.rs, the reads that run
--                   side by side.
--   Store           orange-sdk/src/store.rs. `Types` has the data, `Ids` the text of a `PaymentId`,
--                   `World` the state of `TxMetadataStore` (the map in memory, the cached switch, and
--                   the writes made so far), `Metadata` its operations, `Mpp` the record of the two
--                   legs of a split payment, `Merge` the transaction that they are shown as, `Enabled`
--                   the switch `RebalanceEnabledCache`, `Restart` the constructor
--                   `TxMetadataStore::new`, and `SpliceOuts` the records of outgoing splices.
--   Events          orange-sdk/src/event.rs. `Queue` is `EventQueue` with its copy on disk, the buffer
--                   of split payments that are being set up, and the task that waits.
--   Rebalancer      graduated-rebalancer/src/lib.rs. `Wallets` has its traits as calls and answers,
--                   `Trusted` and `Onchain` the two kinds of rebalance.
--   Trigger         orange-sdk/src/rebalancer.rs, `OrangeTrigger`: when to rebalance, how much, and
--                   which payment is named as the cause; `Onchain` is the check of on-chain funds.
--   Handler         orange-sdk/src/rebalancer.rs, `OrangeRebalanceEventHandler`: what is recorded of a
--                   rebalance in the metadata and the event queue.
--   Ldk             orange-sdk/src/event.rs, `LdkEventHandler`, on the event queue, the watchers and
--                   the inbox of pending splices (orange-sdk/src/lightning_wallet.rs).
--   Wallet          orange-sdk/src/lib.rs: `PaymentInfo::build`, `Receive` with the receive URI, `Pay`
--                   with `Wallet::pay`, and `Mpp` with `try_mpp_bolt11`, a payment that is split.
--   Cashu           orange-sdk/src/trusted_wallet/cashu/cashu_store.rs, the Cashu wallet's database.
--                   `Records` reads and writes one record, `Proofs` is the snapshot of the proofs with
--                   its cache in memory (`Upsert` is `update_proofs_cache`, `Updates` the operations),
--                   `Quotes`, `Sagas`, `Counters`, `Keysets`, `Mints` and `Transactions` are the
--                   other records, and `Database` is the constructor. These modules use `Act`, the
--                   monad of a state and a `Result`.
--   Spark           orange-sdk/src/trusted_wallet/spark/spark_store.rs, the Spark wallet's storage:
--                   `Cells` (keys, cached items, revisions), `Payments`, `Metadata`, `Deposits` and
--                   `Sync`. Both stand on `Platform.Kv`, the key-value store with removals and lists.
--   Examples        the theorems at concrete inputs.
--
-- A function of the source is a definition of the same name, and the helpers beside it are the
-- nested parts of its body. A 32-byte id, hash or preimage, a txid, an invoice and an address are
-- numbers; an amount is its number of millisatoshis; 64-bit and 16-bit sums wrap, as in a release
-- build, or saturate where the source says so. `debug_assert!` panics where the field
-- `debug_assertions` of the backend says so, as in a debug build. A lock is held over one step. A
-- write's outcome is decided by the calls made so far, and a theorem that needs every write to
-- succeed says so. Loops are over lists; the loop of `read_keys_bounded` runs on fuel, one turn for
-- each key and one for the end, which is always enough; no write is made while its reads run, and a
-- parameter chooses which of them ends next.
--
-- A task that the code spawns runs after the step that spawns it; no other step stands inside a
-- modelled call of `pay` or `try_mpp_bolt11`.
--
-- An operation of the trusted wallets' stores that holds a lock is one step; the texts that errors
-- carry are left out; a read answers by the writes and removals made so far, so a read that fails and
-- succeeds when it is made again, with no write between, is not told apart.
--
-- Not modelled: the list of transactions, the adapters of the cdk crate and of the Spark SDK
-- (orange-sdk/src/trusted_wallet/cashu/mod.rs and spark/mod.rs), the dummy wallet, the migration of
-- old deposits, ldk-node and its set-up, the serialisation macros, logging, the runtime, and the
-- foreign bindings.
pub mod Prelude
pub mod Platform
pub mod Store
pub mod Events
pub mod Rebalancer
pub mod Trigger
pub mod Handler
pub mod Ldk
pub mod Wallet
pub mod Cashu
pub mod Spark
pub mod Examples
