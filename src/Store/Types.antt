-- ===== src/Store/Types.antt =====
-- The data of orange-sdk/src/store.rs: statuses, payment ids, payment types and metadata entries.
-- A 32-byte id, hash or preimage is a number: the code compares and copies them, and prints them
-- in hex. A `Duration` is a number.
use orange_sdk.Prelude.{ℕ, Bool, true, false, Option, nat_beq, PartialEq, ◌≡◌, ◌↔◌, arith}

pub data TxStatus : Type 0 where
  pending completed failed : TxStatus

abbrev pub is_completed : TxStatus → Bool
is_completed TxStatus.completed = true
is_completed _ = false

abbrev pub is_failed : TxStatus → Bool
is_failed TxStatus.failed = true
is_failed _ = false

pub data PaymentId : Type 0 where
  self_custodial : ℕ → PaymentId
  trusted : ℕ → PaymentId

-- The derived `PartialEq`.
unfoldable pub id_beq : PaymentId → PaymentId → Bool
id_beq (self_custodial a) (self_custodial b) = nat_beq a b
id_beq (trusted a) (trusted b) = nat_beq a b
id_beq _ _ = false

pub id_beq_iff : (a b : PaymentId) → (id_beq a b ≡ true) ↔ (a ≡ b)
unfolding id_beq
id_beq_iff (self_custodial a) (self_custodial b) = ground arith
id_beq_iff (trusted a) (trusted b) = ground arith
id_beq_iff (self_custodial a) (trusted b) = ground arith
id_beq_iff (trusted a) (self_custodial b) = ground arith

instance abbrev pub id_eq : PartialEq PaymentId
id_eq = record { beq = id_beq; beq_iff = id_beq_iff }

-- The preimage of an outgoing lightning payment, the txid of an on-chain one.
pub data PaymentType : Type 0 where
  outgoing_lightning_bolt12 : Option ℕ → PaymentType
  outgoing_lightning_bolt11 : Option ℕ → PaymentType
  outgoing_on_chain : Option ℕ → PaymentType
  incoming_on_chain : Option ℕ → PaymentType
  incoming_lightning : PaymentType
  trusted_internal : PaymentType

-- The fields of `TxType::MppPayment`.
pub record MppPayment : Type 0 where
  pub surface_id : PaymentId
  pub lightning_leg : ℕ
  pub total_amount_msat : ℕ
  pub ty : PaymentType
  pub trusted_fee_msat : Option ℕ
  pub lightning_fee_msat : Option ℕ
  pub preimage : Option ℕ
  pub failed : Bool
  pub finalized : Bool

pub data TxType : Type 0 where
  -- The trusted payment, the lightning payment and the payment that triggered the transfer.
  trusted_to_lightning : ℕ → ℕ → PaymentId → TxType
  -- The txid of the channel and that of the triggering payment.
  onchain_to_lightning : ℕ → ℕ → TxType
  payment_triggering_transfer_lightning : PaymentType → TxType
  payment : PaymentType → TxType
  pending_rebalance : TxType
  mpp_payment : MppPayment → TxType

pub is_rebalance : TxType → Bool
is_rebalance pending_rebalance = true
is_rebalance (trusted_to_lightning _ _ _) = true
is_rebalance (onchain_to_lightning _ _) = true
is_rebalance _ = false

-- `matches!(ty, TxType::Payment { .. })`
abbrev pub is_payment : TxType → Bool
is_payment (payment _) = true
is_payment _ = false

pub record TxMetadata : Type 0 where
  pub time : ℕ
  pub ty : TxType

pub data MppOutcome : Type 0 where
  -- The payment hash, the preimage and the fee in millisatoshis.
  succeeded : ℕ → ℕ → ℕ → MppOutcome
  failed : ℕ → MppOutcome

pub data MppLegKind : Type 0 where
  trusted lightning : MppLegKind

-- A transaction as it is surfaced to the user.
pub record Transaction : Type 0 where
  pub id : PaymentId
  pub status : TxStatus
  pub outbound : Bool
  pub amount : Option ℕ
  pub fee : Option ℕ
  pub payment_type : PaymentType
  pub time_since_epoch : ℕ
