-- ===== src/Examples/StoreRuns.antt =====
-- The metadata store at concrete inputs.
use orange_sdk.Prelude.{
  ◌≡◌, ◌≤◌, refl, arith, true, false, none, some, List, [], ◌∷◌, ok, err, inl, ◌⊎◌,
}
use orange_sdk.Prelude.Assoc.{get, insert}
use orange_sdk.Prelude.Run.{Returns}
use orange_sdk.Store.Types.{
  PaymentId, self_custodial, trusted, TxStatus, TxMetadata, TxType, payment, mpp_payment,
  MppPayment, MppOutcome, MppLegKind, id_beq, outgoing_lightning_bolt11, Transaction, PaymentType,
  is_payment,
}
use orange_sdk.Store.Ids.{to_string, from_str, from_str-to_string}
use orange_sdk.Store.World.{Backend, Store, lookup, write_or_panic, persist, kv_write}
use orange_sdk.Store.Wrote.{IsMirrored, wrote}
use orange_sdk.Store.Metadata.{set_preimage, set_tx_caused_rebalance_with_splice}
use orange_sdk.Store.Metadata.Mirror.{
  StoreOp, inserts, reports, promotes, sets_preimage, run_ops, run_ops-IsMirrored, Mirrors,
}
use orange_sdk.Store.Metadata.Effects.{set_tx_caused_rebalance_with_splice_lem, triggering, spliced}
use orange_sdk.Store.Metadata.Preimage.{set_preimage_once}
use orange_sdk.Store.Mpp.{record_mpp_leg, apply_leg, settle}
use orange_sdk.Store.Mpp.Once.{record_all, count_outcomes, is_finalized, record_all-once}
use orange_sdk.Store.Mpp.Orders.{IsLeg, IsFresh, both_legs_succeed, failed_leg_settles}
use orange_sdk.Store.Merge.{
  merge_two, accumulate, empty_merge, into_transaction, IsCombined, into_transaction-IsCombined,
  accumulate_comm,
}
use orange_sdk.Store.Enabled.{
  BoolLaws, IsCached, get_enabled, set_enabled, restarted, get_enabled-set_enabled,
  get_enabled_default,
}
use orange_sdk.Examples.Fixtures.{
  memory_laws, memory_backend, memory_reliable, tally_hex, tally_laws, msat_api, msat_laws,
  empty_store, find_write,
}

from_str-to_string_example :
    from_str tally_hex (to_string tally_hex (trusted 3)) ≡ some (ok (trusted 3))
from_str-to_string_example = from_str-to_string tally_hex tally_laws (trusted 3)

abbrev pub sent : TxMetadata
sent = record { time = 5; ty = payment (outgoing_lightning_bolt11 none) }

-- One payment that was stored.
abbrev pub one_payment : Store
one_payment = wrote memory_backend (trusted 1) sent empty_store

pub empty-IsMirrored : IsMirrored memory_backend empty_store
unfolding find_write get
empty-IsMirrored = record { mirrors = λ id. refl }

-- The same store in a release build.
abbrev release_backend : Backend
release_backend = record memory_backend { debug_assertions = false }

released-IsMirrored : IsMirrored release_backend empty_store
unfolding find_write get
released-IsMirrored = record { mirrors = λ id. refl }

-- The second insert meets the entry of the first one, and the legs of no payment are reported.
abbrev some_ops : List StoreOp
some_ops =
    inserts (trusted 1) sent
    ∷ inserts (trusted 1) sent
    ∷ sets_preimage (trusted 1) 9
    ∷ reports (trusted 1) none
    ∷ promotes (trusted 1)
    ∷ []

run_ops-IsMirrored_example :
    Returns
      (Mirrors release_backend memory_laws tally_laws memory_reliable refl)
      (run_ops release_backend some_ops empty_store)
run_ops-IsMirrored_example =
    run_ops-IsMirrored release_backend memory_laws tally_laws memory_reliable refl some_ops
      empty_store released-IsMirrored

abbrev preimage_store : Store
preimage_store =
    wrote memory_backend (trusted 1)
      (record sent { ty = payment (outgoing_lightning_bolt11 (some 9)) }) one_payment

set_preimage_once_example :
    set_preimage memory_backend (trusted 1) 8 preimage_store ≡ some (ok tt, preimage_store)
set_preimage_once_example =
    set_preimage_once memory_backend memory_reliable (trusted 1) 9 8 one_payment preimage_store
      (unfold set_preimage write_or_panic persist kv_write get insert id_beq to_string in refl)

abbrev splice_entry : TxMetadata
splice_entry = record { time = 6; ty = TxType.onchain_to_lightning 2 1 }

with_splice_example :
    ((m : TxMetadata) × (t : PaymentType) × (lookup (trusted 1) one_payment ≡ some m)
      × (m.ty ≡ payment t)
      × (set_tx_caused_rebalance_with_splice memory_backend
            (trusted 1)
            (self_custodial 2)
            splice_entry
            one_payment
          ≡ some (
            ok tt,
            spliced memory_backend
                (trusted 1)
                (triggering m t)
                (self_custodial 2)
                splice_entry
                one_payment,
          )))
    ⊎ (((m : TxMetadata) → lookup (trusted 1) one_payment ≡ some m → is_payment m.ty ≡ false)
        × (set_tx_caused_rebalance_with_splice memory_backend
              (trusted 1)
              (self_custodial 2)
              splice_entry
              one_payment
            ≡ some (err tt, one_payment)))
with_splice_example =
    set_tx_caused_rebalance_with_splice_lem memory_backend memory_reliable (trusted 1)
      (self_custodial 2) splice_entry one_payment

-- A payment of 200,000 msat whose legs are `trusted 7` and `self_custodial 9`.
abbrev legs : MppPayment
legs = record {
  surface_id = trusted 7;
  lightning_leg = 9;
  total_amount_msat = 200000;
  ty = outgoing_lightning_bolt11 none;
  trusted_fee_msat = none;
  lightning_fee_msat = none;
  preimage = none;
  failed = false;
  finalized = false;
}

abbrev legs_entry : TxMetadata
legs_entry = record { time = 1; ty = mpp_payment legs }

abbrev leg_store : Store
leg_store = record empty_store {
  tx_metadata = (trusted 7, legs_entry) ∷ (self_custodial 9, legs_entry) ∷ [];
}

trusted_leg : IsLeg (trusted 7) (trusted 7) legs_entry legs leg_store
unfolding get id_beq
trusted_leg = record {
  own = legs_entry;
  own_mpp = legs;
  has_own = refl;
  own_ty = refl;
  names = refl;
  has_shared = refl;
  shared_ty = refl;
}

lightning_leg : IsLeg (self_custodial 9) (trusted 7) legs_entry legs leg_store
unfolding get id_beq
lightning_leg = record {
  own = legs_entry;
  own_mpp = legs;
  has_own = refl;
  own_ty = refl;
  names = refl;
  has_shared = refl;
  shared_ty = refl;
}

legs-IsFresh : IsFresh (trusted 7) legs
legs-IsFresh = record {
  surfaced = refl;
  no_trusted_fee = refl;
  no_lightning_fee = refl;
  not_failed = refl;
  not_finalized = refl;
}

distinct_legs : id_beq (self_custodial 9) (trusted 7) ≡ false
unfolding id_beq
distinct_legs = refl

abbrev won : List (PaymentId × MppOutcome)
won = (trusted 7, MppOutcome.succeeded 9 4 3000) ∷ []

both_legs_succeed_example :
    Returns
      (λ out _. out ≡ won)
      (record_all memory_backend
        ((trusted 7, some (1000, 4)) ∷ (self_custodial 9, some (2000, 4)) ∷ [])
        leg_store)
    × Returns
        (λ out _. out ≡ won)
        (record_all memory_backend
          ((self_custodial 9, some (2000, 4)) ∷ (trusted 7, some (1000, 4)) ∷ [])
          leg_store)
both_legs_succeed_example =
    both_legs_succeed memory_backend memory_reliable (trusted 7) (self_custodial 9) legs_entry legs
      leg_store 1000 2000 4 trusted_leg lightning_leg distinct_legs legs-IsFresh

failed_leg_settles_example :
    Returns
      (λ r s'.
        (r ≡ some (trusted 7, MppOutcome.failed 9))
        × (record_mpp_leg memory_backend (trusted 7) (some (5, 4)) s' ≡ some (none, s')))
      (record_mpp_leg memory_backend (self_custodial 9) none leg_store)
failed_leg_settles_example =
    failed_leg_settles memory_backend memory_reliable (self_custodial 9) (trusted 7) legs_entry legs
      leg_store (trusted 7) (some (5, 4)) lightning_leg trusted_leg refl refl

abbrev failed_store : Store
failed_store =
    wrote memory_backend (trusted 7)
      (record legs_entry { ty = mpp_payment (record legs { failed = true; finalized = true }) })
      leg_store

record_all-once_example :
    (count_outcomes (trusted 7) ((trusted 7, MppOutcome.failed 9) ∷ []) ≤ 1)
    × (is_finalized (trusted 7) leg_store ≡ true
        → count_outcomes (trusted 7) ((trusted 7, MppOutcome.failed 9) ∷ []) ≡ 0)
record_all-once_example =
    record_all-once memory_backend (trusted 7) ((trusted 7, none) ∷ (self_custodial 9, none) ∷ [])
      leg_store failed_store ((trusted 7, MppOutcome.failed 9) ∷ [])
      (unfold record_all record_mpp_leg apply_leg settle write_or_panic persist kv_write get insert
          id_beq in
        refl)

into_transaction-IsCombined_example :
    (tx : Transaction) × (into_transaction msat_api
        (merge_two 200000 1000 2000 TxStatus.completed TxStatus.pending
          (outgoing_lightning_bolt11 none)
          (outgoing_lightning_bolt11 (some 4))
          10
          7)
        (trusted 7)
      ≡ some tx)
    × IsCombined (trusted 7) 200000 1000 2000 TxStatus.completed TxStatus.pending 10 7 tx
into_transaction-IsCombined_example =
    into_transaction-IsCombined msat_api msat_laws (trusted 7) 200000 1000 2000 TxStatus.completed
      TxStatus.pending (outgoing_lightning_bolt11 none) (outgoing_lightning_bolt11 (some 4)) 10 7
      (omega arith) (omega arith) (omega arith)

accumulate_comm_example :
    accumulate MppLegKind.lightning 200000 2000 TxStatus.pending
      (outgoing_lightning_bolt11 (some 4))
      7
      (accumulate MppLegKind.trusted 200000 1000 TxStatus.completed
        (outgoing_lightning_bolt11 none)
        10
        empty_merge)
    ≡ accumulate MppLegKind.trusted 200000 1000 TxStatus.completed
        (outgoing_lightning_bolt11 none)
        10
        (accumulate MppLegKind.lightning 200000 2000 TxStatus.pending
          (outgoing_lightning_bolt11 (some 4))
          7
          empty_merge)
accumulate_comm_example =
    accumulate_comm 200000 1000 2000 TxStatus.completed TxStatus.pending
      (outgoing_lightning_bolt11 none) (outgoing_lightning_bolt11 (some 4)) 10 7 (inl (refl, refl))

bool_codec : BoolLaws memory_backend
bool_codec true = refl
bool_codec false = refl

get_enabled-set_enabled_example :
    Returns
      (λ _ s'.
        IsCached memory_backend false s'
        × (get_enabled memory_backend s' ≡ some (false, s'))
        × (get_enabled memory_backend (restarted s') ≡ some (false, s')))
      (set_enabled memory_backend false one_payment)
get_enabled-set_enabled_example =
    get_enabled-set_enabled memory_backend memory_laws memory_reliable false one_payment bool_codec

get_enabled_default_example :
    Returns
      (λ v s'. (v ≡ true) × IsCached memory_backend true s')
      (get_enabled memory_backend empty_store)
get_enabled_default_example =
    get_enabled_default memory_backend memory_laws memory_reliable empty_store refl
      (unfold find_write in refl)
