-- ===== src/Store/Mpp.antt =====
-- Multi-path payments (orange-sdk/src/store.rs): `TxMetadataStore::record_mpp_leg`, which adds
-- the result of one leg to the shared entry and yields the combined outcome.
pub mod Once
pub mod Writes
pub mod Orders
use orange_sdk.Prelude.{
  ℕ, ◌+◌, ◌-◌, ◌^◌, min, Bool, true, false, Option, none, some, if◌then◌else◌, ◌==◌,
}
use orange_sdk.Prelude.Run.{Run, pure, ◌>>=◌, ◌>>◌}
use orange_sdk.Store.Types.{
  PaymentId, TxMetadata, TxType, mpp_payment, MppPayment, MppOutcome, id_eq,
}
use orange_sdk.Store.World.{Backend, Store, lookup, put, persist}

-- `u64::saturating_add`
abbrev pub saturating_add_u64 : ℕ → ℕ → ℕ
saturating_add_u64 a b = min (a + b) (2 ^ 64 - 1)

-- What is recorded of the leg: its fee and preimage, or its failure.
unfoldable pub apply_leg : Bool → Option (ℕ × ℕ) → MppPayment → MppPayment
apply_leg is_trusted_leg none p = record p { failed = true }
apply_leg true (some (fee_msat, leg_preimage)) p = record p {
  trusted_fee_msat = some fee_msat;
  preimage = some leg_preimage;
}
apply_leg false (some (fee_msat, leg_preimage)) p = record p {
  lightning_fee_msat = some fee_msat;
  preimage = some leg_preimage;
}

-- Both fees known: the payment succeeded. `none` is the panic of `preimage.expect(..)`.
settle_fees : MppPayment → Option ℕ → Option ℕ → Option ℕ → Option (Option MppOutcome × MppPayment)
settle_fees p (some trusted_fee) (some lightning_fee) (some preimage) = some (
  some (
      MppOutcome.succeeded p.lightning_leg preimage (saturating_add_u64 trusted_fee lightning_fee)),
  record p { finalized = true },
)
settle_fees p (some trusted_fee) (some lightning_fee) none = none
settle_fees p _ _ _ = some (none, p)

unfoldable pub settle : MppPayment → Option (Option MppOutcome × MppPayment)
unfolding settle_fees
settle p =
    if p.failed
    then some (some (MppOutcome.failed p.lightning_leg), record p { finalized = true })
    else settle_fees p p.trusted_fee_msat p.lightning_fee_msat p.preimage

abbrev pub tag_outcome : PaymentId → Option MppOutcome → Option (PaymentId × MppOutcome)
tag_outcome surface_id none = none
tag_outcome surface_id (some o) = some (surface_id, o)

-- The mutated entry is put back in the map and persisted, whatever the outcome.
pub store_settled :
    Backend
    → PaymentId
    → TxMetadata
    → Option (Option MppOutcome × MppPayment)
    → Run Store (Option (PaymentId × MppOutcome))
store_settled api surface_id m none s = none
store_settled api surface_id m (some (outcome, p)) s =
    (do
      put surface_id (record m { ty = mpp_payment p })
      persist api surface_id (record m { ty = mpp_payment p })
      pure (tag_outcome surface_id outcome))
      s

record_on :
    Backend
    → PaymentId
    → Bool
    → Option (ℕ × ℕ)
    → TxMetadata
    → TxType
    → Run Store (Option (PaymentId × MppOutcome))
record_on api surface_id is_trusted_leg success m (mpp_payment p) =
    if p.finalized
    then pure none
    else store_settled api surface_id m (settle (apply_leg is_trusted_leg success p))
record_on api surface_id is_trusted_leg success m _ = pure none

-- The combined payment that a leg's own entry names.
unfoldable pub surface_of : Option TxMetadata → Option PaymentId
surface_of none = none
surface_of (some m) = elim m.ty [ mpp_payment p ↦ some p.surface_id | _ ↦ none ]

record_surface :
    Backend
    → PaymentId
    → Option (ℕ × ℕ)
    → Option PaymentId
    → Run Store (Option (PaymentId × MppOutcome))
record_surface api leg_id success none s = some (none, s)
record_surface api leg_id success (some surface_id) s = elim (lookup surface_id s) [
  | none ↦ some (none, s)
  | some m ↦ record_on api surface_id (leg_id == surface_id) success m m.ty s
]

-- The record lock is held over the whole call, so a call is one step.
unfoldable pub record_mpp_leg :
    Backend → PaymentId → Option (ℕ × ℕ) → Run Store (Option (PaymentId × MppOutcome))
unfolding surface_of record_surface record_on store_settled
record_mpp_leg api leg_id success s =
    record_surface api leg_id success (surface_of (lookup leg_id s)) s
