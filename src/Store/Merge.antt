-- ===== src/Store/Merge.antt =====
-- `MppMerge` (orange-sdk/src/store.rs): the two legs of a multi-path payment, folded back into
-- the one transaction that is surfaced.
use orange_sdk.Prelude.{
  ℕ, ◌+◌, ◌≤◌, ◌≡◌, refl, Bool, true, false, ◌&&◌, ◌||◌, Option, none, some, arith, min,
  if◌then◌else◌, unwrap_or, ◌⊎◌, ◌^◌, ◌-◌,
}
use orange_sdk.Platform.{AmountApi, AmountLaws}
use orange_sdk.Store.Types.{
  TxStatus, PaymentType, PaymentId, Transaction, MppLegKind, is_completed, is_failed,
  outgoing_lightning_bolt12, outgoing_lightning_bolt11,
}
use orange_sdk.Store.Mpp.{saturating_add_u64}

pub record MppLeg : Type 0 where
  pub status : TxStatus
  pub fee_msat : ℕ

pub record MppMerge : Type 0 where
  pub total_amount_msat : ℕ
  pub trusted : Option MppLeg
  pub lightning : Option MppLeg
  pub payment_type : Option PaymentType
  pub time : Option ℕ

-- `MppMerge::default()`
abbrev pub empty_merge : MppMerge
empty_merge = record {
  total_amount_msat = 0;
  trusted = none;
  lightning = none;
  payment_type = none;
  time = none;
}

abbrev pub has_preimage : PaymentType → Bool
has_preimage (outgoing_lightning_bolt11 (some _)) = true
has_preimage (outgoing_lightning_bolt12 (some _)) = true
has_preimage _ = false

-- The slot of the leg's wallet.
set_leg : MppLegKind → MppLeg → MppMerge → MppMerge
set_leg MppLegKind.trusted leg g = record g { trusted = some leg }
set_leg MppLegKind.lightning leg g = record g { lightning = some leg }

-- The earlier of two times.
earlier : Option ℕ → ℕ → ℕ
earlier none t = t
earlier (some u) t = min u t

-- The payment type is replaced if there is none yet, or if the new one carries the preimage.
merge_type : Option PaymentType → PaymentType → Option PaymentType
merge_type none ty = some ty
merge_type (some old) ty = if has_preimage ty then some ty else some old

unfoldable pub accumulate : MppLegKind → ℕ → ℕ → TxStatus → PaymentType → ℕ → MppMerge → MppMerge
unfolding set_leg earlier merge_type
accumulate kind total fee status ty time g =
    let g' =
      set_leg kind (record { status = status; fee_msat = fee })
        (record g { total_amount_msat = total }) in
    record g' { payment_type = merge_type g.payment_type ty; time = some (earlier g.time time) }

abbrev leg_status : Option MppLeg → Option TxStatus
leg_status none = none
leg_status (some l) = some l.status

abbrev status_is : (TxStatus → Bool) → Option TxStatus → Bool
status_is test none = false
status_is test (some x) = test x

unfoldable pub merged_status : MppMerge → TxStatus
merged_status g =
    let t = leg_status g.trusted in
    let l = leg_status g.lightning in
    if status_is is_failed t || status_is is_failed l
    then TxStatus.failed
    else if status_is is_completed t && status_is is_completed l
    then TxStatus.completed
    else TxStatus.pending

abbrev leg_fee : Option MppLeg → ℕ
leg_fee none = 0
leg_fee (some l) = l.fee_msat

-- `none` is the panic of `Amount::from_milli_sats(..).expect("valid amount")`.
build_transaction : MppMerge → PaymentId → Option ℕ → Option ℕ → Option Transaction
unfolding merged_status
build_transaction g id (some amount) (some fee) = some (record {
  id = id;
  status = merged_status g;
  outbound = true;
  amount = some amount;
  fee = some fee;
  payment_type = unwrap_or g.payment_type (outgoing_lightning_bolt11 none);
  time_since_epoch = unwrap_or g.time 0;
})
build_transaction g id _ _ = none

unfoldable pub into_transaction : AmountApi → MppMerge → PaymentId → Option Transaction
unfolding build_transaction
into_transaction api g id =
    build_transaction g id (api.from_milli_sats g.total_amount_msat)
      (api.from_milli_sats (saturating_add_u64 (leg_fee g.trusted) (leg_fee g.lightning)))

-- Both legs folded in, the trusted one first.
abbrev pub merge_two :
    ℕ → ℕ → ℕ → TxStatus → TxStatus → PaymentType → PaymentType → ℕ → ℕ → MppMerge
merge_two total f g st sl ty ty' t u =
    accumulate MppLegKind.lightning total g sl ty' u
      (accumulate MppLegKind.trusted total f st ty t empty_merge)

-- The transaction that a user is told of, described from the two legs.
pub record IsCombined (id : PaymentId) (total f g : ℕ) (st sl : TxStatus) (t u : ℕ)
    (tx : Transaction) : Type 0 where
  pub same_id : tx.id ≡ id
  pub outbound : tx.outbound ≡ true
  pub amount : tx.amount ≡ some total
  pub fees_added : tx.fee ≡ some (f + g)
  pub earlier_time : tx.time_since_epoch ≡ min t u
  pub completed_iff : is_completed tx.status ≡ (is_completed st && is_completed sl)
  pub failed_iff : is_failed tx.status ≡ (is_failed st || is_failed sl)

status_completed :
    (total f g : ℕ) (st sl : TxStatus) (ty ty' : PaymentType) (t u : ℕ)
    → is_completed (merged_status (merge_two total f g st sl ty ty' t u))
      ≡ (is_completed st && is_completed sl)
unfolding merged_status accumulate
status_completed total f g st sl ty ty' t u = ground arith

status_failed :
    (total f g : ℕ) (st sl : TxStatus) (ty ty' : PaymentType) (t u : ℕ)
    → is_failed (merged_status (merge_two total f g st sl ty ty' t u))
      ≡ (is_failed st || is_failed sl)
unfolding merged_status accumulate
status_failed total f g st sl ty ty' t u = ground arith

built :
    (g : MppMerge) (id : PaymentId) (amount fee : ℕ)
    → (tx : Transaction) × (build_transaction g id (some amount) (some fee) ≡ some tx)
      × (tx.id ≡ id)
      × (tx.outbound ≡ true)
      × (tx.amount ≡ some amount)
      × (tx.fee ≡ some fee)
      × (tx.status ≡ merged_status g)
      × (tx.time_since_epoch ≡ unwrap_or g.time 0)
unfolding build_transaction
built g id amount fee = (_, refl, refl, refl, refl, refl, refl, refl)

-- Two legs whose total and summed fees are valid amounts of 64 bits make a transaction, under the surfaced
-- id: the fees are added, the earlier time counts, the payment has failed exactly if a leg has,
-- and is completed exactly if both legs are.
pub into_transaction-IsCombined :
    (api : AmountApi) (laws : AmountLaws api) (id : PaymentId) (total f g : ℕ) (st sl : TxStatus)
    (ty ty' : PaymentType) (t u : ℕ)
    → total ≤ api.max_amount
    → f + g ≤ api.max_amount
    → f + g ≤ 2 ^ 64 - 1
    → (tx : Transaction) × (into_transaction api (merge_two total f g st sl ty ty' t u) id
        ≡ some tx)
      × IsCombined id total f g st sl t u tx
unfolding into_transaction accumulate
into_transaction-IsCombined api laws id total f g st sl ty ty' t u h k o =
    let merged = merge_two total f g st sl ty ty' t u in
    let (tx, e, at, out, am, fe, sta, tim) = built merged id total (f + g) in
    let fees : saturating_add_u64 f g ≡ f + g = omega arith in
    (
      tx,
      rw (laws.from_milli_sats_lem total h, fees, laws.from_milli_sats_lem (f + g) k) e,
      record {
        same_id = at;
        outbound = out;
        amount = am;
        fees_added = fe;
        earlier_time = tim;
        completed_iff = rw sta (status_completed total f g st sl ty ty' t u);
        failed_iff = rw sta (status_failed total f g st sl ty ty' t u);
      },
    )

-- The legs may be folded in in either order, if only the lightning leg's payment type carries the
-- preimage, or if the two payment types are the same.
pub accumulate_comm :
    (total f g : ℕ) (st sl : TxStatus) (ty ty' : PaymentType) (t u : ℕ)
    → ((has_preimage ty ≡ false) × (has_preimage ty' ≡ true)) ⊎ (ty ≡ ty')
    → accumulate MppLegKind.lightning total g sl ty' u
        (accumulate MppLegKind.trusted total f st ty t empty_merge)
      ≡ accumulate MppLegKind.trusted total f st ty t
          (accumulate MppLegKind.lightning total g sl ty' u empty_merge)
unfolding accumulate
accumulate_comm total f g st sl ty ty' t u h = ground arith
