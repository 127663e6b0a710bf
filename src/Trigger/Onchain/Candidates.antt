-- ===== src/Trigger/Onchain/Candidates.antt =====
-- Which payments of ldk-node can be named as the cause of an on-chain rebalance (`OrangeTrigger` in
-- orange-sdk/src/rebalancer.rs).
use orange_sdk.Prelude.{
  ℕ, ◌≡◌, refl, arith, Bool, true, false, ◌&&◌, Option, none, some, List, [], ◌∷◌, All, Bool-cases,
  Option-cases, ◌⊎◌, ◌≤◌, inl, inr, ltb,
}
use orange_sdk.Store.Types.{is_completed, TxMetadata, self_custodial, is_payment, id_eq}
use orange_sdk.Store.World.{Store, lookup}
use orange_sdk.Trigger.Onchain.{
  LnPayment, is_receipt, can_mark, candidate, larger, amount_leb, largest,
}

-- A candidate can be marked.
abbrev pub CanMark : Store → Option (LnPayment × ℕ) → Type 0
CanMark s none = Unit
CanMark s (some (p, txid)) = can_mark (lookup (self_custodial txid) s) ≡ true

candidate-CanMark :
    (s : Store) (since : ℕ) (p : LnPayment) (o : Option (ℕ × ℕ × Bool))
    → CanMark s (candidate s since p o)
candidate-CanMark s since p none = tt
candidate-CanMark s since p (some (txid, status, confirmed)) =
    elim (Bool-cases (is_receipt since p && can_mark (lookup (self_custodial txid) s))) [
      | inl can ↦ rw can (ground arith)
      | inr cannot ↦ rw cannot tt
    ]

larger-CanMark :
    (s : Store) (a b : Option (LnPayment × ℕ)) → CanMark s a → CanMark s b → CanMark s (larger a b)
larger-CanMark s none b h k = k
larger-CanMark s (some a) none h k = h
larger-CanMark s (some (p, x)) (some (q, y)) h k =
    elim (Bool-cases (amount_leb p.amount_msat q.amount_msat)) [
      | inl le ↦ rw le k
      | inr gt ↦ rw gt h
    ]

pub largest-CanMark :
    (s : Store) (since : ℕ) (ps : List LnPayment) (best : Option (LnPayment × ℕ))
    → CanMark s best
    → CanMark s (largest s since ps best)
unfolding largest
largest-CanMark s since [] best h = h
largest-CanMark s since (p ∷ ps) best h =
    largest-CanMark s since ps (larger best (candidate s since p p.onchain)) (
      larger-CanMark s best (candidate s since p p.onchain) h
        (candidate-CanMark s since p p.onchain))

-- A payment of ldk-node that cannot be named as the cause: it is not on-chain or outbound, or it has
-- not succeeded or not changed since that sync, or its entry is not that of a plain payment.
abbrev pub NoCause : Store → ℕ → LnPayment → Option (ℕ × ℕ × Bool) → Type 0
NoCause s since p none = Unit
NoCause s since p (some (txid, status, confirmed)) =
    (p.outbound ≡ true)
    ⊎ (is_completed p.status ≡ false)
    ⊎ (p.latest_update_timestamp ≤ since)
    ⊎ ((m : TxMetadata) × (lookup (self_custodial txid) s ≡ some m) × (is_payment m.ty ≡ false))

candidate-none :
    (s : Store) (since : ℕ) (p : LnPayment) (o : Option (ℕ × ℕ × Bool))
    → candidate s since p o ≡ none
    → NoCause s since p o
candidate-none s since p none e = tt
candidate-none s since p (some (txid, status, confirmed)) e = elim (Bool-cases p.outbound) [
  | inl sent ↦ inl sent
  | inr received ↦ elim (Bool-cases (is_completed p.status)) [
    | inr open_yet ↦ inr (inl open_yet)
    | inl done ↦ elim (Bool-cases (ltb since p.latest_update_timestamp)) [
      | inr old ↦ inr (inr (inl (ground (arith, old))))
      | inl new ↦ elim (Option-cases (lookup (self_custodial txid) s)) [
        | inl n ↦ absurd (ground (arith, e, received, done, new, n))
        | inr (m, has) ↦ elim (Bool-cases (is_payment m.ty)) [
          | inl plain ↦ absurd (ground (arith, e, received, done, new, has, plain))
          | inr other ↦ inr (inr (inr (m, has, other)))
        ]
      ]
    ]
  ]
]

larger-none : (a b : Option (LnPayment × ℕ)) → larger a b ≡ none → (a ≡ none) × (b ≡ none)
larger-none none b e = (refl, e)
larger-none (some a) none e = ground (arith, e)
larger-none (some (p, x)) (some (q, y)) e =
    elim (Bool-cases (amount_leb p.amount_msat q.amount_msat)) [
      | inl le ↦ ground (arith, e, le)
      | inr gt ↦ ground (arith, e, gt)
    ]

pub largest-none :
    (s : Store) (since : ℕ) (ps : List LnPayment) (best : Option (LnPayment × ℕ))
    → largest s since ps best ≡ none
    → (best ≡ none) × All (λ (p : LnPayment). NoCause s since p p.onchain) ps
unfolding largest
largest-none s since [] best e = (e, tt)
largest-none s since (p ∷ ps) best e =
    (let (now, rest) = largest-none s since ps (larger best (candidate s since p p.onchain)) e in
      let (before, this) = larger-none best (candidate s since p p.onchain) now in
      (before, (candidate-none s since p p.onchain this, rest)))
