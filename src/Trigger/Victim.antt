-- ===== src/Trigger/Victim.antt =====
-- The payment that a rebalance names as its cause can be marked as such.
use orange_sdk.Prelude.{
  ℕ, ◌<◌, ◌≡◌, refl, inl, inr, arith, Option, none, some, true, false, Bool, Bool-cases,
  Option-cases, List, [], ◌∷◌, All, ok,
}
use orange_sdk.Prelude.Run.{Returns, Returns-of_eq, Returns->>=}
use orange_sdk.Platform.{AmountApi}
use orange_sdk.Rebalancer.Wallets.{TriggerParams}
use orange_sdk.Store.Types.{is_payment, trusted, id_eq}
use orange_sdk.Store.World.{Backend, Store}
use orange_sdk.Store.Wrote.{Reliable}
use orange_sdk.Store.Metadata.{set_tx_caused_rebalance}
use orange_sdk.Store.Metadata.Effects.{set_tx_caused_rebalance_lem}
use mathlib.Core.Path.{subst}
use orange_sdk.Store.Enabled.{get_enabled, get_enabled_cached}
use orange_sdk.Trigger.{
  transfer_amount, WalletView, needs_trusted_rebalance, trigger_if, check_trigger, unseen, Payment,
  Tunables, Seen, see_payments, insert_sorted, sort_unstable, leb_pair, first_or, victim_id,
  decide_trigger,
}
use orange_sdk.Trigger.Nameable.{HasPayment, LatestHas, IsNameable, see_payments-IsNameable}

-- What the rebalance would do with the entry of its cause succeeds, and names it as the cause.
HasPayment-promotable :
    (api : Backend) (reliable : Reliable api.kv) (id : ℕ) (s : Store)
    → HasPayment id s
    → Returns (λ r _. r ≡ ok tt) (set_tx_caused_rebalance api (trusted id) s)
HasPayment-promotable api reliable id s h =
    elim (set_tx_caused_rebalance_lem api reliable (trusted id) s) [
      | inl (m, t, e, is, done) ↦ Returns-of_eq (λ r _. r ≡ ok tt) done refl
      | inr (isnt, refused) ↦
          let plain : is_payment h.entry.ty ≡ true = rw h.is_plain in
          let other : is_payment h.entry.ty ≡ false = isnt h.entry h.found in cc
    ]

insert_sorted-All :
    (P : ℕ × ℕ → Type 0) (x : ℕ × ℕ) (xs : List (ℕ × ℕ))
    → P x
    → All P xs
    → All P (insert_sorted x xs)
unfolding insert_sorted
insert_sorted-All P x [] p h = (p, tt)
insert_sorted-All P x (y ∷ ys) p h = elim (Bool-cases (leb_pair x y)) [
  | inl le ↦ rw le (p, h)
  | inr gt ↦ rw gt (h.0, insert_sorted-All P x ys p h.1)
]

sort_unstable-All : (P : ℕ × ℕ → Type 0) (xs : List (ℕ × ℕ)) → All P xs → All P (sort_unstable xs)
unfolding sort_unstable
sort_unstable-All P [] h = tt
sort_unstable-All P (x ∷ xs) h =
    insert_sorted-All P x (sort_unstable xs) h.0 (sort_unstable-All P xs h.1)

victim_id-HasPayment :
    (seen : Seen) (s : Store) (id : ℕ)
    → IsNameable seen s
    → victim_id seen ≡ some id
    → HasPayment id s
unfolding victim_id
victim_id-HasPayment seen s id h =
    go (sort_unstable seen.new_txn) seen.latest_tx
      (sort_unstable-All (λ (x : ℕ × ℕ). HasPayment x.1 s) seen.new_txn h.new_have) h.latest_has
  where
    go :
        (xs : List (ℕ × ℕ)) (latest : Option (ℕ × ℕ))
        → All (λ (x : ℕ × ℕ). HasPayment x.1 s) xs
        → LatestHas s latest
        → first_or xs latest ≡ some id
        → HasPayment id s
    go ((amount, j) ∷ xs) latest h k e =
        let same : j ≡ id = cc in subst (λ i. HasPayment i s) same h.0
    go [] none h k e = cc
    go [] (some (time, j)) h k e = let same : j ≡ id = cc in subst (λ i. HasPayment i s) same k

-- A trigger rests on a balance that the trusted wallet reported: the amount is that of
-- `transfer_amount`, above `rebalance_min`, and its cause can be marked.
pub record IsGrounded (amounts : AmountApi) (t : Tunables) (view : WalletView) (s : Store)
    (params : TriggerParams) : Type 0 where
  pub balance : ℕ
  pub reported : view.trusted_balance ≡ some balance
  pub amount_is : params.amount ≡ transfer_amount amounts t view.receivable balance
  pub large : t.rebalance_min < params.amount
  pub cause : HasPayment params.id s

decide_trigger-IsGrounded :
    (amounts : AmountApi) (t : Tunables) (view : WalletView) (seen : Seen) (s : Store)
    (params : TriggerParams)
    → IsNameable seen s
    → decide_trigger amounts t view.receivable view.trusted_balance seen ≡ some params
    → IsGrounded amounts t view s params
unfolding decide_trigger
decide_trigger-IsGrounded amounts t view seen s params h e =
    elim (Option-cases view.trusted_balance) [
      | inl absent ↦ ground arith
      | inr (bal, is) ↦ elim (Option-cases (victim_id seen)) [
        | inl nobody ↦ ground arith
        | inr (id, v) ↦
            let amount_is : params.amount ≡ transfer_amount amounts t view.receivable bal =
              ground arith in
            let same : params.id ≡ id = ground arith in
            record {
              balance = bal;
              reported = is;
              amount_is = amount_is;
              large = ground arith;
              cause = rw same (victim_id-HasPayment seen s id h v);
            }
      ]
    ]

-- What a check of the trigger returns.
abbrev pub Names :
    Backend → AmountApi → Tunables → WalletView → Bool → Option TriggerParams → Store → Type 0
Names api amounts t view on r s' =
    (params : TriggerParams)
    → r ≡ some params
    → (on ≡ true)
      × IsGrounded amounts t view s' params
      × Returns (λ done _. done ≡ ok tt) (set_tx_caused_rebalance api (trusted params.id) s')

module _ (api : Backend) (reliable : Reliable api.kv) (amounts : AmountApi) (t : Tunables)
    (view : WalletView) where
  check_trigger-Names :
      (ps : Option (List Payment)) (s : Store)
      → Returns (Names api amounts t view true) (check_trigger api amounts t view ps s)
  unfolding check_trigger
  check_trigger-Names none s = λ params e. cc
  check_trigger-Names (some ps) s =
      Returns->>= IsNameable (Names api amounts t view true) (see_payments api ps unseen)
        (λ seen s'. some (decide_trigger amounts t view.receivable view.trusted_balance seen, s')) s
        (see_payments-IsNameable api reliable ps unseen s
          (record { new_have = tt; latest_has = tt }))
        (λ seen s' h params e.
          let grounded = decide_trigger-IsGrounded amounts t view seen s' params h e in
          (refl, grounded, HasPayment-promotable api reliable params.id s' grounded.cause))

  trigger_if-Names :
      (on : Bool) (s : Store)
      → Returns (Names api amounts t view on) (trigger_if api amounts t view on s)
  unfolding trigger_if
  trigger_if-Names false s = λ params e. cc
  trigger_if-Names true s = check_trigger-Names view.trusted_payments s

  -- Where no write fails and the switch of the rebalancer has been read: the check returns, it names
  -- no trigger while rebalancing is off, and a trigger that it names rests on the reported balance,
  -- moves more than `rebalance_min`, and has as its cause a payment that can then be marked as
  -- having caused the rebalance.
  pub needs_trusted_rebalance-Names :
      (on : Bool) (s : Store)
      → s.rebalance_enabled ≡ some on
      → Returns (Names api amounts t view on) (needs_trusted_rebalance api amounts t view s)
  unfolding needs_trusted_rebalance
  needs_trusted_rebalance-Names on s e =
      Returns->>= (λ r s'. r ≡ on) (Names api amounts t view on) (get_enabled api)
        (trigger_if api amounts t view) s
        (Returns-of_eq (λ r s'. r ≡ on) (get_enabled_cached api on s e) refl)
        (λ r s' is. rw is (trigger_if-Names on s'))
