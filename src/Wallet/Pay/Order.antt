-- ===== src/Wallet/Pay/Order.antt =====
-- What `Wallet::pay` has tried when it returns (orange-sdk/src/lib.rs).
use orange_sdk.Prelude.{
  ℕ, ◌<◌, ◌≡◌, refl, Bool, true, false, Option, none, some, List, [], ◌∷◌, Result, ok, err,
  unwrap_or,
}
use orange_sdk.Prelude.Run.{Run, Returns, Returns->>=, ◌>>=◌}
use orange_sdk.Platform.{AmountApi, AmountLaws}
use orange_sdk.Store.Types.{PaymentId, trusted, PaymentType, id_eq}
use orange_sdk.Store.Wrote.{Reliable}
use orange_sdk.Events.Queue.{QueueBackend, EventQueue}
use orange_sdk.Wallet.Receive.{WalletError, ldk_node_failure, insufficient_funds}
use orange_sdk.Store.Metadata.Effects.{IsNew}
use orange_sdk.Wallet.Pay.{
  PaymentMethod, lightning_bolt11, lightning_bolt12, on_chain, PayWallets, Funds, PayState,
  pay_trusted, pay_lightning, or_else, first_paid, over_lightning, over_chain, pay_split,
  pay_methods, pay, last_err, paid_or_err, Attempt, unpaid, or_err,
}
use orange_sdk.Wallet.Pay.Attempts.{
  Refused, Accepted, HasEntry, Tried, Recalls, type_of, newest_ln, newest_trusted,
  pay_trusted-Tried, pay_lightning-Tried,
}

module _ (api : QueueBackend) (reliable : Reliable api.kv) (amounts : AmountApi)
    (laws : AmountLaws amounts) (w : PayWallets) (f : Funds)
    (small : f.trusted_balance < amounts.max_amount) (now : ℕ) (start : EventQueue)
    (news : (h : List Attempt) (i : ℕ)
      → w.trusted_pay h ≡ ok i
      → IsNew api.backend (trusted i) start.store) where
  -- A step that goes on from what was refused.
  abbrev Goes : Run PayState (Option PaymentId) → Type 0
  Goes m = (s : PayState) → Tried w f now start none s → Returns (Tried w f now start) (m s)

  or_else-Goes :
      (m rest : Run PayState (Option PaymentId))
      → Goes m
      → Goes rest
      → Goes (m >>= λ r. or_else r rest)
  unfolding or_else
  or_else-Goes m rest g h s refused =
      Returns->>= (Tried w f now start) (Tried w f now start) m (λ r. or_else r rest) s
        (g s refused) go
    where
      go :
          (r : Option PaymentId) (t : PayState)
          → Tried w f now start r t
          → Returns (Tried w f now start) (or_else r rest t)
      go none t x = h t x
      go (some id) t x = x

  first_paid-Goes :
      (g : PaymentMethod → Run PayState (Option PaymentId)) (ms : List PaymentMethod)
      → ((m : PaymentMethod) → Goes (g m))
      → Goes (first_paid g ms)
  unfolding first_paid
  first_paid-Goes g [] h s refused = refused
  first_paid-Goes g (m ∷ ms) h s refused =
      or_else-Goes (g m) (first_paid g ms) (h m) (first_paid-Goes g ms h) s refused

  over_lightning-Goes :
      (g : PaymentMethod → PaymentType → Run PayState (Option PaymentId)) (m : PaymentMethod)
      → ((m : PaymentMethod) → Goes (g m (type_of m)))
      → Goes (over_lightning g m)
  unfolding over_lightning
  over_lightning-Goes g (lightning_bolt11 inv) h s refused = h (lightning_bolt11 inv) s refused
  over_lightning-Goes g (lightning_bolt12 offer) h s refused = h (lightning_bolt12 offer) s refused
  over_lightning-Goes g (on_chain a) h s refused = refused

  over_chain-Goes :
      (g : PaymentMethod → PaymentType → Run PayState (Option PaymentId)) (m : PaymentMethod)
      → ((m : PaymentMethod) → Goes (g m (type_of m)))
      → Goes (over_chain g m)
  unfolding over_chain
  over_chain-Goes g (on_chain a) h s refused = h (on_chain a) s refused
  over_chain-Goes g (lightning_bolt11 inv) h s refused = refused
  over_chain-Goes g (lightning_bolt12 offer) h s refused = refused

  no_split :
      (ms : List PaymentMethod) (partial : Bool)
      → partial ≡ false
      → Goes (pay_split api amounts w f now ms partial)
  unfolding pay_split
  no_split ms false whole s refused = refused
  no_split ms true whole s refused = cc

  pay_methods-Goes :
      (ms : List PaymentMethod)
      → w.supports_partial_payments ≡ false
      → Goes (pay_methods api amounts w f now ms)
  unfolding pay_methods pay_split
  pay_methods-Goes ms whole =
      let by_t =
        λ (g : (PaymentMethod → PaymentType → Run PayState (Option PaymentId))
            → PaymentMethod
            → Run PayState (Option PaymentId)).
          first_paid (g (pay_trusted api amounts w f now)) ms in
      let by_l =
        λ (g : (PaymentMethod → PaymentType → Run PayState (Option PaymentId))
            → PaymentMethod
            → Run PayState (Option PaymentId)).
          first_paid (g (pay_lightning api amounts w f now)) ms in
      let last : Run PayState (Option PaymentId) =
        by_t over_chain >>= λ r. or_else r (by_l over_chain) in
      let split : Run PayState (Option PaymentId) =
        pay_split api amounts w f now ms w.supports_partial_payments in
      let late : Run PayState (Option PaymentId) = split >>= λ r. or_else r last in
      or_else-Goes (by_t over_lightning) (by_l over_lightning >>= λ r. or_else r late)
        (first_paid-Goes (over_lightning (pay_trusted api amounts w f now)) ms (λ m.
          over_lightning-Goes (pay_trusted api amounts w f now) m
            (pay_trusted-Tried api reliable amounts laws w f small now start news)))
        (or_else-Goes (by_l over_lightning) late
          (first_paid-Goes (over_lightning (pay_lightning api amounts w f now)) ms (λ m.
            over_lightning-Goes (pay_lightning api amounts w f now) m
              (pay_lightning-Tried api reliable amounts laws w f small now start news)))
          (or_else-Goes split last (no_split ms w.supports_partial_payments whole) (
            or_else-Goes (by_t over_chain) (by_l over_chain)
              (first_paid-Goes (over_chain (pay_trusted api amounts w f now)) ms (λ m.
                over_chain-Goes (pay_trusted api amounts w f now) m
                  (pay_trusted-Tried api reliable amounts laws w f small now start news)))
              (first_paid-Goes (over_chain (pay_lightning api amounts w f now)) ms (λ m.
                over_chain-Goes (pay_lightning api amounts w f now) m
                  (pay_lightning-Tried api reliable amounts laws w f small now start news))))))

  -- The lightning wallet's newest refusal, else the trusted wallet's, else that the funds are
  -- insufficient.
  abbrev pub refusal : List Attempt → WalletError
  refusal h =
      unwrap_or (or_err (newest_ln w h) (newest_trusted w h)) (ldk_node_failure insufficient_funds)

  -- The result of `pay`.
  abbrev pub Paid : Result PaymentId WalletError → PayState → Type 0
  Paid (ok id) s = Accepted w f id s.attempts × HasEntry now id s.attempts s
  Paid (err e) s = Refused w s.attempts × (e ≡ refusal s.attempts) × (s.events ≡ start)

  last_err-refusal : (s : PayState) → Recalls w s → last_err s ≡ refusal s.attempts
  last_err-refusal s h = rw (h.ln_is, h.trusted_is, h.mpp_is) refl

  -- Where no write fails, the trusted wallet pays no parts of an invoice, its balance is less than the
  -- greatest amount, and the ids under which it accepts have no entry or debug assertions are left
  -- out, a payment by known methods returns. If it succeeds, the wallet asked last accepted the whole
  -- amount, each attempt before it was refused, and the payment has an entry of its method: the
  -- trusted wallet's balance covers the amount with its estimated fee; the lightning balance covers an
  -- amount that the lightning wallet paid over lightning, and one of its two balances an amount that it
  -- paid on chain. If it fails, each attempt was refused, nothing was recorded, and the error is the
  -- newest refusal of the lightning wallet, else of the trusted wallet, else that the funds are
  -- insufficient.
  pub pay-Paid :
      (ms : List PaymentMethod)
      → w.supports_partial_payments ≡ false
      → Returns Paid (pay api amounts w (ok f) now (some ms) (unpaid start))
  unfolding pay
  pay-Paid ms whole =
      Returns->>= (Tried w f now start) Paid (pay_methods api amounts w f now ms)
        (λ r t. some (paid_or_err r t, t)) (unpaid start)
        (pay_methods-Goes ms whole (unpaid start)
          (tt, record { ln_is = refl; trusted_is = refl; mpp_is = refl }, refl))
        go
    where
      go :
          (r : Option PaymentId) (t : PayState) → Tried w f now start r t → Paid (paid_or_err r t) t
      go none t x = (x.0, last_err-refusal t x.1, x.2)
      go (some id) t x = x
