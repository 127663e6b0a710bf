-- ===== src/Wallet/Mpp/Legs.antt =====
-- What a split payment leaves behind (`Wallet::try_mpp_bolt11`).
use orange_sdk.Prelude.{
  ℕ, ◌≤◌, ◌≡◌, inl, inr, refl, arith, none, some, [], Result, ok, err, nat_eq, ◌∙◌,
}
use orange_sdk.Prelude.Run.{Returns, Returns-of_eq}
use orange_sdk.Prelude.Assoc.{get, insert, remove, get-insert_self, get-insert_ne}
use orange_sdk.Platform.{AmountApi, AmountLaws}
use orange_sdk.Store.Types.{PaymentId, self_custodial, trusted, id_eq}
use orange_sdk.Store.World.{Store, lookup}
use orange_sdk.Store.Wrote.{Reliable, wrote}
use orange_sdk.Store.Metadata.{upsert}
use orange_sdk.Store.Metadata.Effects.{do_set_lem, IsNew, insert_new-wrote}
use orange_sdk.Store.Mpp.Orders.{IsLeg}
use orange_sdk.Events.Queue.{
  QueueBackend, EventQueue, on_store, begin_mpp_setup, finish_mpp_setup, add_events,
}
use orange_sdk.Wallet.Receive.{NodeError, WalletError, ldk_node_failure, trusted_failure}
use orange_sdk.Wallet.Mpp.{
  MppWallets, ln_portion_of, legs_of, mpp_metadata, lone_metadata, after_lightning, after_trusted,
  send_split, try_mpp_bolt11,
}
use orange_sdk.Wallet.Mpp.Portions.{IsSplit, Fits, IsUnsplit, cannot_split, portions}

module _ (api : QueueBackend) (reliable : Reliable api.kv) (w : MppWallets) (now amount : ℕ) where
  -- The queue after a set-up in which no event arrived.
  abbrev setup_over : EventQueue → Store → EventQueue
  setup_over s t = record s {
    store = t;
    pending_mpp_events = remove w.payment_hash (insert w.payment_hash [] s.pending_mpp_events);
  }

  finished :
      (s : EventQueue) (t : Store)
      → finish_mpp_setup api w.payment_hash (record s {
        store = t;
        pending_mpp_events = insert w.payment_hash [] s.pending_mpp_events;
      })
        ≡ some (ok tt, setup_over s t)
  unfolding finish_mpp_setup add_events
  finished s t = ground (arith, get-insert_self w.payment_hash [] s.pending_mpp_events)

  split_lem :
      (portion tid lid : ℕ) (s : EventQueue)
      → IsNew api.backend (trusted tid) s.store
      → after_lightning api w now amount tid
          (ok lid)
          (record s { pending_mpp_events = insert w.payment_hash [] s.pending_mpp_events })
        ≡ some (
          ok (trusted tid),
          setup_over s (
              wrote api.backend
                (self_custodial lid)
                (mpp_metadata now tid lid amount)
                (wrote api.backend (trusted tid) (mpp_metadata now tid lid amount) s.store)),
        )
  unfolding after_lightning on_store upsert
  split_lem portion tid lid s fresh =
      let md = mpp_metadata now tid lid amount in
      let one = wrote api.backend (trusted tid) md s.store in
      ground (
        arith,
        insert_new-wrote api.backend reliable (trusted tid) md s.store fresh,
        do_set_lem api.backend reliable (self_custodial lid) md one,
        finished s (wrote api.backend (self_custodial lid) md one),
      )

  lone_lem :
      (tid : ℕ) (e : NodeError) (s : EventQueue)
      → IsNew api.backend (trusted tid) s.store
      → after_lightning api w now amount tid
          (err e)
          (record s { pending_mpp_events = insert w.payment_hash [] s.pending_mpp_events })
        ≡ some (
          err (ldk_node_failure e),
          setup_over s (wrote api.backend (trusted tid) (lone_metadata now) s.store),
        )
  unfolding after_lightning on_store
  lone_lem tid e s fresh = ground (
    arith,
    insert_new-wrote api.backend reliable (trusted tid) (lone_metadata now) s.store fresh,
    finished s (wrote api.backend (trusted tid) (lone_metadata now) s.store),
  )

  shared-IsLeg :
      (tid lid : ℕ) (id : PaymentId) (t : Store)
      → lookup id t ≡ some (mpp_metadata now tid lid amount)
      → lookup (trusted tid) t ≡ some (mpp_metadata now tid lid amount)
      → IsLeg id (trusted tid) (mpp_metadata now tid lid amount) (legs_of tid lid amount) t
  shared-IsLeg tid lid id t has at_surface = record {
    own = mpp_metadata now tid lid amount;
    own_mpp = legs_of tid lid amount;
    has_own = has;
    own_ty = refl;
    names = refl;
    has_shared = at_surface;
    shared_ty = refl;
  }

  wrote-IsSplit :
      (portion tid lid tb lb : ℕ) (s : Store)
      → w.pay_partial tb ≡ ok tid
      → w.pay_bolt11_underpaying portion ≡ ok lid
      → Fits amount tb lb portion
      → IsSplit w amount tb lb (trusted tid) (
          wrote api.backend
            (self_custodial lid)
            (mpp_metadata now tid lid amount)
            (wrote api.backend (trusted tid) (mpp_metadata now tid lid amount) s))
  wrote-IsSplit portion tid lid tb lb s paid sent fits =
      let md = mpp_metadata now tid lid amount in
      let one = wrote api.backend (trusted tid) md s in
      let at_surface : lookup (trusted tid) (wrote api.backend (self_custodial lid) md one)
          ≡ some md =
        get-insert_ne (self_custodial lid) (trusted tid) md one.tx_metadata (λ e. cc)
        ∙ get-insert_self (trusted tid) md s.tx_metadata in
      record {
        trusted_id = tid;
        ln_id = lid;
        ln_portion = portion;
        shared = md;
        legs = legs_of tid lid amount;
        surfaced = refl;
        trusted_paid = paid;
        ln_paid = sent;
        sums = fits.0;
        neither_empty = (fits.1, fits.2);
        affordable = fits.3;
        total = refl;
        trusted_leg = shared-IsLeg tid lid (trusted tid) _ at_surface at_surface;
        ln_leg =
            shared-IsLeg tid lid (self_custodial lid) _
              (get-insert_self (self_custodial lid) md one.tx_metadata) at_surface;
        fresh = record {
          surfaced = refl;
          no_trusted_fee = refl;
          no_lightning_fee = refl;
          not_failed = refl;
          not_finalized = refl;
        };
      }

  abbrev pub Outcome : ℕ → ℕ → EventQueue → Result PaymentId WalletError → EventQueue → Type 0
  Outcome tb lb s (ok id) s' = IsSplit w amount tb lb id s'.store × (s'.queue ≡ s.queue)
  Outcome tb lb s (err e) s' =
      IsUnsplit w now amount tb lb e s.store s'.store × (s'.queue ≡ s.queue)

  after_lightning-Outcome :
      (portion tid tb lb : ℕ) (r : Result ℕ NodeError) (s : EventQueue)
      → w.pay_partial tb ≡ ok tid
      → w.pay_bolt11_underpaying portion ≡ r
      → Fits amount tb lb portion
      → IsNew api.backend (trusted tid) s.store
      → Returns (Outcome tb lb s) (
          after_lightning api w now amount tid r
            (record s { pending_mpp_events = insert w.payment_hash [] s.pending_mpp_events }))
  after_lightning-Outcome portion tid tb lb (ok lid) s paid sent fits fresh =
      Returns-of_eq (Outcome tb lb s) (split_lem portion tid lid s fresh)
        (wrote-IsSplit portion tid lid tb lb s.store paid sent fits, refl)
  after_lightning-Outcome portion tid tb lb (err e) s paid sent fits fresh =
      Returns-of_eq (Outcome tb lb s) (lone_lem tid e s fresh)
        (inr (inr (portion, tid, e, fits, paid, sent, refl, refl)), refl)

  after_trusted-Outcome :
      (portion tb lb : ℕ) (r : Result ℕ ℕ) (s : EventQueue)
      → w.pay_partial tb ≡ r
      → Fits amount tb lb portion
      → ((tid : ℕ) → r ≡ ok tid → IsNew api.backend (trusted tid) s.store)
      → Returns (Outcome tb lb s) (
          after_trusted api w now amount portion r
            (record s { pending_mpp_events = insert w.payment_hash [] s.pending_mpp_events }))
  unfolding after_trusted
  after_trusted-Outcome portion tb lb (ok tid) s paid fits fresh =
      after_lightning-Outcome portion tid tb lb (w.pay_bolt11_underpaying portion) s paid refl fits
        (fresh tid refl)
  after_trusted-Outcome portion tb lb (err e) s paid fits fresh =
      Returns-of_eq (Outcome tb lb s) {a = err (trusted_failure e)} {s = setup_over s s.store}
        (ground (arith, finished s s.store)) (inr (inl (portion, e, fits, paid, refl, refl)), refl)

  begin_lem :
      (s : EventQueue)
      → get w.payment_hash s.pending_mpp_events ≡ none
      → begin_mpp_setup w.payment_hash s
        ≡ some (tt, record s { pending_mpp_events = insert w.payment_hash [] s.pending_mpp_events })
  unfolding begin_mpp_setup
  begin_lem s clear = ground arith

  begun :
      (tb portion : ℕ) (s : EventQueue)
      → get w.payment_hash s.pending_mpp_events ≡ none
      → send_split api w now amount tb (ok portion) s
        ≡ after_trusted api w now amount portion
            (w.pay_partial tb)
            (record s { pending_mpp_events = insert w.payment_hash [] s.pending_mpp_events })
  unfolding send_split
  begun tb portion s clear = ground (arith, begin_lem s clear)

  -- Where no write fails, no events of the invoice's hash are waiting, and the id of the trusted part
  -- has no entry or debug assertions are left out: an attempt to split a payment of a valid amount
  -- returns and adds no event. If it succeeds, the result is the id of the trusted part, the trusted
  -- wallet paid its whole balance and the lightning wallet the rest, which is not empty and which it
  -- can afford, and both legs lead to one fresh entry for the amount. If it does not, then the payment
  -- cannot be split, because of the invoice's amount or the balances, and nothing changed; or the
  -- trusted wallet refused its part, and nothing was recorded; or the lightning wallet refused its
  -- part, and the trusted part is recorded as a plain payment; and the error says which.
  pub try_mpp_bolt11-Outcome :
      (amounts : AmountApi) (laws : AmountLaws amounts) (tb lb : ℕ) (s : EventQueue)
      → amount ≤ amounts.max_amount
      → get w.payment_hash s.pending_mpp_events ≡ none
      → ((tid : ℕ) → w.pay_partial tb ≡ ok tid → IsNew api.backend (trusted tid) s.store)
      → Returns (Outcome tb lb s) (try_mpp_bolt11 api amounts w now amount tb lb s)
  unfolding try_mpp_bolt11
  try_mpp_bolt11-Outcome amounts laws tb lb s small clear fresh =
      go (ln_portion_of amounts w.amount_milli_satoshis amount tb lb) refl
    where
      go :
          (r : Result ℕ NodeError)
          → ln_portion_of amounts w.amount_milli_satoshis amount tb lb ≡ r
          → Returns (Outcome tb lb s) (send_split api w now amount tb r s)
      go (err e) is =
          unfold send_split in
          (
            inl (
              e,
              cannot_split amounts laws w amount tb lb e w.amount_milli_satoshis small refl is,
              refl,
              refl,
            ),
            refl,
          )
      go (ok portion) is = rw (begun tb portion s clear) (
          after_trusted-Outcome portion tb lb (w.pay_partial tb) s refl
            (portions amounts laws w.amount_milli_satoshis amount tb lb portion small is) fresh)
