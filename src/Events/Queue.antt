-- ===== src/Events/Queue.antt =====
-- `EventQueue` (orange-sdk/src/event.rs): the queue in memory, its copy on disk, the buffer of
-- multi-path payments that are being set up, and the task that waits for an event. Each mutex of
-- the source is held over one of the steps below. `err` is the error of a failed write.
pub mod Fifo
pub mod Setup
use orange_sdk.Prelude.{
  ℕ, ◌%◌, ◌^◌, Bool, true, false, Option, none, some, List, [], ◌∷◌, ◌++◌, Result, ok, err, length,
  codes, if◌then◌else◌, unwrap_or,
}
use orange_sdk.Prelude.Assoc.{HashMap, get, insert, remove}
use orange_sdk.Prelude.Run.{Run, pure, gets, modify, ◌>>=◌, ◌>>◌}
use orange_sdk.Prelude.{nat_eq}
use orange_sdk.Platform.{StoreKey}
use orange_sdk.Store.Types.{PaymentId, TxMetadata, TxType, mpp_payment, MppOutcome}
use orange_sdk.Store.World.{Backend, Store, lookup, kv_write}
use orange_sdk.Store.Mpp.{record_mpp_leg}
use orange_sdk.Events.Types.{Event, payment_successful, payment_failed, terminal_payment_hash}

-- The store, with the codecs of the queue's parts.
pub record QueueBackend : Type 0 where
  pub backend : Backend
  pub open backend use *
  pub encode_u16 : ℕ → List ℕ
  pub encode_event : Event → List ℕ

pub record EventQueue : Type 0 where
  pub store : Store
  pub queue : List Event
  pub pending_mpp_events : HashMap ℕ (List Event)
  -- The task whose waker is stored, and the tasks woken so far.
  pub waker : Option ℕ
  pub woken : List ℕ

abbrev pub event_queue_key : StoreKey
event_queue_key = record { primary = codes ""; secondary = codes ""; key = codes "orange_events" }

encode_events : QueueBackend → List Event → List ℕ
encode_events api [] = []
encode_events api (e ∷ es) = api.encode_event e ++ encode_events api es

-- `self.0.len() as u16`
unfoldable pub length_word : List Event → ℕ
length_word q = length q % 2 ^ 16

-- `EventQueueSerWrapper::write`
unfoldable pub encode_queue : QueueBackend → List Event → List ℕ
unfolding encode_events length_word
encode_queue api q = api.encode_u16 (length_word q) ++ encode_events api q

abbrev pub Done : Type 0
Done = Result (Unit {0}) (Unit {0})

-- A call of the metadata store that the queue shares.
unfoldable pub on_store : {A : Type 0} → Run Store A → Run EventQueue A
on_store m s = elim (m s.store) [ none ↦ none | some (a, t) ↦ some (a, record s { store = t }) ]

unfoldable pub persist_queue : QueueBackend → List Event → Run EventQueue Done
unfolding kv_write
persist_queue api q s =
    let (written, h) = kv_write api.kv event_queue_key (encode_queue api q) s.store.writes in
    some (if written then ok tt else err tt, record s { store = record (s.store) { writes = h } })

-- `waker.take()`, and `wake` if there was one.
wake : EventQueue → EventQueue
wake s = elim s.waker [ none ↦ s | some task ↦ record s { waker = none; woken = task ∷ s.woken } ]

-- A write that failed is returned before the waker is looked at.
finish_update : Done → Run EventQueue Done
finish_update (err e) = pure (err e)
finish_update (ok u) = do modify wake; pure (ok u)

update_queue : QueueBackend → List Event → Run EventQueue Done
update_queue api q = do
  modify (λ s. record s { queue = q })
  done ← persist_queue api q
  finish_update done

unfoldable pub push_event : QueueBackend → Event → Run EventQueue Done
unfolding update_queue finish_update wake
push_event api e s = update_queue api (s.queue ++ e ∷ []) s

-- `front().cloned()`, which leaves the event in the queue.
abbrev front : List Event → Option Event
front [] = none
front (e ∷ q) = some e

unfoldable pub next_event : EventQueue → Option Event
next_event s = front s.queue

abbrev pop_front : List Event → List Event
pop_front [] = []
pop_front (e ∷ q) = q

unfoldable pub event_handled : QueueBackend → Run EventQueue Done
unfolding update_queue finish_update wake
event_handled api s = update_queue api (pop_front s.queue) s

-- With no event, a task is stored if the lock of the waker is free; `none` is `Pending`.
poll_front : Option Event → Bool → ℕ → Run EventQueue (Option Event)
poll_front (some e) waker_free task = pure (some e)
poll_front none true task = do modify (λ s. record s { waker = some task }); pure none
poll_front none false task = pure none

-- `EventFuture::poll` of a task, given which of the two locks `try_lock` finds free.
unfoldable pub poll : Bool → Bool → ℕ → Run EventQueue (Option Event)
unfolding poll_front next_event
poll queue_free waker_free task s =
    poll_front (if queue_free then next_event s else none) waker_free task s

unfoldable pub begin_mpp_setup : ℕ → Run EventQueue (Unit {0})
begin_mpp_setup hash s = elim (get hash s.pending_mpp_events) [
  | some es ↦ some (tt, s)
  | none ↦ some (tt, record s { pending_mpp_events = insert hash [] s.pending_mpp_events })
]

-- `matches!(.., Some(TxType::MppPayment { .. }))`
abbrev is_mpp : TxType → Bool
is_mpp (mpp_payment _) = true
is_mpp _ = false

abbrev entry_is_mpp : Option TxMetadata → Bool
entry_is_mpp none = false
entry_is_mpp (some m) = is_mpp m.ty

unfoldable pub is_mpp_leg : PaymentId → Store → Bool
is_mpp_leg id s = entry_is_mpp (lookup id s)

-- The event of a combined outcome.
unfoldable pub combined_event : PaymentId → MppOutcome → Event
combined_event id (MppOutcome.succeeded hash preimage fee) =
    payment_successful id hash preimage (some fee)
combined_event id (MppOutcome.failed hash) = payment_failed id (some hash) none

push_combined_mpp : QueueBackend → Option (PaymentId × MppOutcome) → Run EventQueue Done
push_combined_mpp api none = pure (ok tt)
push_combined_mpp api (some (id, outcome)) = push_event api (combined_event id outcome)

-- A leg's result is recorded, and the combined event surfaced if it is the one that completes.
unfoldable pub add_leg_event : QueueBackend → PaymentId → Option (ℕ × ℕ) → Run EventQueue Done
unfolding push_combined_mpp
add_leg_event api id success = do
  combined ← on_store (record_mpp_leg api.backend id success)
  push_combined_mpp api combined

-- The event waits while its payment is being set up; any other event is pushed.
buffer_or_push : QueueBackend → Event → Option ℕ → Run EventQueue Done
buffer_or_push api e none s = push_event api e s
buffer_or_push api e (some hash) s = elim (get hash s.pending_mpp_events) [
  | none ↦ push_event api e s
  | some es ↦
      some
        (ok tt, record s { pending_mpp_events = insert hash (es ++ e ∷ []) s.pending_mpp_events })
]

unfoldable pub add_plain_event : QueueBackend → Event → Run EventQueue Done
unfolding buffer_or_push
add_plain_event api e = buffer_or_push api e (terminal_payment_hash e)

unfoldable pub add_event : QueueBackend → Event → Run EventQueue Done
add_event api (payment_successful id hash preimage fee) s =
    if is_mpp_leg id s.store
    then add_leg_event api id (some (unwrap_or fee 0, preimage)) s
    else add_plain_event api (payment_successful id hash preimage fee) s
add_event api (payment_failed id hash reason) s =
    if is_mpp_leg id s.store
    then add_leg_event api id none s
    else add_plain_event api (payment_failed id hash reason) s
add_event api e s = add_plain_event api e s

-- The loop of `finish_mpp_setup`, which the first error leaves.
unfoldable pub add_events : QueueBackend → List Event → Run EventQueue Done
add_events api [] s = some (ok tt, s)
add_events api (e ∷ es) s = elim (add_event api e s) [
  | none ↦ none
  | some (err u, t) ↦ some (err u, t)
  | some (ok u, t) ↦ add_events api es t
]

unfoldable pub finish_mpp_setup : QueueBackend → ℕ → Run EventQueue Done
finish_mpp_setup api hash s = elim (get hash s.pending_mpp_events) [
  | none ↦ some (ok tt, s)
  | some es ↦ add_events api es (record s { pending_mpp_events = remove hash s.pending_mpp_events })
]
