-- ===== src/Examples/QueueRuns.antt =====
-- The event queue at concrete inputs.
use orange_sdk.Prelude.{◌≡◌, ok, text_beq, none, some, [], ◌∷◌, refl}
use orange_sdk.Prelude.Run.{Returns, ◌>>◌}
use orange_sdk.Prelude.Assoc.{get}
use orange_sdk.Store.Types.{trusted}
use orange_sdk.Events.Types.{Event, payment_successful, onchain_payment_received}
use orange_sdk.Events.Queue.{
  QueueBackend, EventQueue, event_queue_key, encode_queue, begin_mpp_setup, finish_mpp_setup,
  add_event, is_mpp_leg, push_event,
}
use orange_sdk.Events.Queue.Fifo.{
  pushes, handles, run_queue, OnDisk, Delivers, Updates, run_queue-Delivers, push_event-IsRequeued,
}
use orange_sdk.Events.Queue.Setup.{Surfaced, finish_mpp_setup-Surfaced}
use orange_sdk.Examples.Fixtures.{
  memory_backend, memory_laws, memory_reliable, empty_store, find_write,
}

abbrev pub queue_backend : QueueBackend
queue_backend = record {
  backend = memory_backend;
  encode_u16 = λ n. n ∷ [];
  encode_event = λ e. 1 ∷ [];
}

abbrev sent : Event
sent = payment_successful (trusted 1) 5 6 none

abbrev received : Event
received = onchain_payment_received (trusted 2) 7 1000 0

-- One event is queued and on disk, and a task waits.
abbrev pub one_event : EventQueue
one_event = record {
  store = record empty_store { writes = record { key = event_queue_key; buf = 1 ∷ 1 ∷ [] } ∷ [] };
  queue = sent ∷ [];
  pending_mpp_events = [];
  waker = some 3;
  woken = [];
}

one_event-OnDisk : OnDisk queue_backend one_event
unfolding find_write encode_queue text_beq
one_event-OnDisk = refl

run_queue_example :
    Returns
      (Delivers queue_backend memory_laws memory_reliable (received ∷ []))
      (run_queue queue_backend (pushes received ∷ handles ∷ []) one_event)
run_queue_example =
    run_queue-Delivers queue_backend memory_laws memory_reliable (pushes received ∷ handles ∷ [])
      one_event one_event-OnDisk

push_event_example :
    Returns
      (Updates queue_backend (sent ∷ received ∷ []) one_event)
      (push_event queue_backend received one_event)
push_event_example = push_event-IsRequeued queue_backend received one_event

finish_mpp_setup-Surfaced_example :
    Returns
      (λ r t.
        (r ≡ ok tt)
        × (t.queue ≡ sent ∷ [])
        × Returns
            (Surfaced queue_backend memory_reliable (trusted 4) 9 2 none one_event)
            (finish_mpp_setup queue_backend 9 t))
      ((begin_mpp_setup 9 >> add_event queue_backend (payment_successful (trusted 4) 9 2 none))
        one_event)
finish_mpp_setup-Surfaced_example =
    finish_mpp_setup-Surfaced queue_backend memory_reliable (trusted 4) 9 2 none one_event
      (unfold get in refl) (unfold is_mpp_leg get in refl)
