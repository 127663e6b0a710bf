-- ===== src/Spark/Payments.antt =====
-- Payments (`list_payments`, `apply_payment_update` and `get_payment_by_id` to
-- `get_payments_by_parent_ids` in orange-sdk/src/trusted_wallet/spark/spark_store.rs).
pub mod Final
use orange_sdk.Prelude.{
  ℕ, ◌+◌, Bool, true, false, ◌&&◌, ◌||◌, not, Option, none, some, List, [], ◌∷◌, ◌++◌, Text, codes,
  Result, ok, err, if◌then◌else◌, ltb, leb, ◌==◌, nat_eq, length, take, drop, unwrap_or, text_beq,
  min,
}
use orange_sdk.Prelude.Act.{Act, return, throw, try, ◌>>=◌, ◌>>◌}
use orange_sdk.Platform.{ReadResult, found, not_found, read_error}
use orange_sdk.Platform.Kv.{Calls, read_key, ok_or}
use orange_sdk.Spark.{
  SparkApi, StorageError, serialization, implementation, not_found_error, panicked, Payment,
  PaymentDetails, spark, lightning, token, withdraw, deposit, PaymentMetadata,
}
use orange_sdk.Spark.Cells.{spark_key, write_data, list_data, read_all, listed_data}

-- A stable sort, by an order test.
unfoldable pub insert_by : {A : Type 0} → (A → A → Bool) → A → List A → List A
insert_by le a [] = a ∷ []
insert_by le a (b ∷ bs) = let rest = insert_by le a bs in if le a b then a ∷ b ∷ bs else b ∷ rest

unfoldable pub sort_by : {A : Type 0} → (A → A → Bool) → List A → List A
unfolding insert_by
sort_by le [] = []
sort_by le (a ∷ as_) = insert_by le a (sort_by le as_)

pub record StorageListPaymentsRequest : Type 0 where
  pub sort_ascending : Option Bool
  pub offset : Option ℕ
  pub limit : Option ℕ

-- The payments of the page, where the start is not past the end.
page : StorageListPaymentsRequest → List Payment → List Payment
page request payments =
    let start = unwrap_or request.offset 0 in
    let end_ : ℕ = elim request.limit [
      | some l ↦ min (start + l) (length payments)
      | none ↦ length payments
    ] in
    if ltb start (length payments) then drop start (take end_ payments) else []

find_payment : (Payment → Bool) → List Payment → Option Payment
find_payment f [] = none
find_payment f (p ∷ ps) = if f p then some p else find_payment f ps

pays_invoice : Text → Payment → Bool
pays_invoice invoice p = elim p.details [
  | none ↦ false
  | some d ↦ elim d [
    | spark i ↦ elim i [ none ↦ false | some s ↦ text_beq s invoice ]
    | lightning i ↦ text_beq i invoice
    | token ↦ false
    | withdraw ↦ false
    | deposit ↦ false
  ]
]

-- `entry(key).or_default().push(payment)` on a map with texts as keys.
push_at : Text → Payment → List (Text × List Payment) → List (Text × List Payment)
push_at k p [] = (k, p ∷ []) ∷ []
push_at k p ((j, ps) ∷ m) =
    let rest = push_at k p m in if text_beq j k then (j, ps ++ (p ∷ [])) ∷ m else (j, ps) ∷ rest

sort_groups : List (Text × List Payment) → List (Text × List Payment)
unfolding sort_by
sort_groups [] = []
sort_groups ((k, ps) ∷ m) = (k, sort_by (λ p q. leb p.timestamp q.timestamp) ps) ∷ sort_groups m

contains_id : Text → List Text → Bool
contains_id s [] = false
contains_id s (t ∷ ts) = text_beq t s || contains_id s ts

-- The status of the payment that is stored, if one is.
unfoldable pub stored_status : Result Payment StorageError → Result (Option ℕ) StorageError
stored_status (ok stored) = ok (some stored.status)
stored_status (err not_found_error) = ok none
stored_status (err e) = err e

unfoldable pub should_emit : Option ℕ → ℕ → Bool
should_emit none status = true
should_emit (some stored) status = not (stored == status)

module _ (api : SparkApi) where
  unfoldable pub list_payments : StorageListPaymentsRequest → Act Calls StorageError (List Payment)
  unfolding read_all sort_by page
  list_payments request = do
    keys ← list_data api (codes "payment")
    payments ← read_all api api.payment_json (codes "payment") keys
    return (
        page request (
          if unwrap_or request.sort_ascending false
          then sort_by (λ p q. leb p.timestamp q.timestamp) payments
          else sort_by (λ p q. leb q.timestamp p.timestamp) payments))

  unfoldable pub decode_payment : ReadResult → Result Payment StorageError
  decode_payment (found d) = ok_or serialization (api.payment_json.from_slice d)
  decode_payment not_found = err not_found_error
  decode_payment read_error = err implementation

  unfoldable pub get_payment_by_id : Text → Act Calls StorageError Payment
  unfolding decode_payment
  get_payment_by_id id h = (decode_payment (api.kv.read h (spark_key (codes "payment") id)), h)

  -- A final status is not left.
  unfoldable pub is_refused : Option ℕ → ℕ → Bool
  is_refused none status = false
  is_refused (some stored) status = api.is_final stored && not (stored == status)

  unfoldable pub write_payment : Payment → Act Calls StorageError (Unit {0})
  write_payment payment = do
    d ← try (ok_or serialization (api.payment_json.to_vec payment))
    write_data api (codes "payment") payment.id d

  unfoldable pub apply_over : Payment → Option ℕ → Act Calls StorageError Bool
  unfolding is_refused should_emit write_payment
  apply_over payment stored =
      if is_refused stored payment.status
      then return false
      else (do write_payment payment; return (should_emit stored payment.status))

  unfoldable pub apply_payment_update : Payment → Act Calls StorageError Bool
  unfolding get_payment_by_id stored_status apply_over
  apply_payment_update payment h =
      (do
        stored ← try (stored_status (get_payment_by_id payment.id h).0)
        apply_over payment stored)
        h

  unfoldable pub get_payment_by_invoice : Text → Act Calls StorageError (Option Payment)
  unfolding list_payments find_payment pays_invoice
  get_payment_by_invoice invoice = do
    payments ← list_payments (record { sort_ascending = none; offset = none; limit = none })
    return (find_payment (pays_invoice invoice) payments)

  -- The payment under a key of the metadata, where the metadata names one of the parents; records
  -- that cannot be read are passed over.
  child_of : List Text → Text → List ℕ → Calls → Option (Text × Payment)
  unfolding contains_id get_payment_by_id
  child_of parents key d h = elim (api.metadata_json.from_slice d) [
    | none ↦ none
    | some metadata ↦ elim metadata.parent_payment_id [
      | none ↦ none
      | some parent ↦ elim (get_payment_by_id key h).0 [
        | err _ ↦ none
        | ok payment ↦ if contains_id parent parents then some (parent, payment) else none
      ]
    ]
  ]

  collect_children :
      List Text
      → List Text
      → List (Text × List Payment)
      → Act Calls StorageError (List (Text × List Payment))
  unfolding child_of push_at listed_data
  collect_children parents [] groups h = (ok groups, h)
  collect_children parents (key ∷ keys) groups h =
      (do
        r ← read_key api.kv (spark_key (codes "metadata") key)
        d ← try (listed_data api r)
        elim (child_of parents key d h) [
          | none ↦ collect_children parents keys groups
          | some c ↦ collect_children parents keys (push_at c.0 c.1 groups)
        ])
        h

  unfoldable pub get_payments_by_parent_ids :
      List Text → Act Calls StorageError (List (Text × List Payment))
  unfolding collect_children sort_groups
  get_payments_by_parent_ids [] = return []
  get_payments_by_parent_ids (p ∷ parents) = do
    keys ← list_data api (codes "metadata")
    groups ← collect_children (p ∷ parents) keys []
    return (sort_groups groups)
