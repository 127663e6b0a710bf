-- ===== src/Spark/Sync.antt =====
-- Synchronisation of records (`read_sync_state`, `write_sync_state` and `add_outgoing_change` to
-- `update_record_from_incoming` in orange-sdk/src/trusted_wallet/spark/spark_store.rs).
pub mod Outgoing
use orange_sdk.Prelude.{
  ℕ, Bool, true, false, Option, none, some, List, [], ◌∷◌, Text, codes, Result, ok, err,
  if◌then◌else◌, ltb, leb, take,
}
use orange_sdk.Prelude.Act.{Act, return, try, ◌>>=◌, ◌>>◌}
use orange_sdk.Platform.{ReadResult, found, not_found, read_error}
use orange_sdk.Platform.Kv.{Calls, read_key, ok_or, remove}
use orange_sdk.Spark.{
  SparkApi, StorageError, serialization, implementation, RecordId, SyncRecord, RecordChange,
}
use orange_sdk.Spark.Cells.{
  spark_key, write_data, remove_data, list_data, read_all, optional_data, record_id_key,
  incoming_record_key, next_local_revision, update_server_revision, read_revision, revision_key,
}
use orange_sdk.Spark.Payments.{sort_by}

-- A change that the caller has not numbered.
pub record UnversionedRecordChange : Type 0 where
  pub id : RecordId
  pub schema_version : Text
  pub updated_fields : ℕ

pub record OutgoingChange : Type 0 where
  pub change : RecordChange
  pub parent : Option SyncRecord

pub record IncomingChange : Type 0 where
  pub new_state : SyncRecord
  pub old_state : Option SyncRecord

-- The order of texts, by their bytes.
unfoldable pub text_leb : Text → Text → Bool
text_leb [] t = true
text_leb (a ∷ s) [] = false
text_leb (a ∷ s) (b ∷ t) =
    let rest = text_leb s t in if ltb a b then true else if ltb b a then false else rest

last : Text → List Text → Text
last k [] = k
last k (j ∷ ks) = last j ks

module _ (api : SparkApi) where
  decode_sync_state : Option (List ℕ) → Result (Option SyncRecord) StorageError
  decode_sync_state none = ok none
  decode_sync_state (some d) = elim (api.record_json.from_slice d) [
    | none ↦ err serialization
    | some r ↦ ok (some r)
  ]

  unfoldable pub read_sync_state : RecordId → Act Calls StorageError (Option SyncRecord)
  unfolding record_id_key optional_data decode_sync_state
  read_sync_state id = do
    r ← read_key api.kv (spark_key (codes "sync_state") (record_id_key api id))
    d ← try (optional_data api r)
    try (decode_sync_state d)

  unfoldable pub write_sync_state : SyncRecord → Act Calls StorageError (Unit {0})
  unfolding record_id_key
  write_sync_state r = do
    d ← try (ok_or serialization (api.record_json.to_vec r))
    write_data api (codes "sync_state") (record_id_key api r.id) d

  unfoldable pub add_outgoing_change : UnversionedRecordChange → Act Calls StorageError ℕ
  unfolding next_local_revision
  add_outgoing_change r = do
    local_revision ← next_local_revision api
    d ← try (
        ok_or serialization (
          api.change_json.to_vec (record {
            id = r.id;
            schema_version = r.schema_version;
            updated_fields = r.updated_fields;
            local_revision = local_revision;
          })))
    write_data api (codes "sync_out") (api.to_padded local_revision) d
    return local_revision

  -- A removal whose result is thrown away.
  abbrev ignored : Act Calls StorageError (Unit {0}) → Act Calls StorageError (Unit {0})
  ignored m h = (ok tt, (m h).1)

  unfoldable pub complete_outgoing_sync : SyncRecord → ℕ → Act Calls StorageError (Unit {0})
  unfolding write_sync_state update_server_revision
  complete_outgoing_sync r local_revision = do
    ignored (remove_data api (codes "sync_out") (api.to_padded local_revision))
    write_sync_state r
    update_server_revision api r.revision

  -- A change with the state that it was made on.
  read_outgoing : Text → Act Calls StorageError OutgoingChange
  unfolding read_sync_state
  read_outgoing key = do
    r ← read_key api.kv (spark_key (codes "sync_out") key)
    d ← try (elim r [
      | found d ↦ ok d
      | not_found ↦ err implementation
      | read_error ↦ err implementation
    ])
    change ← try (ok_or serialization (api.change_json.from_slice d))
    parent ← read_sync_state change.id
    return (record { change = change; parent = parent })

  read_outgoings : List Text → Act Calls StorageError (List OutgoingChange)
  unfolding read_outgoing
  read_outgoings [] = return []
  read_outgoings (k ∷ keys) = do
    change ← read_outgoing k
    rest ← read_outgoings keys
    return (change ∷ rest)

  unfoldable pub get_pending_outgoing_changes : ℕ → Act Calls StorageError (List OutgoingChange)
  unfolding sort_by text_leb read_outgoings
  get_pending_outgoing_changes limit = do
    keys ← list_data api (codes "sync_out")
    read_outgoings (take limit (sort_by text_leb keys))

  unfoldable pub get_last_revision : Act Calls StorageError ℕ
  unfolding read_revision
  get_last_revision = read_revision api revision_key

  unfoldable pub insert_incoming_records : List SyncRecord → Act Calls StorageError (Unit {0})
  unfolding incoming_record_key
  insert_incoming_records [] = return tt
  insert_incoming_records (r ∷ rs) = do
    d ← try (ok_or serialization (api.record_json.to_vec r))
    write_data api (codes "sync_in") (incoming_record_key api r) d
    insert_incoming_records rs

  unfoldable pub delete_incoming_record : SyncRecord → Act Calls StorageError (Unit {0})
  unfolding incoming_record_key
  delete_incoming_record r = ignored (remove_data api (codes "sync_in") (incoming_record_key api r))

  with_old_states : List SyncRecord → Act Calls StorageError (List IncomingChange)
  unfolding read_sync_state
  with_old_states [] = return []
  with_old_states (r ∷ rs) = do
    old_state ← read_sync_state r.id
    rest ← with_old_states rs
    return (record { new_state = r; old_state = old_state } ∷ rest)

  unfoldable pub get_incoming_records : ℕ → Act Calls StorageError (List IncomingChange)
  unfolding read_all sort_by with_old_states
  get_incoming_records limit = do
    keys ← list_data api (codes "sync_in")
    incoming ← read_all api api.record_json (codes "sync_in") keys
    with_old_states (take limit (sort_by (λ r s. leb r.revision s.revision) incoming))

  latest_of : List Text → Act Calls StorageError (Option OutgoingChange)
  unfolding read_outgoing last
  latest_of [] = return none
  latest_of (k ∷ keys) = do change ← read_outgoing (last k keys); return (some change)

  unfoldable pub get_latest_outgoing_change : Act Calls StorageError (Option OutgoingChange)
  unfolding sort_by text_leb latest_of
  get_latest_outgoing_change = do
    keys ← list_data api (codes "sync_out")
    latest_of (sort_by text_leb keys)

  unfoldable pub update_record_from_incoming : SyncRecord → Act Calls StorageError (Unit {0})
  unfolding write_sync_state update_server_revision
  update_record_from_incoming r = do write_sync_state r; update_server_revision api r.revision
