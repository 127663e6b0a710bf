-- ===== src/Spark/Cells.antt =====
-- Keys, cached items and revisions (`sanitize_key` to `incoming_record_key`, `read_revision` to
-- `next_local_revision` and the cached items in
-- orange-sdk/src/trusted_wallet/spark/spark_store.rs).
pub mod Prefixes
pub mod Revisions
use orange_sdk.Prelude.{
  ℕ, ◌+◌, ◌%◌, ◌^◌, Bool, true, false, ◌&&◌, not, Option, none, some, List, [], ◌∷◌, ◌++◌, Text,
  codes, Result, ok, err, if◌then◌else◌, ltb, leb, length, take, drop, unwrap_or,
}
use orange_sdk.Prelude.Act.{Act, return, throw, try, ◌>>=◌, ◌>>◌}
use orange_sdk.Platform.{StoreKey, ReadResult, found, not_found, read_error}
use orange_sdk.Platform.Kv.{Calls, call, write, remove, read_key, ok_or, Codec, list_keys}
use orange_sdk.Spark.{
  SparkApi, StorageError, serialization, implementation, panicked, RecordId, SyncRecord,
}

-- A key under the primary namespace `spark`.
abbrev pub spark_key : Text → Text → StoreKey
spark_key s k = record { primary = codes "spark"; secondary = s; key = k }

abbrev pub revision_key : StoreKey
revision_key = spark_key (codes "sync_rev") (codes "revision")

abbrev pub local_revision_key : StoreKey
local_revision_key = spark_key (codes "sync_rev") (codes "local_revision")

starts_character : Text → Bool
starts_character [] = true
starts_character (b ∷ _) = not (leb 128 b && ltb b 192)

-- `&s[..n]`, which panics inside a character.
slice_to : ℕ → Text → Option Text
unfolding starts_character
slice_to n s = if starts_character (drop n s) then some (take n s) else none

-- One step of the fold of `sync_record_key`, from the end: a part after its length.
unfoldable pub join_parts : (ℕ → Text) → List Text → Text
join_parts to_decimal [] = []
join_parts to_decimal (part ∷ parts) =
    to_decimal (length part) ++ (95 ∷ part ++ join_parts to_decimal parts)

module _ (api : SparkApi) where
  unfoldable pub sanitize_key : Text → Result Text StorageError
  unfolding slice_to
  sanitize_key key =
      if ltb api.key_max_len (length key)
      then ok_or panicked (slice_to api.key_max_len key)
      else ok key

  unfoldable pub sync_record_key : List Text → Text
  unfolding join_parts
  sync_record_key parts =
      let key = join_parts api.to_decimal parts in
      if ltb api.key_max_len (length key) then codes "h_" ++ api.sha256_hex key else key

  unfoldable pub record_id_key : RecordId → Text
  unfolding sync_record_key
  record_id_key id = sync_record_key (id.type ∷ id.data_id ∷ [])

  unfoldable pub incoming_record_key : SyncRecord → Text
  unfolding sync_record_key
  incoming_record_key r =
      sync_record_key (r.id.type ∷ r.id.data_id ∷ api.to_decimal r.revision ∷ [])

  -- A write and a removal, whose I/O error becomes `Implementation`.
  abbrev pub write_data : Text → Text → List ℕ → Act Calls StorageError (Unit {0})
  write_data s k d = call api.kv implementation (write (spark_key s k) d)

  abbrev pub remove_data : Text → Text → Act Calls StorageError (Unit {0})
  remove_data s k = call api.kv implementation (remove (spark_key s k))

  abbrev pub list_data : Text → Act Calls StorageError (List Text)
  list_data s = list_keys api.kv implementation (codes "spark") s

  -- What a read finds, where a missing key is `None`.
  unfoldable pub optional_data : ReadResult → Result (Option (List ℕ)) StorageError
  optional_data (found d) = ok (some d)
  optional_data not_found = ok none
  optional_data read_error = err implementation

  -- What a read of a listed key finds.
  unfoldable pub listed_data : ReadResult → Result (List ℕ) StorageError
  listed_data (found d) = ok d
  listed_data _ = err implementation

  -- Every record under the keys, in their order.
  unfoldable pub read_all :
      {A : Type 0} → Codec A → Text → List Text → Act Calls StorageError (List A)
  unfolding listed_data
  read_all codec s [] = return []
  read_all codec s (k ∷ keys) = do
    r ← read_key api.kv (spark_key s k)
    d ← try (listed_data r)
    a ← try (ok_or serialization (codec.from_slice d))
    rest ← read_all codec s keys
    return (a ∷ rest)

  unfoldable pub delete_cached_item : Text → Act Calls StorageError (Unit {0})
  unfolding sanitize_key
  delete_cached_item key = do k ← try (sanitize_key key); remove_data (codes "cache") k

  -- A text from the store.
  checked_text : Option (List ℕ) → Result (Option Text) StorageError
  checked_text none = ok none
  checked_text (some d) = if api.is_utf8 d then ok (some d) else err serialization

  unfoldable pub get_cached_item : Text → Act Calls StorageError (Option Text)
  unfolding sanitize_key optional_data checked_text
  get_cached_item key = do
    k ← try (sanitize_key key)
    r ← read_key api.kv (spark_key (codes "cache") k)
    d ← try (optional_data r)
    try (checked_text d)

  unfoldable pub set_cached_item : Text → Text → Act Calls StorageError (Unit {0})
  unfolding sanitize_key
  set_cached_item key value = do k ← try (sanitize_key key); write_data (codes "cache") k value

  -- A revision that was never written, or that is no number, is 0.
  unfoldable pub decode_revision : ReadResult → Result ℕ StorageError
  decode_revision (found d) =
      if api.is_utf8 d then ok (unwrap_or (api.parse_u64 d) 0) else err serialization
  decode_revision not_found = ok 0
  decode_revision read_error = err implementation

  unfoldable pub read_revision : StoreKey → Act Calls StorageError ℕ
  unfolding decode_revision
  read_revision k h = (decode_revision (api.kv.read h k), h)

  unfoldable pub write_revision : StoreKey → ℕ → Act Calls StorageError (Unit {0})
  write_revision k value = call api.kv implementation (write k (api.to_decimal value))

  unfoldable pub raise_revision : ℕ → ℕ → Act Calls StorageError (Unit {0})
  unfolding write_revision
  raise_revision new_revision current =
      if ltb current new_revision then write_revision revision_key new_revision else return tt

  unfoldable pub update_server_revision : ℕ → Act Calls StorageError (Unit {0})
  unfolding read_revision raise_revision
  update_server_revision new_revision = do
    current ← read_revision revision_key
    raise_revision new_revision current

  -- The next local revision, which wraps round in a release build.
  unfoldable pub next_local_revision : Act Calls StorageError ℕ
  unfolding read_revision write_revision
  next_local_revision = do
    current ← read_revision local_revision_key
    write_revision local_revision_key ((current + 1) % 2 ^ 64)
    return ((current + 1) % 2 ^ 64)
