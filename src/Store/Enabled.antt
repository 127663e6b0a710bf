-- ===== src/Store/Enabled.antt =====
-- `RebalanceEnabledCache` (orange-sdk/src/store.rs): the persisted switch of the rebalancer.
use orange_sdk.Prelude.{◌≡◌, refl, Bool, true, Option, none, some, ◌∷◌, arith, codes}
use orange_sdk.Prelude.Run.{Run, Returns, Returns-of_eq, pure, panic, gets, modify, ◌>>=◌, ◌>>◌}
use orange_sdk.Platform.{KvStoreLaws, StoreKey, ReadResult, found, not_found, read_error}
use orange_sdk.Store.World.{Backend, Store, store_primary_key, write_or_panic, kv_write}
use orange_sdk.Store.Wrote.{Reliable}

abbrev pub rebalance_enabled_key : StoreKey
rebalance_enabled_key = record {
  primary = store_primary_key;
  secondary = codes "";
  key = codes "rebalance_enabled";
}

-- `RebalanceEnabledCache::write`
unfoldable pub write_enabled : Backend → Bool → Run Store (Unit {0})
unfolding write_or_panic kv_write
write_enabled api enabled = write_or_panic api rebalance_enabled_key (api.encode_bool enabled)

-- The value on disk: a key that is missing is written as `true`.
load_enabled : Backend → ReadResult → Run Store Bool
load_enabled api (found bytes) = elim (api.decode_bool bytes) [ none ↦ panic | some v ↦ pure v ]
load_enabled api not_found = do write_enabled api true; pure true
load_enabled api read_error = panic

cached_or_load : Backend → Option Bool → Run Store Bool
cached_or_load api (some value) = pure value
cached_or_load api none = do
  read ← gets (λ s. api.kv.read s.writes rebalance_enabled_key)
  value ← load_enabled api read
  modify (λ s. record s { rebalance_enabled = some value })
  pure value

unfoldable pub get_enabled : Backend → Run Store Bool
unfolding cached_or_load load_enabled
get_enabled api s = cached_or_load api s.rebalance_enabled s

unfoldable pub set_enabled : Backend → Bool → Run Store (Unit {0})
set_enabled api enabled = do
  write_enabled api enabled
  modify (λ s. record s { rebalance_enabled = some enabled })

-- A flag that was read before is not read again.
pub get_enabled_cached :
    (api : Backend) (v : Bool) (s : Store)
    → s.rebalance_enabled ≡ some v
    → get_enabled api s ≡ some (v, s)
unfolding get_enabled
get_enabled_cached api v s e = rw (e, cached_or_load)

-- What the code relies on of the codec of `bool`.
abbrev pub BoolLaws : Backend → Type 0
BoolLaws api = (v : Bool) → api.decode_bool (api.encode_bool v) ≡ some v

-- The cache, where it is filled, holds what is on disk.
abbrev pub IsCached : Backend → Bool → Store → Type 0
IsCached api v s =
    (s.rebalance_enabled ≡ some v)
    × (api.kv.read s.writes rebalance_enabled_key ≡ found (api.encode_bool v))

-- A restart keeps what is on disk and forgets the cache.
abbrev pub restarted : Store → Store
restarted s = record s { rebalance_enabled = none }

module _ (api : Backend) (kv_laws : KvStoreLaws api.kv) (reliable : Reliable api.kv) where
  write_enabled_lem :
      (v : Bool) (s : Store)
      → write_enabled api v s
        ≡ some (
          tt,
          record s {
            writes = record { key = rebalance_enabled_key; buf = api.encode_bool v } ∷ s.writes;
          },
        )
  unfolding write_enabled
  write_enabled_lem v s = rw (reliable _)

  abbrev saved_enabled : Bool → Store → Store
  saved_enabled v s = record s {
    rebalance_enabled = some v;
    writes = record { key = rebalance_enabled_key; buf = api.encode_bool v } ∷ s.writes;
  }

  saved_on_disk :
      (v : Bool) (s : Store)
      → api.kv.read (saved_enabled v s).writes rebalance_enabled_key ≡ found (api.encode_bool v)
  saved_on_disk v s = kv_laws.read-write_self _ s.writes (reliable _)

  get_loads :
      (v : Bool) (s : Store)
      → BoolLaws api
      → api.kv.read s.writes rebalance_enabled_key ≡ found (api.encode_bool v)
      → s.rebalance_enabled ≡ none
      → get_enabled api s ≡ some (v, record s { rebalance_enabled = some v })
  unfolding get_enabled
  get_loads v s codec e n = ground (arith, codec v)

  -- Where no write fails and the codec of a flag is a round trip, a value that is set is cached and on disk, and it is what is read
  -- afterwards: from the cache, and from disk after a restart.
  pub get_enabled-set_enabled :
      (v : Bool) (s : Store)
      → BoolLaws api
      → Returns
          (λ _ s'.
            IsCached api v s'
            × (get_enabled api s' ≡ some (v, s'))
            × (get_enabled api (restarted s') ≡ some (v, s')))
          (set_enabled api v s)
  unfolding get_enabled set_enabled
  get_enabled-set_enabled v s codec =
      Returns-of_eq
        (λ _ s'.
          IsCached api v s'
          × (get_enabled api s' ≡ some (v, s'))
          × (get_enabled api (restarted s') ≡ some (v, s')))
        {s = saved_enabled v s} (ground (arith, write_enabled_lem v s))
        (
          (refl, saved_on_disk v s),
          refl,
          get_loads v (restarted (saved_enabled v s)) codec (saved_on_disk v s) refl,
        )

  -- Where no write fails and nothing was stored, rebalancing is on, and that is cached and written.
  pub get_enabled_default :
      (s : Store)
      → s.rebalance_enabled ≡ none
      → api.kv.read s.writes rebalance_enabled_key ≡ not_found
      → Returns (λ v s'. (v ≡ true) × IsCached api true s') (get_enabled api s)
  get_enabled_default s n e =
      Returns-of_eq (λ v s'. (v ≡ true) × IsCached api true s') {s = saved_enabled true s}
        (default s n e) (refl, (refl, saved_on_disk true s))
    where
      default :
          (s : Store)
          → s.rebalance_enabled ≡ none
          → api.kv.read s.writes rebalance_enabled_key ≡ not_found
          → get_enabled api s ≡ some (true, saved_enabled true s)
      default s n e = unfold get_enabled in ground (arith, write_enabled_lem true s)
