-- ===== src/Store/Restart/Restored.antt =====
-- A restart finds the metadata that was there before it (`TxMetadataStore::new` in
-- orange-sdk/src/store.rs).
use orange_sdk.Prelude.{
  ℕ, zero, suc, ◌≡◌, ◌≢◌, ◌⊎◌, inl, inr, refl, sym, ap, ◌∙◌, subst, Option, none, some,
  Option-cases, List, [], ◌∷◌, Text, Result, ok, arith, Bool-cases, ◌==◌,
}
use orange_sdk.Prelude.Assoc.{HashMap, get, insert, get-insert_self, get-insert_ne}
use orange_sdk.Platform.{HexLaws, Write, found}
use orange_sdk.Platform.Reads.{Record, read_keys_bounded, returned}
use orange_sdk.Platform.Reads.Tasks.{Among, get_elem?}
use orange_sdk.Platform.Reads.Serial.{
  read_serial, read_serial-cons, Gathers, read_keys_bounded-Gathers,
}
use orange_sdk.Store.Types.{PaymentId, TxMetadata, id_eq, id_beq_iff}
use orange_sdk.Store.Ids.{to_string, from_str, from_str-to_string, to_string_inj}
use orange_sdk.Store.World.{Backend, Store, lookup, metadata_key}
use orange_sdk.Store.Wrote.{IsMirrored, on_disk}
use orange_sdk.Store.Restart.{entry_key, to_result, load_records, new_store}

-- `KVStore::list` gives the keys of the namespace under which something is stored, and the wallet
-- is the only one to write there: each is the text of a payment id.
pub record IsListed (api : Backend) (h : List Write) (keys : List Text) : Type 0 where
  pub listed : (k : Text) → Among k keys → (d : List ℕ) × (api.kv.read h (entry_key k) ≡ found d)
  pub complete : (k : Text) (d : List ℕ) → api.kv.read h (entry_key k) ≡ found d → Among k keys
  pub ids : (k : Text) → Among k keys → (id : PaymentId) × (k ≡ to_string api.hex id)

Among-get_elem? : {A : Type 0} (xs : List A) (i : ℕ) (x : A) → get_elem? xs i ≡ some x → Among x xs
Among-get_elem? [] i x e = ground (arith, e)
Among-get_elem? (y ∷ xs) zero x e = inl (ground (arith, e))
Among-get_elem? (y ∷ xs) (suc i) x e = inr (Among-get_elem? xs i x e)

module _ (api : Backend) (decode : List ℕ → Option TxMetadata) (hex_laws : HexLaws api.hex)
    (s : Store)
    (decode-encode : (id : PaymentId) (m : TxMetadata)
      → lookup id s ≡ some m
      → decode (api.encode_metadata m) ≡ some m) where
  abbrev read : Text → Result (List ℕ) (Unit {0})
  read k = to_result (api.kv.read s.writes (entry_key k))

  -- The key holds the entry that is in memory.
  abbrev Holds : Text → Type 0
  Holds k =
      (id : PaymentId) × (m : TxMetadata) × (k ≡ to_string api.hex id)
      × (lookup id s ≡ some m)
      × (read k ≡ ok (api.encode_metadata m))

  load_records-cons :
      (k : Text) (id : PaymentId) (m : TxMetadata) (rs : List Record)
      (acc : HashMap PaymentId TxMetadata)
      → k ≡ to_string api.hex id
      → lookup id s ≡ some m
      → load_records api.hex decode ((k, api.encode_metadata m) ∷ rs) acc
        ≡ load_records api.hex decode rs (insert id m acc)
  unfolding load_records
  load_records-cons k id m rs acc ek el = ground (
    arith,
    subst (λ t. from_str api.hex t ≡ some (ok id)) (sym ek)
        (from_str-to_string api.hex hex_laws id),
    decode-encode id m el,
  )

  -- What stands under an id after the loop: what is in memory, or, where its key was not met, what
  -- the map held before.
  abbrev Known :
      PaymentId → HashMap PaymentId TxMetadata → HashMap PaymentId TxMetadata → List Text → Type 0
  Known j after acc keys =
      (get j after ≡ lookup j s) ⊎ ((get j after ≡ get j acc) × ¬ Among (to_string api.hex j) keys)

  insert-Known :
      (id j : PaymentId) (m : TxMetadata) (k : Text) (keys : List Text)
      (acc after : HashMap PaymentId TxMetadata)
      → k ≡ to_string api.hex id
      → lookup id s ≡ some m
      → Known j after (insert id m acc) keys
      → Known j after acc (k ∷ keys)
  insert-Known id j m k keys acc after ek el (inl e) = inl e
  insert-Known id j m k keys acc after ek el (inr (e, apart)) = elim (Bool-cases (id == j)) [
    | inl b ↦ inl (
        e
        ∙ subst (λ i. get i (insert id m acc) ≡ lookup i s) ((id_beq_iff id j).0 b)
            (get-insert_self id m acc ∙ sym el))
    | inr b ↦
        (let ne : id ≢ j = λ q. ground (arith, id_beq_iff id j, b, q) in
          inr (
            e ∙ get-insert_ne id j m acc ne,
            λ a. elim a [
              | inl t ↦ ne (to_string_inj api.hex hex_laws id j (sym ek ∙ sym t))
              | inr n ↦ apart n
            ],
          ))
  ]

  -- What the loop makes of the keys' records, over the map made so far.
  load_records-Holds :
      (keys : List Text)
      → ((k : Text) → Among k keys → Holds k)
      → (acc : HashMap PaymentId TxMetadata)
      → (rs : List Record) × (m : HashMap PaymentId TxMetadata) × (read_serial read keys ≡ ok rs)
        × (load_records api.hex decode rs acc ≡ some m)
        × ((j : PaymentId) → Known j m acc keys)
  unfolding load_records read_serial
  load_records-Holds [] h acc = ([], acc, refl, refl, λ j. inr (refl, λ m. m))
  load_records-Holds (k ∷ keys) h acc =
      (let (id, m, ek, el, er) = h k (inl refl) in
        let (rs, after, es, ea, rest) =
          load_records-Holds keys (λ j a. h j (inr a)) (insert id m acc) in
        (
          (k, api.encode_metadata m) ∷ rs,
          after,
          read_serial-cons read k (api.encode_metadata m) keys rs er es,
          load_records-cons k id m rs acc ek el ∙ ea,
          λ j. insert-Known id j m k keys acc after ek el (rest j),
        ))

  module _ (mirrored : IsMirrored api s) (keys : List Text) (h : IsListed api s.writes keys) where
    Among-Holds : (k : Text) → Among k keys → Holds k
    Among-Holds k a =
        (let (id, ek) = h.ids k a in
          let (d, er) = h.listed k a in
          let stored : api.kv.read s.writes (metadata_key api id) ≡ found d =
            subst (λ t. api.kv.read s.writes (entry_key t) ≡ found d) ek er in
          elim (Option-cases (lookup id s)) [
            | inl n ↦ absurd (ground (arith, stored, mirrored.mirrors id, n))
            | inr (m, el) ↦ (
              id,
              m,
              ek,
              el,
              subst (λ t. read t ≡ ok (api.encode_metadata m)) (sym ek)
                  (rw (mirrored.mirrors id, el) refl),
            )
          ])

    -- A key that was not met has no entry in memory.
    Known-lookup :
        (m : HashMap PaymentId TxMetadata) (id : PaymentId)
        → Known id m [] keys
        → get id m ≡ lookup id s
    unfolding get
    Known-lookup m id (inl e) = e
    Known-lookup m id (inr (e, apart)) = elim (Option-cases (lookup id s)) [
      | inl n ↦ e ∙ sym n
      | inr (v, el) ↦
          absurd (
            apart
              (h.complete _ (api.encode_metadata v) (mirrored.mirrors id ∙ ap (on_disk api) el)))
    ]

    new_store-loaded :
        (picks : ℕ → ℕ) (rs : List Record) (m : HashMap PaymentId TxMetadata)
        → read_keys_bounded read picks keys ≡ returned (ok rs)
        → load_records api.hex decode rs [] ≡ some m
        → new_store api decode picks (some keys) s.writes
          ≡ some (record { tx_metadata = m; rebalance_enabled = none; writes = s.writes })
    unfolding new_store
    new_store-loaded picks rs m eb el = ground (arith, eb, el)

    reads-ok :
        (picks : ℕ → ℕ) (rs : List Record)
        → read_serial read keys ≡ ok rs
        → Gathers read keys (read_keys_bounded read picks keys)
        → read_keys_bounded read picks keys ≡ returned (ok rs)
    reads-ok picks rs es (inl (found_rs, ef, eb)) = ground (arith, es, ef, eb)
    reads-ok picks rs es (inr (i, k, e, ek, er, eb)) =
        (let (id, m, _, _, eo) = Among-Holds k (Among-get_elem? keys i k ek) in
          absurd (ground (arith, er, eo)))

    -- If memory and disk hold the same entries the encoding of each entry is decoded to it, and
    -- the listing is as documented, then a
    -- restart, in whatever order its reads end, does not panic and writes nothing, and finds under
    -- every id what was in memory.
    pub new_store-restores :
        (picks : ℕ → ℕ)
        → (after : Store) × (new_store api decode picks (some keys) s.writes ≡ some after)
          × (after.writes ≡ s.writes)
          × ((id : PaymentId) → lookup id after ≡ lookup id s)
    new_store-restores picks =
        (let (rs, m, es, el, known) = load_records-Holds keys Among-Holds [] in
          let eb : read_keys_bounded read picks keys ≡ returned (ok rs) =
            reads-ok picks rs es (read_keys_bounded-Gathers read picks keys) in
          (
            record { tx_metadata = m; rebalance_enabled = none; writes = s.writes },
            new_store-loaded picks rs m eb el,
            refl,
            λ id. Known-lookup m id (known id),
          ))
