-- ===== src/Cashu/Counters.antt =====
-- The counters from which secrets are derived: `increment_keyset_counter` and
-- `increment_derivation_counter` in orange-sdk/src/trusted_wallet/cashu/cashu_store.rs.
use orange_sdk.Prelude.{
  ℕ, ◌+◌, ◌<◌, ◌^◌, ◌≡◌, true, Option, none, some, List, ◌∷◌, Text, Result, ok, err, if◌then◌else◌,
  ltb, arith, nat_eq,
}
use orange_sdk.Prelude.Act.{Act, return, try, map_err, map_err-eq-ok, ◌>>=◌, ◌>>◌, >>=-eq-ok}
use orange_sdk.Platform.{StoreKey, ReadResult, found, not_found, read_error}
use orange_sdk.Platform.Kv.{Calls, read_key, ok_or, write}
use orange_sdk.Cashu.{
  CashuApi, CashuLaws, CdkError, DatabaseError, serialization, io, invalid_format, into_cdk,
}
use orange_sdk.Cashu.Records.{
  cashu_key, keyset_counters_key, derivation_counters_key, write_record, write_record-ok,
}

-- `u32::checked_add`.
unfoldable pub checked_add : ℕ → ℕ → Option ℕ
checked_add a b = if ltb (a + b) (2 ^ 32) then some (a + b) else none

module _ (api : CashuApi) where
  -- A counter that was never written is 0.
  unfoldable pub decode_counter : ReadResult → Result ℕ DatabaseError
  decode_counter (found d) = elim (api.u32_json.from_slice d) [
    | none ↦ err serialization
    | some n ↦ ok n
  ]
  decode_counter not_found = ok 0
  decode_counter read_error = err io

  -- What both operations do, each on its own key.
  unfoldable pub increment : StoreKey → ℕ → Act Calls DatabaseError ℕ
  unfolding decode_counter checked_add write_record
  increment k count = do
    r ← read_key api.kv k
    current ← try (decode_counter r)
    next ← try (ok_or invalid_format (checked_add current count))
    write_record api.kv api.u32_json k next
    return next

  unfoldable pub increment_keyset_counter : ℕ → ℕ → Act Calls CdkError ℕ
  unfolding increment
  increment_keyset_counter keyset_id count =
      map_err into_cdk
        (increment (cashu_key keyset_counters_key (api.id_to_string keyset_id)) count)

  unfoldable pub increment_derivation_counter : Text → ℕ → Act Calls CdkError ℕ
  unfolding increment
  increment_derivation_counter namespace count =
      map_err into_cdk
        (increment (cashu_key derivation_counters_key (api.hex_encode namespace)) count)

checked_add-some : (a b n : ℕ) → checked_add a b ≡ some n → (n ≡ a + b) × (n < 2 ^ 32)
unfolding checked_add
checked_add-some a b n h = ground (arith, h)

module _ (api : CashuApi) (laws : CashuLaws api) where
  decode_counter-written :
      (k : StoreKey) (d : List ℕ) (h h' : Calls) (next n : ℕ)
      → h' ≡ write k d ∷ h
      → api.kv.is_ok (write k d ∷ h) ≡ true
      → api.u32_json.from_slice d ≡ some next
      → next ≡ n
      → decode_counter api (api.kv.read h' k) ≡ ok n
  unfolding decode_counter
  decode_counter-written k d h h' next n eh w s en =
      rw (eh, laws.kv.read-write_self k d h w) (ground (arith, s, en))

  -- An increment that returned, in its steps.
  increment-ok :
      (k : StoreKey) (count : ℕ) (h h' : Calls) (n : ℕ)
      → increment api k count h ≡ (ok n, h')
      → (current : ℕ) × (decode_counter api (api.kv.read h k) ≡ ok current)
        × (n ≡ current + count)
        × (n < 2 ^ 32)
        × (decode_counter api (api.kv.read h' k) ≡ ok n)
  unfolding increment
  increment-ok k count h h' n e =
      (let (current, t1, e1, r1) =
          >>=-eq-ok (try (decode_counter api (api.kv.read h k)))
            (λ current. try (ok_or invalid_format (checked_add current count)) >>= λ next.
              write_record api.kv api.u32_json k next >> return next)
            h e in
        let (next, t2, e2, r2) =
          >>=-eq-ok (try (ok_or invalid_format (checked_add current count)))
            (λ next. write_record api.kv api.u32_json k next >> return next) t1 r1 in
        let (u, t3, e3, r3) =
          >>=-eq-ok (write_record api.kv api.u32_json k next) (λ _. return next) t2 r2 in
        let (d, enc, w, eh) =
          write_record-ok api.kv laws.kv api.u32_json laws.u32_json k next t2 t3 e3 in
        let sum : checked_add current count ≡ some next = ground (arith, e2) in
        let (eq, bound) = checked_add-some current count next sum in
        let en : next ≡ n = ground (arith, r3) in
        let eh' : h' ≡ write k d ∷ t2 = ground (arith, r3, eh) in
        (
          current,
          ground (arith, e1),
          ground (arith, eq, en),
          ground (arith, bound, en),
          decode_counter-written k d t2 h' next n eh' w (laws.u32_json.from_slice-to_vec next d enc)
              en,
        ))

  -- Two increments of one counter in turn.
  increment-disjoint :
      (k : StoreKey) (count more : ℕ) (h h' h'' : Calls) (n n' : ℕ)
      → increment api k count h ≡ (ok n, h')
      → increment api k more h' ≡ (ok n', h'')
      → (n' ≡ n + more) × (n' < 2 ^ 32)
  increment-disjoint k count more h h' h'' n n' e e' =
      (let (c, d, s, b, r) = increment-ok k count h h' n e in
        let (c', d', s', b', r') = increment-ok k more h' h'' n' e' in
        ground (arith, r, d', s', b'))

  -- Where what was written is read back, two increments of a keyset's counter that returned hand
  -- out ranges of indexes that lie side by side and below 2^32: the second ends at the end of the
  -- first plus its own count.
  pub increment_keyset_counter-disjoint :
      (keyset_id count more : ℕ) (h h' h'' : Calls) (n n' : ℕ)
      → increment_keyset_counter api keyset_id count h ≡ (ok n, h')
      → increment_keyset_counter api keyset_id more h' ≡ (ok n', h'')
      → (n' ≡ n + more) × (n' < 2 ^ 32)
  unfolding increment_keyset_counter
  increment_keyset_counter-disjoint keyset_id count more h h' h'' n n' e e' =
      (let k : StoreKey = cashu_key keyset_counters_key (api.id_to_string keyset_id) in
        increment-disjoint k count more h h' h'' n n'
          (map_err-eq-ok into_cdk (increment api k count) h e)
          (map_err-eq-ok into_cdk (increment api k more) h' e'))
