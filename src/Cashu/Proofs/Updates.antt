-- ===== src/Cashu/Proofs/Updates.antt =====
-- The operations on proofs: `update_proofs` to `update_proofs_state`, `get_proofs_by_ys` and
-- `reserve_proofs` to `get_reserved_proofs` in
-- orange-sdk/src/trusted_wallet/cashu/cashu_store.rs.
use orange_sdk.Prelude.{
  ℕ, ◌+◌, ◌%◌, ◌^◌, Bool, true, false, ◌&&◌, ◌||◌, not, Option, none, some, List, [], ◌∷◌,
  if◌then◌else◌, ◌==◌, nat_eq, length,
}
use orange_sdk.Prelude.Act.{Act, return, throw, asks, map_err, ◌>>=◌, ◌>>◌}
use orange_sdk.Platform.Kv.{call, remove}
use orange_sdk.Cashu.{
  CashuApi, CashuKvDatabase, CdkError, database, io, proof_not_unspent, into_cdk, ProofInfo,
  ProofState, unspent, reserved, pending, other_state,
}
use orange_sdk.Cashu.Records.{cashu_key, proof_reservations_key, on_calls}
use orange_sdk.Cashu.Proofs.{
  contains, filter, read_proofs, reload_uncertain_proofs, commit_proofs, reserved_proofs,
}
use orange_sdk.Cashu.Proofs.Upsert.{update_proofs_cache}

unfoldable pub state_beq : ProofState → ProofState → Bool
state_beq unspent unspent = true
state_beq reserved reserved = true
state_beq pending pending = true
state_beq (other_state m) (other_state n) = m == n
state_beq _ _ = false

abbrev pub contains_by : {A : Type 0} → (A → A → Bool) → A → List A → Bool
contains_by eq a [] = false
contains_by eq a (b ∷ bs) = eq b a || contains_by eq a bs

-- The elements of a `HashSet`, in some order.
unfoldable pub hash_set : List ℕ → List ℕ
unfolding contains
hash_set [] = []
hash_set (y ∷ ys) = let set = hash_set ys in if contains y set then set else y ∷ set

-- The loop that sets a state, and whether it changed a proof.
unfoldable pub set_states : List ℕ → ProofState → List ProofInfo → Bool × List ProofInfo
unfolding contains state_beq
set_states ys state [] = (false, [])
set_states ys state (p ∷ ps) =
    let (changed, rest) = set_states ys state ps in
    if contains p.y ys && not (state_beq p.state state)
    then (true, record p { state = state } ∷ rest)
    else (changed, p ∷ rest)

-- `retain` by a filter that may be absent.
unfoldable pub retain_by :
    {A : Type 0} → Option A → (A → ProofInfo → Bool) → List ProofInfo → List ProofInfo
unfolding filter
retain_by none test ps = ps
retain_by (some a) test ps = filter (test a) ps

is_empty : List ℕ → Bool
is_empty [] = true
is_empty (c ∷ cs) = false

-- The filters of `get_proofs`.
unfoldable pub select_proofs :
    Option ℕ
    → Option ℕ
    → Option (List ProofState)
    → Option (List ℕ)
    → List ProofInfo
    → List ProofInfo
unfolding retain_by state_beq contains is_empty
select_proofs mint_url unit state conditions ps =
    retain_by conditions
      (λ cs p. elim p.spending_condition [ none ↦ is_empty cs | some c ↦ contains c cs ])
      (retain_by state (λ states p. contains_by state_beq p.state states)
        (retain_by unit (λ u p. p.unit == u) (retain_by mint_url (λ m p. p.mint_url == m) ps)))

-- A sum of `u64`s, which wraps round in a release build.
unfoldable pub sum_amounts : List ProofInfo → ℕ
sum_amounts [] = 0
sum_amounts (p ∷ ps) = (p.amount + sum_amounts ps) % 2 ^ 64

module _ (api : CashuApi) where
  unfoldable pub proofs_beq : List ProofInfo → List ProofInfo → Bool
  proofs_beq [] [] = true
  proofs_beq (p ∷ ps) (q ∷ qs) = api.proof_eq.beq p q && proofs_beq ps qs
  proofs_beq _ _ = false

  -- The end of an operation that may have changed nothing.
  unfoldable pub commit_changed : Bool → List ProofInfo → Act CashuKvDatabase CdkError (Unit {0})
  unfolding commit_proofs
  commit_changed true proofs = commit_proofs api proofs
  commit_changed false proofs = return tt

  unfoldable pub update_proofs : List ProofInfo → List ℕ → Act CashuKvDatabase CdkError (Unit {0})
  unfolding reload_uncertain_proofs update_proofs_cache commit_changed proofs_beq
  update_proofs added removed_ys = do
    map_err into_cdk (reload_uncertain_proofs api)
    committed ← asks λ db. db.proofs_cache
    let updated : List ProofInfo = update_proofs_cache committed added removed_ys
    commit_changed (not (proofs_beq updated committed)) updated

  unfoldable pub get_proofs :
      Option ℕ
      → Option ℕ
      → Option (List ProofState)
      → Option (List ℕ)
      → Act CashuKvDatabase CdkError (List ProofInfo)
  unfolding read_proofs select_proofs
  get_proofs mint_url unit state conditions =
      map_err into_cdk (read_proofs api (select_proofs mint_url unit state conditions))

  unfoldable pub get_balance :
      Option ℕ → Option ℕ → Option (List ProofState) → Act CashuKvDatabase CdkError ℕ
  unfolding get_proofs sum_amounts
  get_balance mint_url unit state = do
    proofs ← get_proofs mint_url unit state none
    return (sum_amounts proofs)

  unfoldable pub get_proofs_by_ys : List ℕ → Act CashuKvDatabase CdkError (List ProofInfo)
  unfolding read_proofs filter contains
  get_proofs_by_ys ys = map_err into_cdk (read_proofs api (filter λ p. contains p.y ys))

  unfoldable pub update_proofs_state : List ℕ → ProofState → Act CashuKvDatabase CdkError (Unit {0})
  unfolding reload_uncertain_proofs set_states commit_changed hash_set
  update_proofs_state ys state = do
    map_err into_cdk (reload_uncertain_proofs api)
    committed ← asks λ db. db.proofs_cache
    let (changed, updated) = set_states (hash_set ys) state committed
    commit_changed changed updated

  -- Whether another operation owns the proof.
  owned_by_other : ℕ → ProofInfo → Bool
  owned_by_other operation_id p = elim p.used_by_operation [
    | none ↦ false
    | some owner ↦ not (owner == operation_id)
  ]

  is_reserved_unowned : ProofInfo → Bool
  unfolding state_beq
  is_reserved_unowned p = elim p.used_by_operation [
    | none ↦ state_beq p.state reserved
    | some _ ↦ false
  ]

  has_y : ℕ → List ProofInfo → Bool
  has_y y [] = false
  has_y y (p ∷ ps) = p.y == y || has_y y ps

  -- One turn of the loop of `reserve_proofs`.
  unfoldable pub reserve_one : ℕ → ProofInfo → Act CashuKvDatabase CdkError ProofInfo
  unfolding owned_by_other state_beq is_reserved_unowned has_y reserved_proofs
  reserve_one operation_id p =
      if owned_by_other operation_id p
        || not (state_beq p.state unspent || state_beq p.state reserved)
      then throw proof_not_unspent
      else if is_reserved_unowned p
      then (do
        owned ← reserved_proofs api operation_id
        if has_y p.y owned
            then return (record p { state = reserved; used_by_operation = some operation_id })
            else throw proof_not_unspent)
      else return (record p { state = reserved; used_by_operation = some operation_id })

  -- The turn of the proofs that are requested; the others stay.
  unfoldable pub reserve_if : Bool → ℕ → ProofInfo → Act CashuKvDatabase CdkError ProofInfo
  unfolding reserve_one
  reserve_if true operation_id p = reserve_one operation_id p
  reserve_if false operation_id p = return p

  unfoldable pub reserve_each :
      ℕ → List ℕ → List ProofInfo → Act CashuKvDatabase CdkError (List ProofInfo)
  unfolding reserve_if contains
  reserve_each operation_id requested [] = return []
  reserve_each operation_id requested (p ∷ ps) = do
    q ← reserve_if (contains p.y requested) operation_id p
    rest ← reserve_each operation_id requested ps
    return (q ∷ rest)

  -- The selection names a proof twice, or one that is not there any more.
  unfoldable pub is_stale : List ℕ → List ProofInfo → Bool
  unfolding hash_set filter contains
  is_stale ys ps =
      not (length (hash_set ys) == length ys)
      || not (length (filter (λ p. contains p.y (hash_set ys)) ps) == length ys)

  -- The operation on the proofs that the cache has.
  unfoldable pub reserve_committed :
      ℕ → List ℕ → List ProofInfo → Act CashuKvDatabase CdkError (Unit {0})
  unfolding is_stale reserve_each commit_proofs hash_set
  reserve_committed operation_id ys committed =
      if is_stale ys committed
      then throw proof_not_unspent
      else (do proofs ← reserve_each operation_id (hash_set ys) committed; commit_proofs api proofs)

  unfoldable pub reserve_proofs : List ℕ → ℕ → Act CashuKvDatabase CdkError (Unit {0})
  unfolding reload_uncertain_proofs reserve_committed
  reserve_proofs [] operation_id = return tt
  reserve_proofs (y ∷ ys) operation_id = do
    map_err into_cdk (reload_uncertain_proofs api)
    committed ← asks λ db. db.proofs_cache
    reserve_committed operation_id (y ∷ ys) committed

  unfoldable pub release_each : List ProofInfo → List ProofInfo → List ProofInfo
  unfolding has_y state_beq
  release_each owned [] = []
  release_each owned (p ∷ ps) =
      let rest = release_each owned ps in
      if has_y p.y owned && (state_beq p.state reserved || state_beq p.state pending)
      then record p { state = unspent; used_by_operation = none } ∷ rest
      else p ∷ rest

  -- The release of the proofs that the operation owns.
  unfoldable pub release_owned : ℕ → List ProofInfo → Act CashuKvDatabase CdkError (Unit {0})
  unfolding release_each commit_proofs
  release_owned operation_id owned = do
    committed ← asks λ db. db.proofs_cache
    commit_proofs api (release_each owned committed)
    on_calls (
        call api.kv (database io)
          (remove (cashu_key proof_reservations_key (api.uuid_to_string operation_id))))

  unfoldable pub release_proofs : ℕ → Act CashuKvDatabase CdkError (Unit {0})
  unfolding reload_uncertain_proofs reserved_proofs release_owned
  release_proofs operation_id = do
    map_err into_cdk (reload_uncertain_proofs api)
    owned ← reserved_proofs api operation_id
    release_owned operation_id owned

  unfoldable pub get_reserved_proofs : ℕ → Act CashuKvDatabase CdkError (List ProofInfo)
  unfolding reload_uncertain_proofs reserved_proofs
  get_reserved_proofs operation_id = do
    map_err into_cdk (reload_uncertain_proofs api)
    reserved_proofs api operation_id
