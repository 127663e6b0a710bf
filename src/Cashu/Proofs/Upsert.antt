-- ===== src/Cashu/Proofs/Upsert.antt =====
-- `update_proofs_cache` (orange-sdk/src/trusted_wallet/cashu/cashu_store.rs): proofs are added or
-- replaced by their `y`, then removed.
use orange_sdk.Prelude.{
  ℕ, ◌≡◌, refl, true, Option, none, some, List, [], ◌∷◌, ◌++◌, is_some, Option-cases, ◌⊎◌, inl, inr,
  if◌then◌else◌, arith, ◌==◌, nat_eq, nat_beq_iff,
}
use orange_sdk.Prelude.Assoc.{HashMap, get, insert, get-insert}
use orange_sdk.Cashu.{ProofInfo}
use orange_sdk.Cashu.Proofs.{contains, unique_from}

-- The indexes of the proofs that have one, by their `y`; a later one replaces an earlier one.
unfoldable pub collect_indexes : HashMap ℕ ℕ → List ProofInfo → HashMap ℕ ℕ
collect_indexes indexes [] = indexes
collect_indexes indexes (p ∷ ps) = elim p.derivation_index [
  | none ↦ collect_indexes indexes ps
  | some index ↦ collect_indexes (insert p.y index indexes) ps
]

-- A proof that comes without an index takes the last one known for its `y`.
unfoldable pub with_indexes : HashMap ℕ ℕ → List ProofInfo → List ProofInfo
with_indexes indexes [] = []
with_indexes indexes (p ∷ ps) = elim p.derivation_index [
  | none ↦ record p { derivation_index = get p.y indexes } ∷ with_indexes indexes ps
  | some index ↦ p ∷ with_indexes (insert p.y index indexes) ps
]

-- The loop from the last proof to the first that keeps the first one it meets of each `y`, with
-- the ys it met; the proofs come out in their first order.
unfoldable pub dedupe : List ProofInfo → List ℕ × List ProofInfo
unfolding contains
dedupe [] = ([], [])
dedupe (p ∷ ps) =
    let (ys, kept) = dedupe ps in if contains p.y ys then (ys, kept) else (p.y ∷ ys, p ∷ kept)

-- `retain` of the proofs whose `y` is not in the set.
unfoldable pub retain_not_in : List ℕ → List ProofInfo → List ProofInfo
unfolding contains
retain_not_in ys [] = []
retain_not_in ys (p ∷ ps) =
    let rest = retain_not_in ys ps in if contains p.y ys then rest else p ∷ rest

unfoldable pub update_proofs_cache : List ProofInfo → List ProofInfo → List ℕ → List ProofInfo
unfolding collect_indexes with_indexes dedupe retain_not_in
update_proofs_cache cache added removed_ys =
    let (added_ys, added_deduped) = dedupe (with_indexes (collect_indexes [] cache) added) in
    retain_not_in removed_ys (retain_not_in added_ys cache ++ added_deduped)

-- The first proof with the `y`.
unfoldable pub find : ℕ → List ProofInfo → Option ProofInfo
find y [] = none
find y (p ∷ ps) = if p.y == y then some p else find y ps

-- The last one.
unfoldable pub find_last : ℕ → List ProofInfo → Option ProofInfo
find_last y [] = none
find_last y (p ∷ ps) = elim (find_last y ps) [
  | none ↦ if p.y == y then some p else none
  | some q ↦ some q
]

-- The last index that a proof with the `y` has.
unfoldable pub last_index : ℕ → List ProofInfo → Option ℕ
last_index y [] = none
last_index y (p ∷ ps) = elim (last_index y ps) [
  | none ↦ if p.y == y then p.derivation_index else none
  | some i ↦ some i
]

or : {A : Type 0} → Option A → Option A → Option A
or none o = o
or (some a) o = some a

with_index : Option ℕ → Option ProofInfo → Option ProofInfo
with_index i none = none
with_index i (some p) = some (record p { derivation_index = i })

get-collect_indexes :
    (y : ℕ) (m : HashMap ℕ ℕ) (ps : List ProofInfo)
    → get y (collect_indexes m ps) ≡ or (last_index y ps) (get y m)
unfolding collect_indexes last_index or
get-collect_indexes y m [] = refl
get-collect_indexes y m (p ∷ ps) = elim (Option-cases p.derivation_index) [
  | inl n ↦ ground (arith, n, get-collect_indexes y m ps)
  | inr (i, e) ↦ ground (arith, e, get-collect_indexes y (insert p.y i m) ps, get-insert p.y y i m)
]

last_index-find_last :
    (y : ℕ) (ps : List ProofInfo) → find_last y ps ≡ none → last_index y ps ≡ none
unfolding find_last last_index
last_index-find_last y [] h = refl
last_index-find_last y (p ∷ ps) h = ground (arith, last_index-find_last y ps, h)

find_last-with_indexes :
    (y : ℕ) (m : HashMap ℕ ℕ) (ps : List ProofInfo)
    → find_last y (with_indexes m ps) ≡ with_index (or (last_index y ps) (get y m)) (find_last y ps)
unfolding with_indexes find_last last_index or with_index
find_last-with_indexes y m [] = refl
find_last-with_indexes y m (p ∷ ps) = elim (Option-cases p.derivation_index) [
  | inl n ↦ rw n (
      ground
        (arith, n, find_last-with_indexes y m ps, nat_beq_iff p.y y, last_index-find_last y ps))
  | inr (i, e) ↦ rw e (
      ground (
        arith,
        e,
        find_last-with_indexes y (insert p.y i m) ps,
        get-insert p.y y i m,
        nat_beq_iff p.y y,
        last_index-find_last y ps,
      ))
]

contains-dedupe :
    (y : ℕ) (ps : List ProofInfo) → contains y (dedupe ps).0 ≡ is_some (find_last y ps)
unfolding dedupe find_last contains
contains-dedupe y [] = refl
contains-dedupe y (p ∷ ps) =
    ground (arith, contains-dedupe y ps, contains-dedupe p.y ps, nat_beq_iff p.y y)

find-dedupe : (y : ℕ) (ps : List ProofInfo) → find y (dedupe ps).1 ≡ find_last y ps
unfolding dedupe find_last find
find-dedupe y [] = refl
find-dedupe y (p ∷ ps) = ground (arith, find-dedupe y ps, contains-dedupe p.y ps, nat_beq_iff p.y y)

find-retain_not_in :
    (y : ℕ) (ys : List ℕ) (ps : List ProofInfo)
    → find y (retain_not_in ys ps) ≡ (if contains y ys then none else find y ps)
unfolding retain_not_in find
find-retain_not_in y ys [] = ground arith
find-retain_not_in y ys (p ∷ ps) = ground (arith, find-retain_not_in y ys ps, nat_beq_iff p.y y)

find-append : (y : ℕ) (xs ys : List ProofInfo) → find y (xs ++ ys) ≡ or (find y xs) (find y ys)
unfolding find or
find-append y [] ys = refl
find-append y (p ∷ xs) ys = ground (arith, find-append y xs ys)

last_index-append :
    (y : ℕ) (xs ys : List ProofInfo)
    → last_index y (xs ++ ys) ≡ or (last_index y ys) (last_index y xs)
unfolding last_index or
last_index-append y [] ys = ground arith
last_index-append y (p ∷ xs) ys = ground (arith, last_index-append y xs ys)

-- After an update, what is found under a `y` is nothing if it was removed; else the last proof
-- added with it, carrying the last index that the cache or the added proofs give to that `y`; else
-- what the cache had.
pub find-update_proofs_cache :
    (y : ℕ) (cache added : List ProofInfo) (removed_ys : List ℕ)
    → find y (update_proofs_cache cache added removed_ys) ≡ (
        if contains y removed_ys then none else elim (find_last y added) [
          | none ↦ find y cache
          | some p ↦ some (record p { derivation_index = last_index y (cache ++ added) })
        ])
unfolding update_proofs_cache or with_index get
find-update_proofs_cache y cache added removed_ys =
    (let m : HashMap ℕ ℕ = collect_indexes [] cache in
      let xs : List ProofInfo = with_indexes m added in
      ground (
        arith,
        find-retain_not_in y removed_ys (retain_not_in (dedupe xs).0 cache ++ (dedupe xs).1),
        find-append y (retain_not_in (dedupe xs).0 cache) (dedupe xs).1,
        find-retain_not_in y (dedupe xs).0 cache,
        contains-dedupe y xs,
        find-dedupe y xs,
        find_last-with_indexes y m added,
        get-collect_indexes y [] cache,
        last_index-append y cache added,
      ))

-- Each proof is the only one with its `y`.
abbrev pub Distinct : List ProofInfo → Type 0
Distinct [] = Unit
Distinct (p ∷ ps) = (find p.y ps ≡ none) × Distinct ps

Distinct-retain_not_in :
    (ys : List ℕ) (ps : List ProofInfo) → Distinct ps → Distinct (retain_not_in ys ps)
unfolding retain_not_in
Distinct-retain_not_in ys [] h = tt
Distinct-retain_not_in ys (p ∷ ps) h =
    ground (arith, find-retain_not_in p.y ys ps, Distinct-retain_not_in ys ps h.1, h.0)

Distinct-dedupe : (ps : List ProofInfo) → Distinct (dedupe ps).1
unfolding dedupe
Distinct-dedupe [] = tt
Distinct-dedupe (p ∷ ps) = ground (
  arith,
  Distinct-dedupe ps,
  contains-dedupe p.y ps,
  find-dedupe p.y ps,
  Option-cases (find_last p.y ps),
)

Distinct-append :
    (xs ys : List ProofInfo)
    → Distinct xs
    → Distinct ys
    → ((y : ℕ) → (find y xs ≡ none) ⊎ (find y ys ≡ none))
    → Distinct (xs ++ ys)
unfolding find or
Distinct-append [] ys hx hy d = hy
Distinct-append (p ∷ xs) ys hx hy d = (
  ground (arith, find-append p.y xs ys, hx.0, d p.y),
  Distinct-append xs ys hx.1 hy λ y. ground (arith, d y),
)

-- An update leaves one proof at most under each `y`.
pub update_proofs_cache-Distinct :
    (cache added : List ProofInfo) (removed_ys : List ℕ)
    → Distinct cache
    → Distinct (update_proofs_cache cache added removed_ys)
unfolding update_proofs_cache
update_proofs_cache-Distinct cache added removed_ys h =
    (let xs : List ProofInfo = with_indexes (collect_indexes [] cache) added in
      Distinct-retain_not_in removed_ys (retain_not_in (dedupe xs).0 cache ++ (dedupe xs).1) (
        Distinct-append (retain_not_in (dedupe xs).0 cache) (dedupe xs).1
          (Distinct-retain_not_in (dedupe xs).0 cache h) (Distinct-dedupe xs)
          λ y. ground (
            arith,
            find-retain_not_in y (dedupe xs).0 cache,
            contains-dedupe y xs,
            find-dedupe y xs,
            Option-cases (find_last y xs),
          )))

-- The check that the snapshot passes before it is written is that each proof is the only one.
pub unique_from-true :
    (ys : List ℕ) (ps : List ProofInfo)
    → Distinct ps
    → ((y : ℕ) → contains y ys ≡ true → find y ps ≡ none)
    → unique_from ys ps ≡ true
unfolding unique_from find contains
unique_from-true ys [] h d = refl
unique_from-true ys (p ∷ ps) h d =
    let rest : unique_from (p.y ∷ ys) ps ≡ true =
      unique_from-true (p.y ∷ ys) ps h.1 (λ z c. ground (arith, c, d z, h.0, nat_beq_iff p.y z)) in
    ground (arith, rest, d p.y)
