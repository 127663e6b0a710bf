-- ===== src/Platform/Reads.antt =====
-- The bounded fan-out of reads: `read_keys_bounded` in orange-sdk/src/dyn_store.rs. The store does
-- not change while the reads run, so that a read answers by its key; an error stands for an
-- `io::Error` of the store and for a task that failed. Which of the tasks in flight ends next is up
-- to the runtime, and is a parameter.
pub mod Tasks
pub mod Indexes
pub mod Serial
use orange_sdk.Prelude.{
  ℕ, zero, suc, Option, none, some, List, [], ◌∷◌, ◌++◌, Text, Result, ok, err, length,
}

-- A spawned read: the index of its key, and the key.
pub record Task : Type 0 where
  pub index : ℕ
  pub key : Text

abbrev pub Record : Type 0
Record = Text × List ℕ

-- How a call ends; `unfinished` is a loop that has run out of fuel.
pub data Outcome (A : Type 0) : Type 0 where
  returned : A → Outcome A
  panicked unfinished : Outcome A

-- `JoinSet::join_next`: the n-th of the tasks in flight ends, or the last one where there are
-- fewer.
unfoldable pub join_next : ℕ → List Task → Option (Task × List Task)
join_next n [] = none
join_next n (t ∷ []) = some (t, [])
join_next zero (t ∷ u ∷ ts) = some (t, u ∷ ts)
join_next (suc n) (t ∷ u ∷ ts) = elim (join_next n (u ∷ ts)) [
  | none ↦ none
  | some (v, rest) ↦ some (v, t ∷ rest)
]

-- `results[index] = value`; `none` is a panic on an index out of range.
unfoldable pub set_at : {A : Type 0} → ℕ → A → List A → Option (List A)
set_at n a [] = none
set_at zero a (x ∷ xs) = some (a ∷ xs)
set_at (suc n) a (x ∷ xs) = elim (set_at n a xs) [ none ↦ none | some ys ↦ some (x ∷ ys) ]

unfoldable pub enumerate : ℕ → List Text → List Task
enumerate n [] = []
enumerate n (k ∷ ks) = record { index = n; key = k } ∷ enumerate (suc n) ks

-- `results.resize_with(pending.len(), || None)`.
unfoldable pub nones : {A : Type 0} → List Text → List (Option A)
nones [] = []
nones (k ∷ ks) = none ∷ nones ks

-- The loop that fills the set: at most so many tasks are moved from those pending to the set.
unfoldable pub spawn_first : ℕ → List Task → List Task → List Task × List Task
spawn_first zero pending reads = (pending, reads)
spawn_first (suc n) [] reads = ([], reads)
spawn_first (suc n) (t ∷ pending) reads = spawn_first n pending (reads ++ t ∷ [])

-- The turn's refill: one more read for the one that ended.
unfoldable pub spawn_next : List Task → List Task → List Task × List Task
spawn_next [] reads = ([], reads)
spawn_next (t ∷ pending) reads = (pending, reads ++ t ∷ [])

-- Every slot's value, where every slot has one.
unfoldable pub collect : List (Option Record) → Option (List Record)
collect [] = some []
collect (none ∷ rs) = none
collect (some r ∷ rs) = elim (collect rs) [ none ↦ none | some xs ↦ some (r ∷ xs) ]

abbrev pub max_concurrent_reads : ℕ
max_concurrent_reads = 10

module _ {E : Type 0} (read : Text → Result (List ℕ) E) (picks : ℕ → ℕ) where
  -- The loop on `join_next`, on fuel; `picks` chooses by the fuel that is left.
  unfoldable pub join_all :
      ℕ → List Task → List Task → List (Option Record) → Outcome (Result (List Record) E)
  unfolding join_next set_at spawn_next collect
  join_all zero pending reads results = unfinished
  join_all (suc fuel) pending reads results = elim (join_next (picks fuel) reads) [
    | none ↦ elim (collect results) [ none ↦ panicked | some rs ↦ returned (ok rs) ]
    | some (t, rest) ↦ elim (read t.key) [
      | err e ↦ returned (err e)
      | ok data_ ↦ elim (set_at t.index (some (t.key, data_)) results) [
        | none ↦ panicked
        | some results ↦
            (let (pending, reads) = spawn_next pending rest in join_all fuel pending reads results)
      ]
    ]
  ]

  -- The fuel is one turn for each key, and one for the end.
  unfoldable pub read_keys_bounded : List Text → Outcome (Result (List Record) E)
  unfolding join_all enumerate nones spawn_first
  read_keys_bounded [] = returned (ok [])
  read_keys_bounded (k ∷ ks) =
      (let (pending, reads) = spawn_first max_concurrent_reads (enumerate 0 (k ∷ ks)) [] in
        join_all (suc (length (k ∷ ks))) pending reads (nones (k ∷ ks)))
