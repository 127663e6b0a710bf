-- ===== src/Platform/Reads/Indexes.antt =====
-- The tasks before the first turn of the loop: one for each key, under the key's index
-- (`read_keys_bounded` in orange-sdk/src/dyn_store.rs).
use orange_sdk.Prelude.{
  ℕ, zero, suc, ◌+◌, ◌≡◌, inl, inr, refl, sym, ap, subst, ◌∙◌, some, List, [], ◌∷◌, Text, length,
  arith,
}
use orange_sdk.Platform.Reads.{Record, Task, enumerate, nones}
use orange_sdk.Platform.Reads.Tasks.{get_elem?, Among}

pub not-Among : (x : Task) (ts : List Task) → length ts ≡ 0 → ¬ Among x ts
not-Among x [] e m = m
not-Among x (t ∷ ts) e m = omega (arith, e)

pub nones-length : (ks : List Text) → length (nones {A = Record} ks) ≡ length ks
unfolding nones
nones-length [] = refl
nones-length (k ∷ ks) = ap suc (nones-length ks)

pub enumerate-length : (n : ℕ) (ks : List Text) → length (enumerate n ks) ≡ length ks
unfolding enumerate
enumerate-length n [] = refl
enumerate-length n (k ∷ ks) = ap suc (enumerate-length (suc n) ks)

abbrev pub task : ℕ → Text → Task
task i k = record { index = i; key = k }

task-eq : (i j : ℕ) (k l : Text) → i ≡ j → k ≡ l → task i k ≡ task j l
task-eq i j k l ei ek = rw (ei, ek) refl

-- Each task has its key's index, counted from the first.
pub enumerate-known :
    (n : ℕ) (x : Task) (ks : List Text)
    → Among x (enumerate n ks)
    → (j : ℕ) × (x.index ≡ n + j) × (get_elem? ks j ≡ some x.key)
unfolding enumerate
enumerate-known n x [] m = absurd m
enumerate-known n x (k ∷ ks) (inl e) =
    (0, ap (λ t. t.index) e ∙ omega arith, ap (λ t. some t.key) (sym e))
enumerate-known n x (k ∷ ks) (inr m) =
    (let (j, ei, ek) = enumerate-known (suc n) x ks m in (suc j, omega (arith, ei), ek))

pub enumerate-covers :
    (n j : ℕ) (k : Text) (ks : List Text)
    → get_elem? ks j ≡ some k
    → Among (record { index = n + j; key = k }) (enumerate n ks)
unfolding enumerate
enumerate-covers n j k [] e = ground (arith, e)
enumerate-covers n zero k (l ∷ ks) e = inl (task-eq (n + 0) n k l (omega arith) (ground (arith, e)))
enumerate-covers n (suc j) k (l ∷ ks) e = inr (
    subst (λ i. Among (record { index = i; key = k }) (enumerate (suc n) ks)) (omega arith)
      (enumerate-covers (suc n) j k ks e))
