-- ===== src/Platform/Reads/Tasks.antt =====
-- What a turn of the loop does to the tasks and to the results (`read_keys_bounded` in
-- orange-sdk/src/dyn_store.rs).
use orange_sdk.Prelude.{
  ℕ, zero, suc, ◌+◌, ◌≡◌, ◌≢◌, ◌≤◌, ◌<◌, ◌⊎◌, inl, inr, refl, ap, Option, none, some, List, [], ◌∷◌,
  ◌++◌, length, length-append, arith,
}
use orange_sdk.Platform.Reads.{Task, join_next, set_at, spawn_first, spawn_next}

abbrev pub get_elem? : {A : Type 0} → List A → ℕ → Option A
get_elem? [] n = none
get_elem? (x ∷ xs) zero = some x
get_elem? (x ∷ xs) (suc n) = get_elem? xs n

abbrev pub Among : {A : Type 0} → A → List A → Type 0
Among x [] = ⊥
Among x (y ∷ ys) = (x ≡ y) ⊎ Among x ys

-- A task of the list and the rest of it.
pub record Takes (t : Task) (rest ts : List Task) : Type 0 where
  pub size : length ts ≡ suc (length rest)
  pub taken : Among t ts
  pub others : (x : Task) → Among x rest → Among x ts
  pub split : (x : Task) → Among x ts → (x ≡ t) ⊎ Among x rest

pub join_next-Takes :
    (n : ℕ) (u : Task) (ts : List Task)
    → (t : Task) × (rest : List Task) × (join_next n (u ∷ ts) ≡ some (t, rest))
      × Takes t rest (u ∷ ts)
unfolding join_next
join_next-Takes n u [] =
    (u, [], refl, record { size = refl; taken = inl refl; others = λ x h. inr h; split = λ x h. h })
join_next-Takes zero u (v ∷ ts) = (
  u,
  v ∷ ts,
  refl,
  record { size = refl; taken = inl refl; others = λ x h. inr h; split = λ x h. h },
)
join_next-Takes (suc n) u (v ∷ ts) =
    (let (t, rest, e, h) = join_next-Takes n v ts in
      (
        t,
        u ∷ rest,
        rw e refl,
        record {
          size = ap suc h.size;
          taken = inr h.taken;
          others = λ x m. elim m [ inl e ↦ inl e | inr m ↦ inr (h.others x m) ];
          split = λ x m. elim m [
            | inl e ↦ inr (inl e)
            | inr m ↦ elim (h.split x m) [ inl e ↦ inl e | inr m ↦ inr (inr m) ]
          ];
        },
      ))

-- A list with one value replaced.
pub record Replaces {A : Type 0} (n : ℕ) (a : A) (xs ys : List A) : Type 0 where
  pub size : length ys ≡ length xs
  pub here : get_elem? ys n ≡ some a
  pub elsewhere : (j : ℕ) → j ≢ n → get_elem? ys j ≡ get_elem? xs j

get_elem?-heads :
    {A : Type 0} (a x : A) (xs : List A) (j : ℕ)
    → j ≢ 0
    → get_elem? (a ∷ xs) j ≡ get_elem? (x ∷ xs) j
get_elem?-heads a x xs zero ne = absurd (ne refl)
get_elem?-heads a x xs (suc j) ne = refl

get_elem?-tails :
    {A : Type 0} (n : ℕ) (x : A) (xs ys : List A)
    → ((j : ℕ) → j ≢ n → get_elem? ys j ≡ get_elem? xs j)
    → (j : ℕ) → j ≢ suc n
    → get_elem? (x ∷ ys) j ≡ get_elem? (x ∷ xs) j
get_elem?-tails n x xs ys h zero ne = refl
get_elem?-tails n x xs ys h (suc j) ne = h j (λ e. ne (ap suc e))

pub set_at-Replaces :
    {A : Type 0} (n : ℕ) (a : A) (xs : List A)
    → n < length xs
    → (ys : List A) × (set_at n a xs ≡ some ys) × Replaces n a xs ys
unfolding set_at
set_at-Replaces n a [] l = absurd (omega (arith, l))
set_at-Replaces zero a (x ∷ xs) l = (
  a ∷ xs,
  refl,
  record { size = refl; here = refl; elsewhere = λ j ne. get_elem?-heads a x xs j ne },
)
set_at-Replaces (suc n) a (x ∷ xs) l =
    (let (ys, e, h) = set_at-Replaces n a xs (omega (arith, l)) in
      (
        x ∷ ys,
        rw e refl,
        record {
          size = ap suc h.size;
          here = h.here;
          elsewhere = λ j ne. get_elem?-tails n x xs ys h.elsewhere j ne;
        },
      ))

pub get_elem?-lt :
    {A : Type 0} (xs : List A) (n : ℕ) (x : A) → get_elem? xs n ≡ some x → n < length xs
get_elem?-lt [] n x e = ground (arith, e)
get_elem?-lt (y ∷ xs) zero x e = omega arith
get_elem?-lt (y ∷ xs) (suc n) x e = omega (arith, get_elem?-lt xs n x e)

-- The tasks that are still to end: pending, or in flight.
abbrev pub IsOut : Task → List Task × List Task → Type 0
IsOut x (pending, reads) = Among x pending ⊎ Among x reads

-- Tasks move from those pending to those in flight, and none is lost or made.
pub record Moves (pending reads : List Task) (after : List Task × List Task) : Type 0 where
  pub size : length after.0 + length after.1 ≡ length pending + length reads
  pub kept : (x : Task) → IsOut x (pending, reads) → IsOut x after
  pub known : (x : Task) → IsOut x after → IsOut x (pending, reads)

Among-last : (x t : Task) (ts : List Task) → Among x (ts ++ t ∷ []) → (x ≡ t) ⊎ Among x ts
Among-last x t [] h = h
Among-last x t (u ∷ ts) (inl e) = inr (inl e)
Among-last x t (u ∷ ts) (inr h) = elim (Among-last x t ts h) [ inl e ↦ inl e | inr m ↦ inr (inr m) ]

Among-snoc : (x t : Task) (ts : List Task) → (x ≡ t) ⊎ Among x ts → Among x (ts ++ t ∷ [])
Among-snoc x t [] h = h
Among-snoc x t (u ∷ ts) (inl e) = inr (Among-snoc x t ts (inl e))
Among-snoc x t (u ∷ ts) (inr (inl e)) = inl e
Among-snoc x t (u ∷ ts) (inr (inr m)) = inr (Among-snoc x t ts (inr m))

-- One task moves.
spawn-Moves :
    (t : Task) (pending reads : List Task) → Moves (t ∷ pending) reads (pending, reads ++ t ∷ [])
spawn-Moves t pending reads = record {
  size = omega (arith, length-append reads (t ∷ []));
  kept = λ x h. elim h [
    | inl (inl e) ↦ inr (Among-snoc x t reads (inl e))
    | inl (inr m) ↦ inl m
    | inr m ↦ inr (Among-snoc x t reads (inr m))
  ];
  known = λ x h. elim h [
    | inl m ↦ inl (inr m)
    | inr m ↦ elim (Among-last x t reads m) [ inl e ↦ inl (inl e) | inr m ↦ inr m ]
  ];
}

stay-Moves : (pending reads : List Task) → Moves pending reads (pending, reads)
stay-Moves pending reads = record { size = refl; kept = λ x h. h; known = λ x h. h }

pub spawn_next-Moves : (pending reads : List Task) → Moves pending reads (spawn_next pending reads)
unfolding spawn_next
spawn_next-Moves [] reads = stay-Moves [] reads
spawn_next-Moves (t ∷ pending) reads = spawn-Moves t pending reads

pub spawn_first-Moves :
    (n : ℕ) (pending reads : List Task) → Moves pending reads (spawn_first n pending reads)
unfolding spawn_first
spawn_first-Moves zero pending reads = stay-Moves pending reads
spawn_first-Moves (suc n) [] reads = stay-Moves [] reads
spawn_first-Moves (suc n) (t ∷ pending) reads =
    let one : Moves (t ∷ pending) reads (pending, reads ++ t ∷ []) = spawn-Moves t pending reads in
    let h : Moves pending (reads ++ t ∷ []) (spawn_first n pending (reads ++ t ∷ [])) =
      spawn_first-Moves n pending (reads ++ t ∷ []) in
    record {
      size = omega (arith, h.size, one.size);
      kept = λ x m. h.kept x (one.kept x m);
      known = λ x m. one.known x (h.known x m);
    }

-- Where a task is pending, one is in flight.
pub spawn_next-busy :
    (pending reads : List Task)
    → length (spawn_next pending reads).1 ≡ 0
    → length (spawn_next pending reads).0 ≡ 0
unfolding spawn_next
spawn_next-busy [] reads e = refl
spawn_next-busy (t ∷ pending) reads e = omega (arith, e, length-append reads (t ∷ []))

spawn_first-length :
    (n : ℕ) (pending reads : List Task) → length reads ≤ length (spawn_first n pending reads).1
unfolding spawn_first
spawn_first-length zero pending reads = omega arith
spawn_first-length (suc n) [] reads = omega arith
spawn_first-length (suc n) (t ∷ pending) reads =
    omega (arith, spawn_first-length n pending (reads ++ t ∷ []), length-append reads (t ∷ []))

pub spawn_first-busy :
    (n : ℕ) (t : Task) (pending reads : List Task)
    → length (spawn_first (suc n) (t ∷ pending) reads).1 ≢ 0
unfolding spawn_first
spawn_first-busy n t pending reads e =
    omega (arith, e, spawn_first-length n pending (reads ++ t ∷ []), length-append reads (t ∷ []))
