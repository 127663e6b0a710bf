-- ===== src/Platform/Reads/Serial.antt =====
-- The reads that run side by side give what a serial loop gives (`read_keys_bounded` in
-- orange-sdk/src/dyn_store.rs).
use orange_sdk.Prelude.{
  ℕ, zero, suc, ◌+◌, ◌≡◌, ◌<◌, ◌⊎◌, inl, inr, refl, sym, ap, subst, ◌∙◌, Option, none, some, List,
  [], ◌∷◌, Text, Result, ok, err, length, arith, Bool-cases, nat_beq, nat_beq_iff,
}
use orange_sdk.Platform.Reads.{
  Record, Task, Outcome, returned, join_next, set_at, collect, spawn_next, spawn_first, enumerate,
  nones, join_all, read_keys_bounded, max_concurrent_reads,
}
use orange_sdk.Platform.Reads.Indexes.{
  not-Among, nones-length, enumerate-length, enumerate-known, enumerate-covers,
}
use orange_sdk.Platform.Reads.Tasks.{
  get_elem?, get_elem?-lt, IsOut, Takes, join_next-Takes, Replaces, set_at-Replaces, Moves,
  spawn_next-Moves, spawn_first-Moves, spawn_next-busy, spawn_first-busy, Among,
}

Result-cases : {A E : Type 0} (r : Result A E) → ((a : A) × (r ≡ ok a)) ⊎ ((e : E) × (r ≡ err e))
Result-cases (ok a) = inl (a, refl)
Result-cases (err e) = inr (e, refl)

module _ {E : Type 0} (read : Text → Result (List ℕ) E) where
  -- One read after the other, up to the first error.
  unfoldable pub read_serial : List Text → Result (List Record) E
  read_serial [] = ok []
  read_serial (k ∷ ks) = elim (read k) [
    | err e ↦ err e
    | ok d ↦ elim (read_serial ks) [ err e ↦ err e | ok rs ↦ ok ((k, d) ∷ rs) ]
  ]

  -- The slot of a key holds what its read found.
  abbrev Done : List (Option Record) → ℕ → Text → Type 0
  Done results i k = (d : List ℕ) × (read k ≡ ok d) × (get_elem? results i ≡ some (some (k, d)))

  -- Between two turns: every key is out, or its slot is filled.
  record Waits (keys : List Text) (tasks : List Task × List Task) (results : List (Option Record))
      : Type 0 where
    size : length results ≡ length keys
    busy : length tasks.1 ≡ 0 → length tasks.0 ≡ 0
    known : (x : Task) → IsOut x tasks → get_elem? keys x.index ≡ some x.key
    covered :
        (i : ℕ) (k : Text)
        → get_elem? keys i ≡ some k
        → Done results i k ⊎ IsOut (record { index = i; key = k }) tasks

  -- The records of the serial loop, or the error of one of the keys.
  abbrev pub Gathers : List Text → Outcome (Result (List Record) E) → Type 0
  Gathers keys o =
      ((rs : List Record) × (read_serial keys ≡ ok rs) × (o ≡ returned (ok rs)))
      ⊎ ((i : ℕ) × (k : Text) × (e : E) × (get_elem? keys i ≡ some k)
          × (read k ≡ err e)
          × (o ≡ returned (err e)))

  pub read_serial-cons :
      (k : Text) (d : List ℕ) (keys : List Text) (rs : List Record)
      → read k ≡ ok d
      → read_serial keys ≡ ok rs
      → read_serial (k ∷ keys) ≡ ok ((k, d) ∷ rs)
  unfolding read_serial
  read_serial-cons k d keys rs er es = ground (arith, er, es)

  collect-cons :
      (r : Option Record) (x : Record) (results : List (Option Record)) (rs : List Record)
      → some r ≡ some (some x)
      → collect results ≡ some rs
      → collect (r ∷ results) ≡ some (x ∷ rs)
  unfolding collect
  collect-cons none x results rs e ec = ground (arith, e)
  collect-cons (some y) x results rs e ec = ground (arith, e, ec)

  collect-Done :
      (keys : List Text) (results : List (Option Record))
      → length results ≡ length keys
      → ((i : ℕ) (k : Text) → get_elem? keys i ≡ some k → Done results i k)
      → (rs : List Record) × (read_serial keys ≡ ok rs) × (collect results ≡ some rs)
  unfolding read_serial collect
  collect-Done [] [] l h = ([], refl, refl)
  collect-Done [] (r ∷ results) l h = absurd (omega (arith, l))
  collect-Done (k ∷ keys) [] l h = absurd (omega (arith, l))
  collect-Done (k ∷ keys) (r ∷ results) l h =
      (let (d, er, eg) = h 0 k refl in
        let (rs, es, ec) = collect-Done keys results (omega (arith, l)) (λ i j e. h (suc i) j e) in
        ((k, d) ∷ rs, read_serial-cons k d keys rs er es, collect-cons r (k, d) results rs eg ec))

  -- The slot of the task that ended.
  filled-Done :
      (keys : List Text) (t : Task) (d : List ℕ) (filled : List (Option Record)) (i : ℕ) (k : Text)
      → get_elem? keys t.index ≡ some t.key
      → read t.key ≡ ok d
      → get_elem? filled t.index ≡ some (some (t.key, d))
      → i ≡ t.index
      → get_elem? keys i ≡ some k
      → Done filled i k
  filled-Done keys t d filled i k et er ef ei ek =
      (let e : k ≡ t.key = ground (arith, et, ei, ek) in (d, rw e er, rw (e, ei) ef))

  -- The turn after which the read of `t` has filled its slot.
  Waits-step :
      (keys : List Text) (pending ts rest : List Task) (t : Task) (d : List ℕ)
      (results filled : List (Option Record))
      → Waits keys (pending, ts) results
      → Takes t rest ts
      → read t.key ≡ ok d
      → Replaces t.index (some (t.key, d)) results filled
      → Waits keys (spawn_next pending rest) filled
  Waits-step keys pending ts rest t d results filled w tk er rp =
      let moves : Moves pending rest (spawn_next pending rest) = spawn_next-Moves pending rest in
      let end : (i : ℕ) (k : Text) → i ≡ t.index → get_elem? keys i ≡ some k → Done filled i k =
        λ i k ei ek. filled-Done keys t d filled i k (w.known t (inr tk.taken)) er rp.here ei ek in
      record {
        size = rp.size ∙ w.size;
        busy = spawn_next-busy pending rest;
        known = λ x m.
            w.known x (elim (moves.known x m) [ inl p ↦ inl p | inr r ↦ inr (tk.others x r) ]);
        covered = λ i k e. elim (w.covered i k e) [
          | inl (c, ec, eg) ↦ elim (Bool-cases (nat_beq i t.index)) [
            | inl b ↦ inl (end i k ((nat_beq_iff i t.index).0 b) e)
            | inr b ↦
                inl (c, ec, rp.elsewhere i (λ q. ground (arith, nat_beq_iff i t.index, b, q)) ∙ eg)
          ]
          | inr (inl p) ↦ inr (moves.kept _ (inl p))
          | inr (inr r) ↦ elim (tk.split _ r) [
            | inl q ↦ inl (end i k (ap (λ x. x.index) q) e)
            | inr m ↦ inr (moves.kept _ (inr m))
          ]
        ];
      }

  Waits-start :
      (k : Text) (ks : List Text)
      → Waits (k ∷ ks) (spawn_first max_concurrent_reads (enumerate 0 (k ∷ ks)) []) (nones (k ∷ ks))
  unfolding enumerate
  Waits-start k ks =
      let tasks : List Task = enumerate 0 (k ∷ ks) in
      let moves : Moves tasks [] (spawn_first max_concurrent_reads tasks []) =
        spawn_first-Moves max_concurrent_reads tasks [] in
      record {
        size = nones-length (k ∷ ks);
        busy = λ e. absurd (spawn_first-busy 9 _ (enumerate 1 ks) [] e);
        known = λ x m. elim (moves.known x m) [
          | inl p ↦
              (let (j, ei, ek) = enumerate-known 0 x (k ∷ ks) p in
                subst (λ n. get_elem? (k ∷ ks) n ≡ some x.key) (omega (arith, ei)) ek)
          | inr m ↦ absurd m
        ];
        covered = λ i j e. inr (
            moves.kept _ (
              inl (
                subst (λ n. Among (record { index = n; key = j }) tasks) (omega arith)
                  (enumerate-covers 0 i j (k ∷ ks) e))));
      }

  module _ (picks : ℕ → ℕ) where
    -- The turns of the loop, by what `join_next` and the read give.
    join_all-none :
        (fuel : ℕ) (pending : List Task) (results : List (Option Record)) (rs : List Record)
        → collect results ≡ some rs
        → join_all read picks (suc fuel) pending [] results ≡ returned (ok rs)
    unfolding join_all join_next
    join_all-none fuel pending results rs e = ground (arith, e)

    join_all-err :
        (fuel : ℕ) (pending ts rest : List Task) (results : List (Option Record)) (t : Task) (e : E)
        → join_next (picks fuel) ts ≡ some (t, rest)
        → read t.key ≡ err e
        → join_all read picks (suc fuel) pending ts results ≡ returned (err e)
    unfolding join_all
    join_all-err fuel pending ts rest results t e ej er = ground (arith, ej, er)

    join_all-ok :
        (fuel : ℕ) (pending ts rest : List Task) (results filled : List (Option Record)) (t : Task)
        (d : List ℕ)
        → join_next (picks fuel) ts ≡ some (t, rest)
        → read t.key ≡ ok d
        → set_at t.index (some (t.key, d)) results ≡ some filled
        → join_all read picks (suc fuel) pending ts results
          ≡ join_all read picks fuel (spawn_next pending rest).0 (spawn_next pending rest).1 filled
    unfolding join_all
    join_all-ok fuel pending ts rest results filled t d ej er es = ground (arith, ej, er, es)

    join_all-Gathers :
        (keys : List Text) (fuel : ℕ) (pending reads : List Task) (results : List (Option Record))
        → Waits keys (pending, reads) results
        → length pending + length reads < fuel
        → Gathers keys (join_all read picks fuel pending reads results)
    join_all-Gathers keys zero pending reads results w l = absurd (omega (arith, l))
    join_all-Gathers keys (suc fuel) pending [] results w l =
        (let (rs, es, ec) = collect-Done keys results w.size (λ i k e. elim (w.covered i k e) [
          | inl c ↦ c
          | inr (inl p) ↦ absurd (not-Among _ pending (w.busy refl) p)
          | inr (inr m) ↦ absurd m
        ]) in
          inl (rs, es, join_all-none fuel pending results rs ec))
    join_all-Gathers keys (suc fuel) pending (u ∷ us) results w l =
        (let (t, rest, ej, tk) = join_next-Takes (picks fuel) u us in
          elim (Result-cases (read t.key)) [
            | inr (e, er) ↦ inr (
              t.index,
              t.key,
              e,
              w.known t (inr tk.taken),
              er,
              join_all-err fuel pending (u ∷ us) rest results t e ej er,
            )
            | inl (d, er) ↦
                (let (filled, es, rp) = set_at-Replaces t.index (some (t.key, d)) results (
                    omega (
                      arith,
                      w.size,
                      get_elem?-lt keys t.index t.key (w.known t (inr tk.taken)),
                    )) in
                  subst (Gathers keys)
                    (sym (join_all-ok fuel pending (u ∷ us) rest results filled t d ej er es))
                    (join_all-Gathers keys fuel (spawn_next pending rest).0
                      (spawn_next pending rest).1 filled
                      (Waits-step keys pending (u ∷ us) rest t d results filled w tk er rp)
                      (omega (arith, l, tk.size, (spawn_next-Moves pending rest).size))))
          ])

    -- Whatever the order in which the tasks end, the call returns: the records that a serial loop
    -- over the keys gathers, in the order of the keys, where it gathers them, and otherwise an error
    -- that the read of one of the keys gave.
    pub read_keys_bounded-Gathers :
        (keys : List Text) → Gathers keys (read_keys_bounded read picks keys)
    unfolding read_keys_bounded read_serial
    read_keys_bounded-Gathers [] = inl ([], refl, refl)
    read_keys_bounded-Gathers (k ∷ ks) =
        let tasks : List Task = enumerate 0 (k ∷ ks) in
        let after : List Task × List Task = spawn_first max_concurrent_reads tasks [] in
        let moves : Moves tasks [] after = spawn_first-Moves max_concurrent_reads tasks [] in
        join_all-Gathers (k ∷ ks) (suc (length (k ∷ ks))) after.0 after.1 (nones (k ∷ ks))
          (Waits-start k ks) (omega (arith, moves.size, enumerate-length 0 (k ∷ ks)))
