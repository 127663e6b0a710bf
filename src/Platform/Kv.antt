-- ===== src/Platform/Kv.antt =====
-- The whole of `KVStore` (`read`, `write`, `remove`, `list`) as the trusted wallets use it, and
-- serde_json. A store answers from the writes and removals made so far, newest first.
use orange_sdk.Prelude.{
  ℕ, ◌≡◌, ◌≢◌, Bool, true, Option, none, some, List, [], ◌∷◌, Text, Result, ok, err, if◌then◌else◌,
}
use orange_sdk.Prelude.Act.{Act, asks}
use orange_sdk.Platform.{StoreKey, ReadResult, found, not_found}

pub data Call : Type 0 where
  write : StoreKey → List ℕ → Call
  remove : StoreKey → Call

abbrev pub Calls : Type 0
Calls = List Call

pub record Kv : Type 0 where
  -- Whether the newest call of the list returned `Ok`.
  pub is_ok : Calls → Bool
  pub read : Calls → StoreKey → ReadResult
  -- The keys of a primary and a secondary namespace; `none` is an I/O error.
  pub list : Calls → Text → Text → Option (List Text)

-- A call that returned `Ok` took effect, and no call touches another key, whatever it returned.
pub record KvLaws (kv : Kv) : Type 0 where
  pub read-write_self :
      (k : StoreKey) (d : List ℕ) (h : Calls)
      → kv.is_ok (write k d ∷ h) ≡ true
      → kv.read (write k d ∷ h) k ≡ found d
  pub read-write_ne :
      (j k : StoreKey) (d : List ℕ) (h : Calls) → j ≢ k → kv.read (write j d ∷ h) k ≡ kv.read h k
  pub read-remove_self :
      (k : StoreKey) (h : Calls)
      → kv.is_ok (remove k ∷ h) ≡ true
      → kv.read (remove k ∷ h) k ≡ not_found
  pub read-remove_ne : (j k : StoreKey) (h : Calls) → j ≢ k → kv.read (remove j ∷ h) k ≡ kv.read h k

-- A JSON format, by `serde_json::to_vec` and `from_slice`; `none` is an error of either.
pub record Codec (A : Type 0) : Type 0 where
  pub to_vec : A → Option (List ℕ)
  pub from_slice : List ℕ → Option A

pub record CodecLaws {A : Type 0} (codec : Codec A) : Type 0 where
  pub from_slice-to_vec :
      (a : A) (d : List ℕ) → codec.to_vec a ≡ some d → codec.from_slice d ≡ some a
  pub to_vec-ne-nil : (a : A) (d : List ℕ) → codec.to_vec a ≡ some d → d ≢ []

module _ {E : Type 0} (kv : Kv) (io : E) where
  -- A call, whose `io::Error` becomes the error `io`.
  abbrev pub call : Call → Act Calls E (Unit {0})
  call c h = if kv.is_ok (c ∷ h) then (ok tt, c ∷ h) else (err io, c ∷ h)

  abbrev pub list_keys : Text → Text → Act Calls E (List Text)
  list_keys p s h = elim (kv.list h p s) [ none ↦ (err io, h) | some keys ↦ (ok keys, h) ]

abbrev pub read_key : {E : Type 0} → Kv → StoreKey → Act Calls E ReadResult
read_key kv k = asks (λ h. kv.read h k)

-- An encoder's or a decoder's answer, whose error becomes the error given.
abbrev pub ok_or : {E A : Type 0} → E → Option A → Result A E
ok_or e none = err e
ok_or e (some a) = ok a
