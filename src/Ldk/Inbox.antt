-- ===== src/Ldk/Inbox.antt =====
-- The inbox of pending splices hands out each outpoint once, in order (`SplicePendingInbox`).
use orange_sdk.Prelude.{ℕ, ◌≡◌, ◌≢◌, refl, Option, none, some, List, [], ◌∷◌, ◌++◌, arith, nat_eq}
use orange_sdk.Prelude.Assoc.{HashMap, get, get-insert, get-remove, get-insert_self}
use orange_sdk.Events.Types.{OutPoint}
use orange_sdk.Ldk.{deliver, take_pending, take_from, outpoints}

-- The outpoints that wait for a channel.
abbrev pub waiting : ℕ → HashMap ℕ (List OutPoint) → List OutPoint
waiting channel_id pending = outpoints (get channel_id pending)

-- What is taken is the oldest outpoint of the list, and the rest stays.
abbrev pub Takes : ℕ → HashMap ℕ (List OutPoint) → List OutPoint → Type 0
Takes channel_id pending [] =
    ((take_pending channel_id pending).0 ≡ none)
    × (waiting channel_id (take_pending channel_id pending).1 ≡ [])
Takes channel_id pending (txo ∷ rest) =
    ((take_pending channel_id pending).0 ≡ some txo)
    × (waiting channel_id (take_pending channel_id pending).1 ≡ rest)

-- A delivered outpoint waits behind those of its channel, and no other channel is touched; a pass of
-- `wait_for` takes the oldest outpoint of its channel, if there is one, and leaves the rest and the
-- other channels.
pub wait_for-deliver :
    (channel_id : ℕ) (txo : OutPoint) (pending : HashMap ℕ (List OutPoint)) (other : ℕ)
    → other ≢ channel_id
    → (waiting channel_id (deliver channel_id txo pending) ≡ waiting channel_id pending ++ txo ∷ [])
      × (waiting other (deliver channel_id txo pending) ≡ waiting other pending)
      × Takes channel_id pending (waiting channel_id pending)
      × (waiting other (take_pending channel_id pending).1 ≡ waiting other pending)
unfolding deliver
wait_for-deliver channel_id txo pending other ne = (
  ground (arith, get-insert_self channel_id (waiting channel_id pending ++ txo ∷ []) pending),
  ground (arith, get-insert channel_id other (waiting channel_id pending ++ txo ∷ []) pending),
  takes (get channel_id pending) refl,
  kept (get channel_id pending) refl,
)
  where
    takes :
        (o : Option (List OutPoint))
        → get channel_id pending ≡ o
        → Takes channel_id pending (outpoints o)
    takes none e = unfold take_pending take_from in ground (arith, e)
    takes (some []) e =
        unfold take_pending take_from in ground (arith, e, get-remove channel_id channel_id pending)
    takes (some (x ∷ [])) e =
        unfold take_pending take_from in ground (arith, e, get-remove channel_id channel_id pending)
    takes (some (x ∷ y ∷ zs)) e =
        unfold take_pending take_from in
        ground (arith, e, get-insert_self channel_id (y ∷ zs) pending)

    kept :
        (o : Option (List OutPoint))
        → get channel_id pending ≡ o
        → waiting other (take_pending channel_id pending).1 ≡ waiting other pending
    kept none e = unfold take_pending take_from in ground (arith, e)
    kept (some []) e =
        unfold take_pending take_from in ground (arith, e, get-remove channel_id other pending)
    kept (some (x ∷ [])) e =
        unfold take_pending take_from in ground (arith, e, get-remove channel_id other pending)
    kept (some (x ∷ y ∷ zs)) e =
        unfold take_pending take_from in
        ground (arith, e, get-insert channel_id other (y ∷ zs) pending)
