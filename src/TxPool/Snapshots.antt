-- ===== src/TxPool/Snapshots.antt =====
-- Snapshots of the pool and the way back to them.
use polkahat.Prelude.{ℕ, ◌≡◌, refl, Option, none, some, List, [], ◌∷◌, leb, if◌then◌else◌, arith}
use polkahat.Prelude.Outcome.{ok, throw}
use polkahat.Map
use polkahat.Map.{get-put}
use polkahat.TxPool.State.{no_snapshot, PoolState, TxPool, remove_snapshots_after, revert}

module _ {Data : Type 0} where
  get-remove_snapshots_after :
      (id j : ℕ) (m : List (ℕ × PoolState Data))
      → Map.get j (remove_snapshots_after id m) ≡ (if leb id j then none else Map.get j m)
  unfolding Map.get remove_snapshots_after
  get-remove_snapshots_after id j [] = ground arith
  get-remove_snapshots_after id j ((i, s) ∷ m) = ground (arith, get-remove_snapshots_after id j m)

  -- The call without a snapshot, and with one.
  abbrev pub Reverts : ℕ → TxPool Data → Option (PoolState Data) → Type 0
  Reverts id p none = revert id p ≡ (throw no_snapshot, p)
  Reverts id p (some state) =
      (q : TxPool Data) × (revert id p ≡ (ok tt, q))
      × (q.state ≡ state)
      × ((j : ℕ) → Map.get j q.snapshots ≡ (if leb id j then none else Map.get j p.snapshots))
      × (q.next_snapshot_id ≡ p.next_snapshot_id)
      × (q.next_order_id ≡ p.next_order_id)

  -- Going back to a snapshot brings its state back and keeps just the snapshots with lower ids;
  -- with no snapshot of that id the call throws and changes nothing. Both counters go on.
  pub revert_lem :
      (id : ℕ) (p : TxPool Data) (s : Option (PoolState Data))
      → Map.get id p.snapshots ≡ s
      → Reverts id p s
  unfolding revert
  revert_lem id p none e = rw (e, revert)
  revert_lem id p (some state) e = (
    record p { state = state; snapshots = remove_snapshots_after id p.snapshots },
    rw (e, revert),
    refl,
    λ j. get-remove_snapshots_after id j p.snapshots,
    refl,
    refl,
  )
