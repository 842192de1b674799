-- ===== src/Node/Snapshots.antt =====
-- provider/node.ts: snapshots of the whole node.
use polkahat.Prelude.{
  ℕ, ◌+◌, ◌-◌, ◌/◌, List, [], ◌∷◌, ◌++◌, Bool, true, false, Option, none, some, get_elem?, take,
  ltb, leb, ◌==◌, if◌then◌else◌,
}
use polkahat.Prelude.Int.{ℤ, pos, sub_ℕ, ◌+ℤ◌}
use polkahat.Prelude.Outcome.{ok, ◌>>=◌, ◌>>◌, return, get_state, modify}
use polkahat.Map
use polkahat.TxPool.State.{snapshot, revert}
use polkahat.Blockchain.Data.{BlockLib}
use polkahat.Blockchain.Chain.{get_latest_block, delete_later_blocks}
use polkahat.Node.State.{HardhatNode, M, Snapshot, on_pool, on_chain}
use polkahat.Node.Clock.{
  set_next_block_timestamp, set_time_increment, set_user_provided_next_block_base_fee_per_gas,
  reset_user_provided_next_block_base_fee_per_gas,
}

-- `Math.ceil((date - now) / 1000)`
unfoldable pub offset_to_snapshot : ℕ → ℕ → ℤ
offset_to_snapshot date now =
    if leb date now then sub_ℕ 0 ((now - date) / 1000) else pos ((date - now + 999) / 1000)

-- The loop, from index `i` on.
unfoldable pub snapshot_index_from : ℕ → ℕ → List Snapshot → Option ℕ
snapshot_index_from i id [] = none
snapshot_index_from i id (s ∷ rest) =
    let later = snapshot_index_from (i + 1) id rest in
    if s.id == id then some i else if ltb id s.id then none else later

unfoldable pub get_snapshot_index : ℕ → List Snapshot → Option ℕ
unfolding snapshot_index_from
get_snapshot_index id snapshots = snapshot_index_from 0 id snapshots

abbrev pub or_else : Option ℕ → ℕ → ℕ
or_else none d = d
or_else (some r) d = r

module _ {Data : Type 0} (lib : BlockLib) where
  unfoldable pub take_snapshot : ℕ → M Data ℕ
  unfolding snapshot
  take_snapshot now = do
    latest_block ← on_chain (get_latest_block lib)
    tx_pool_snapshot_id ← on_pool snapshot
    n ← get_state
    let saved : Snapshot = record {
      id = n.next_snapshot_id;
      date = now;
      latest_block = latest_block;
      state_root = n.state_root;
      tx_pool_snapshot_id = tx_pool_snapshot_id;
      block_time_offset_seconds = n.block_time_offset_seconds;
      next_block_timestamp = n.next_block_timestamp;
      irregular_states_by_block_number = n.irregular_states_by_block_number;
      user_provided_next_block_base_fee_per_gas = n.user_provided_next_block_base_fee_per_gas;
      coinbase = n.coinbase;
      mix_hash_generator = n.mix_hash_generator;
      parent_beacon_block_root_generator = n.parent_beacon_block_root_generator;
    }
    modify (λ n. record n {
      snapshots = n.snapshots ++ saved ∷ [];
      next_snapshot_id = n.next_snapshot_id + 1;
    })
    return n.next_snapshot_id

  abbrev pub restore_base_fee : Option ℕ → HardhatNode Data → HardhatNode Data
  restore_base_fee (some fee) n = set_user_provided_next_block_base_fee_per_gas fee n
  restore_base_fee none n = reset_user_provided_next_block_base_fee_per_gas n

  -- The part of `revertToSnapshot` after the snapshot was found at an index.
  unfoldable pub restore_snapshot : ℕ → ℕ → Snapshot → M Data Bool
  unfolding offset_to_snapshot set_next_block_timestamp set_time_increment
      set_user_provided_next_block_base_fee_per_gas reset_user_provided_next_block_base_fee_per_gas
  restore_snapshot now index s = do
    let new_offset = s.block_time_offset_seconds +ℤ offset_to_snapshot s.date now
    on_chain (delete_later_blocks s.latest_block)
    modify (λ n. record n { irregular_states_by_block_number = s.irregular_states_by_block_number })
    latest_block ← on_chain (get_latest_block lib)
    modify (λ n. record n {
      state_root =
          or_else (Map.get latest_block.number n.irregular_states_by_block_number) s.state_root;
    })
    modify (set_time_increment new_offset)
    modify (set_next_block_timestamp s.next_block_timestamp)
    on_pool (revert s.tx_pool_snapshot_id)
    modify (restore_base_fee s.user_provided_next_block_base_fee_per_gas)
    modify (λ n. record n {
      coinbase = s.coinbase;
      mix_hash_generator = s.mix_hash_generator;
      parent_beacon_block_root_generator = s.parent_beacon_block_root_generator;
      snapshots = take index n.snapshots;
    })
    return true

  unfoldable pub revert_to_snapshot : ℕ → ℕ → M Data Bool
  unfolding get_snapshot_index restore_snapshot
  revert_to_snapshot now id n = elim (get_snapshot_index id n.snapshots) [
    | none ↦ (ok false, n)
    | some index ↦ elim (get_elem? n.snapshots index) [
      | none ↦ (ok false, n)
      | some s ↦ restore_snapshot now index s n
    ]
  ]

module _ {Data : Type 0} where
  unfoldable pub remove_snapshot : ℕ → HardhatNode Data → HardhatNode Data
  unfolding get_snapshot_index
  remove_snapshot id n = elim (get_snapshot_index id n.snapshots) [
    | none ↦ n
    | some index ↦ record n { snapshots = take index n.snapshots }
  ]
