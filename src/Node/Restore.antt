-- ===== src/Node/Restore.antt =====
-- provider/node.ts: reverting to a snapshot brings back what the snapshot saved.
use polkahat.Prelude.{ℕ, ◌+◌, ◌≡◌, take}
use polkahat.Prelude.Int.{◌+ℤ◌}
use polkahat.Map
use polkahat.TxPool.State.{PoolState, TxPool}
use polkahat.Blockchain.Data.{BlockLib, BlockchainData}
use polkahat.Blockchain.Truncation.{Emptied}
use polkahat.Node.State.{HardhatNode, Snapshot}
use polkahat.Node.Snapshots.{offset_to_snapshot, or_else}

module _ {Data : Type 0} where
  -- What the node is after it went back to a snapshot at an index of its list.
  pub record Restored (now index : ℕ) (s : Snapshot) (pool : PoolState Data)
      (n m : HardhatNode Data) : Type 0 where
    pub length : m.blockchain.length ≡ s.latest_block.number + 1
    pub chain :
        Emptied
          (s.latest_block.number + 1)
          n.blockchain.length
          n.blockchain.chain_data
          m.blockchain.chain_data
    pub pool_state : m.tx_pool.state ≡ pool
    pub root :
        m.state_root
        ≡ or_else (Map.get s.latest_block.number s.irregular_states_by_block_number) s.state_root
    pub offset :
        m.block_time_offset_seconds ≡ s.block_time_offset_seconds +ℤ offset_to_snapshot s.date now
    pub next : m.next_block_timestamp ≡ s.next_block_timestamp
    pub irregular : m.irregular_states_by_block_number ≡ s.irregular_states_by_block_number
    pub base_fee :
        m.user_provided_next_block_base_fee_per_gas ≡ s.user_provided_next_block_base_fee_per_gas
    pub coinbase : m.coinbase ≡ s.coinbase
    pub mix_hash : m.mix_hash_generator ≡ s.mix_hash_generator
    pub beacon_root : m.parent_beacon_block_root_generator ≡ s.parent_beacon_block_root_generator
    pub earlier_snapshots : m.snapshots ≡ take index n.snapshots
    pub id_not_reused : m.next_snapshot_id ≡ n.next_snapshot_id

module _ {Data : Type 0} (lib : BlockLib) where
  -- The node with everything brought back, the chain's data and the pool given.
  abbrev restored :
      ℕ → ℕ → Snapshot → BlockchainData → TxPool Data → HardhatNode Data → HardhatNode Data
  restored now index s e q n = record n {
    blockchain = record { length = s.latest_block.number + 1; chain_data = e };
    irregular_states_by_block_number = s.irregular_states_by_block_number;
    state_root =
        or_else (Map.get s.latest_block.number s.irregular_states_by_block_number) s.state_root;
    block_time_offset_seconds = s.block_time_offset_seconds +ℤ offset_to_snapshot s.date now;
    next_block_timestamp = s.next_block_timestamp;
    tx_pool = q;
    user_provided_next_block_base_fee_per_gas = s.user_provided_next_block_base_fee_per_gas;
    coinbase = s.coinbase;
    mix_hash_generator = s.mix_hash_generator;
    parent_beacon_block_root_generator = s.parent_beacon_block_root_generator;
    snapshots = take index n.snapshots;
  }
