-- ===== src/Modules/Evm.antt =====
-- provider/modules/evm.ts. `allow` is the module's `_allowBlocksWithSameTimestamp`, `clock` the time
-- when the chain has a length.
use polkahat.Prelude.{ℕ, Bool, true, not, ◌&&◌, some, ltb, leb, ◌==◌, if◌then◌else◌}
use polkahat.Prelude.Int.{ℤ}
use polkahat.Prelude.Outcome.{
  Result, ok, throw, Method, ◌>>=◌, ◌>>◌, return, get_state, modify, throw_if,
}
use polkahat.Transaction.{Externals}
use polkahat.TransactionQueue.{Heap}
use polkahat.MiningTimer.{MiningTimer, IntervalMiningConfig, Error as TimerError, set_block_time}
use polkahat.Blockchain.Data.{BlockLib}
use polkahat.Blockchain.Chain.{get_latest_block}
use polkahat.Node.State.{HardhatNode, Error as NodeError, on_chain}
use polkahat.Node.Building.{Vm}
use polkahat.Node.Clock.{set_next_block_timestamp, increase_time}
use polkahat.Node.Mining.{mine_block}
use polkahat.Node.Snapshots.{take_snapshot, revert_to_snapshot}
use polkahat.Node.Accounts.{set_automine, set_node_block_gas_limit}

-- An InvalidInputError of the modules, or an error of what they call.
pub data Error : Type 0 where
  node_error : NodeError → Error
  timer_error : TimerError → Error
  timestamp_lower timestamp_equal gas_limit_not_positive : Error
  not_supported_with_eip1559 not_active_eip1559 not_post_merge : Error

-- What the modules work on.
pub record Session (Data : Type 0) : Type 0 where
  pub node : HardhatNode Data
  pub mining_timer : MiningTimer

module _ (Data : Type 0) where
  abbrev pub M : Type 0 → Type 0
  M A = Method Error (Session Data) A

abbrev pub wrap : {E A : Type 0} → (E → Error) → Result E A → Result Error A
wrap f (ok a) = ok a
wrap f (throw e) = throw (f e)

module _ {Data : Type 0} where
  abbrev pub on_node : {A : Type 0} → Method NodeError (HardhatNode Data) A → M Data A
  on_node m s = let (r, n) = m s.node in (wrap node_error r, record s { node = n })

  abbrev pub on_timer : {A : Type 0} → Method TimerError MiningTimer A → M Data A
  on_timer m s =
      let (r, t) = m s.mining_timer in (wrap timer_error r, record s { mining_timer = t })

  unfoldable pub increase_time_action : ℤ → M Data ℤ
  unfolding increase_time
  increase_time_action increment = do
    on_node (modify (increase_time increment))
    s ← get_state
    return s.node.block_time_offset_seconds

  unfoldable pub set_automine_action : Bool → M Data Bool
  unfolding set_automine
  set_automine_action automine = do on_node (modify (set_automine automine)); return true

  unfoldable pub set_interval_mining_action : IntervalMiningConfig → M Data Bool
  set_interval_mining_action block_time = do on_timer (set_block_time block_time); return true

module _ {Data : Type 0} (lib : BlockLib) (allow : Bool) where
  unfoldable pub set_next_block_timestamp_action : ℕ → M Data ℕ
  unfolding set_next_block_timestamp
  set_next_block_timestamp_action timestamp = do
    latest_block ← on_node (on_chain (get_latest_block lib))
    throw_if (ltb timestamp latest_block.timestamp) timestamp_lower
    throw_if (not allow && (timestamp == latest_block.timestamp)) timestamp_equal
    on_node (modify (set_next_block_timestamp timestamp))
    return timestamp

module _ {Data : Type 0} (lib : BlockLib) (clock : ℕ → ℕ) where
  unfoldable pub revert_action : ℕ → M Data Bool
  revert_action snapshot_id s =
      on_node (revert_to_snapshot lib (clock s.node.blockchain.length) snapshot_id) s

  unfoldable pub snapshot_action : M Data ℕ
  snapshot_action s = on_node (take_snapshot lib (clock s.node.blockchain.length)) s

module _ {Data : Type 0} (ext : Externals Data) (lib : BlockLib) (vm : Vm) (heap : Heap)
    (clock : ℕ → ℕ) where
  -- The check of a timestamp other than 0.
  unfoldable pub check_mine_timestamp : ℕ → M Data (Unit {0})
  check_mine_timestamp timestamp = if timestamp == 0 then return tt else (do
    latest_block ← on_node (on_chain (get_latest_block lib))
    throw_if (leb timestamp latest_block.timestamp) timestamp_lower)

  unfoldable pub mine_action : ℕ → M Data ℕ
  mine_action timestamp = do
    check_mine_timestamp timestamp
    s ← get_state
    result ← on_node (mine_block ext lib vm heap (clock s.node.blockchain.length) (some timestamp))
    return 0

  unfoldable pub set_block_gas_limit_action : ℕ → M Data Bool
  set_block_gas_limit_action block_gas_limit = do
    throw_if (block_gas_limit == 0) gas_limit_not_positive
    on_node (set_node_block_gas_limit ext vm block_gas_limit)
    return true
