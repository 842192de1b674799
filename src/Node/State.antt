-- ===== src/Node/State.antt =====
-- The fields of HardhatNode (provider/node.ts), its snapshots (provider/node-types.ts) and its
-- errors. What ethereumjs' state manager holds is known by its root, the field `state_root`: what
-- `getStateRoot` answers and `setStateRoot` writes. `emitted` holds the events that
-- the node has emitted, in order. A random buffer generator (provider/utils/random.ts) is the value that comes next.
use polkahat.Prelude.{ℕ, List, Bool, Option}
use polkahat.Prelude.Int.{ℤ}
use polkahat.Prelude.Outcome.{Result, ok, throw, Method}
use polkahat.TxPool.State.{TxPool, Error as PoolError}
use polkahat.TransactionQueue.{MempoolOrder, Error as QueueError}
use polkahat.Blockchain.Data.{Block, Error as ChainError}
use polkahat.Blockchain.Chain.{HardhatBlockchain}
use polkahat.Filter.{RpcLogOutput, FilterCriteria}

pub data Error : Type 0 where
  pool_error : PoolError → Error
  queue_error : QueueError → Error
  chain_error : ChainError → Error
  invalid_sender nonce_too_high nonce_too_low gas_price_below_minimum : Error
  max_fee_below_base_fee gas_price_below_base_fee : Error
  transaction_failed negative_timestamp never_included already_mined : Error
  pool_not_empty nonce_below_existing unknown_account invariant_broken out_of_fuel : Error

pub data SubscriptionType : Type 0 where
  logs_subscription pending_transaction_subscription block_subscription : SubscriptionType

-- filter.ts's `Filter`. A log filter has criteria; a deadline is a time in milliseconds.
pub record Filter : Type 0 where
  pub id : ℕ
  pub kind : SubscriptionType
  pub criteria : Option FilterCriteria
  pub deadline : ℕ
  pub hashes : List ℕ
  pub logs : List RpcLogOutput
  pub subscription : Bool

-- An event names the filter that it is for; a block comes with its total difficulty.
pub data EthEvent : Type 0 where
  hash_event : ℕ → ℕ → EthEvent
  block_event : ℕ → Block → ℕ → EthEvent
  log_event : ℕ → RpcLogOutput → EthEvent

pub record Snapshot : Type 0 where
  pub id : ℕ
  pub date : ℕ
  pub latest_block : Block
  pub state_root : ℕ
  pub tx_pool_snapshot_id : ℕ
  pub block_time_offset_seconds : ℤ
  pub next_block_timestamp : ℕ
  pub irregular_states_by_block_number : List (ℕ × ℕ)
  pub user_provided_next_block_base_fee_per_gas : Option ℕ
  pub coinbase : ℕ
  pub mix_hash_generator : ℕ
  pub parent_beacon_block_root_generator : ℕ

pub record HardhatNode (Data : Type 0) : Type 0 where
  pub tx_pool : TxPool Data
  pub blockchain : HardhatBlockchain
  pub state_root : ℕ
  pub local_accounts : List (ℕ × ℕ)
  pub impersonated_accounts : List (ℕ × Unit {0})
  pub automine : Bool
  pub min_gas_price : ℕ
  pub mempool_order : MempoolOrder
  pub block_time_offset_seconds : ℤ
  pub next_block_timestamp : ℕ
  pub user_provided_next_block_base_fee_per_gas : Option ℕ
  pub coinbase : ℕ
  pub allow_blocks_with_same_timestamp : Bool
  pub last_filter_id : ℕ
  pub filters : List (ℕ × Filter)
  pub next_snapshot_id : ℕ
  pub snapshots : List Snapshot
  pub irregular_states_by_block_number : List (ℕ × ℕ)
  pub mix_hash_generator : ℕ
  pub parent_beacon_block_root_generator : ℕ
  pub emitted : List EthEvent

module _ (Data : Type 0) where
  abbrev pub M : Type 0 → Type 0
  M A = Method Error (HardhatNode Data) A

abbrev pub map_error : {E A : Type 0} → (E → Error) → Result E A → Result Error A
map_error f (ok a) = ok a
map_error f (throw e) = throw (f e)

module _ {Data : Type 0} where
  abbrev pub set_pool : TxPool Data → HardhatNode Data → HardhatNode Data
  set_pool p n = record n { tx_pool = p }

  abbrev pub set_chain : HardhatBlockchain → HardhatNode Data → HardhatNode Data
  set_chain c n = record n { blockchain = c }

  -- A method of the pool, and one of the chain.
  abbrev pub on_pool : {A : Type 0} → Method PoolError (TxPool Data) A → M Data A
  on_pool m n = let (r, p) = m n.tx_pool in (map_error pool_error r, set_pool p n)

  abbrev pub on_chain : {A : Type 0} → Method ChainError HardhatBlockchain A → M Data A
  on_chain m n = let (r, c) = m n.blockchain in (map_error chain_error r, set_chain c n)
