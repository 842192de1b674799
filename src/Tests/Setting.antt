-- ===== src/Tests/Setting.antt =====
-- A node to test with: a chain with a first block and three reserved ones, one pending transaction,
-- a log filter and a snapshot.
use polkahat.Prelude.{
  ℕ, ◌+◌, ◌*◌, ◌≤◌, refl, ap, subst, [], ◌∷◌, true, false, Option, none, some, length, arith, ◌-◌,
}
use polkahat.Prelude.Int.{pos, negsuc}
use polkahat.Transaction.{TypedTransaction, SerializedTransaction}
use polkahat.TransactionQueue.{fifo}
use polkahat.TxPool.State.{PoolState}
use polkahat.Samples.{tx_0}
use polkahat.Filter.{FilterCriteria}
use polkahat.Tests.Chain.{genesis, chain}
use polkahat.Node.State.{HardhatNode, Filter, logs_subscription, Snapshot}
use polkahat.Node.Building.{TxResult, Vm}

abbrev gas_of : Option TxResult → ℕ
gas_of none = 0
gas_of (some r) = r.total_gas_spent

-- Every transaction spends its gas limit and logs once; the state root counts transactions.
abbrev pub plain_vm : Vm
plain_vm = record {
  is_eip1559_active = true;
  is_post_merge = true;
  is_post_cancun = false;
  minimal_transaction_fee = 21000;
  keccak256 = λ x. x + 1;
  calc_next_base_fee = λ b. 5;
  account_at = λ root a. some (record { nonce = root - 7; balance = 1000000000 });
  put_account = λ root address a. root;
  run_transaction =
      λ parent h txs tx. some (record { total_gas_spent = tx.gas_limit; logs = (9, 1 ∷ []) ∷ [] });
  run_transaction-gas =
      λ parent h txs tx result e. subst (λ g. g ≤ tx.gas_limit) (ap gas_of e) (omega arith);
  build = λ parent h txs. record {
    number = parent.number + 1;
    hash = parent.number + 1001;
    parent_hash = parent.hash;
    difficulty = 0;
    timestamp = h.timestamp;
    state_root = parent.state_root + length txs;
    gas_limit = h.gas_limit;
    gas_used = 21000 * length txs;
    base_fee_per_gas = h.base_fee_per_gas;
    logs_bloom = 0;
    transactions = txs;
  };
  build-number = λ parent h txs. refl;
  build-timestamp = λ parent h txs. refl;
  build-transactions = λ parent h txs. refl;
}

abbrev pub stored : SerializedTransaction TypedTransaction
stored = record { order_id = 0; fake_from = none; rlp = tx_0; tx_type = 2 }

abbrev pub pool_state : PoolState TypedTransaction
pool_state = record {
  pending_transactions = (7, stored ∷ []) ∷ [];
  queued_transactions = [];
  hash_to_transaction = (1000, stored) ∷ [];
  block_gas_limit = 30000000;
}

abbrev pub all_logs : FilterCriteria
all_logs = record {
  from_block = pos 0;
  to_block = negsuc 0;
  addresses = 9 ∷ [];
  normalized_topics = some (some 1 ∷ []) ∷ [];
}

abbrev pub log_filter : Filter
log_filter = record {
  id = 1;
  kind = logs_subscription;
  criteria = some all_logs;
  deadline = 300000;
  hashes = [];
  logs = [];
  subscription = false;
}

abbrev pub saved_node : Snapshot
saved_node = record {
  id = 1;
  date = 50000;
  latest_block = genesis;
  state_root = 7;
  tx_pool_snapshot_id = 1;
  block_time_offset_seconds = pos 0;
  next_block_timestamp = 0;
  irregular_states_by_block_number = [];
  user_provided_next_block_base_fee_per_gas = none;
  coinbase = 1;
  mix_hash_generator = 30;
  parent_beacon_block_root_generator = 40;
}

abbrev pub node : HardhatNode TypedTransaction
node = record {
  tx_pool = record {
    state = pool_state;
    snapshots = (1, pool_state) ∷ [];
    next_snapshot_id = 2;
    next_order_id = 1;
  };
  blockchain = chain;
  state_root = 7;
  local_accounts = [];
  impersonated_accounts = [];
  automine = true;
  min_gas_price = 0;
  mempool_order = fifo;
  block_time_offset_seconds = pos 10;
  next_block_timestamp = 0;
  user_provided_next_block_base_fee_per_gas = none;
  coinbase = 2;
  allow_blocks_with_same_timestamp = false;
  last_filter_id = 1;
  filters = (1, log_filter) ∷ [];
  next_snapshot_id = 2;
  snapshots = saved_node ∷ [];
  irregular_states_by_block_number = [];
  mix_hash_generator = 31;
  parent_beacon_block_root_generator = 41;
  emitted = [];
}
