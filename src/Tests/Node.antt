-- ===== src/Tests/Node.antt =====
-- Tests and witnesses for provider/node.ts.
use polkahat.Prelude.{ℕ, ◌≡◌, ◌≢◌, refl, List, [], ◌∷◌, Bool, true, Option, none, some, leb, arith}
use polkahat.Prelude.Outcome.{Result, ok, throw, bind, Ends}
use polkahat.Map
use native.Mathlib.Decide.{ℕ_discrete}
use polkahat.Transaction.{serialized_eq, serialize_transaction, TypedTransaction}
use polkahat.Samples.{tx_eq, TypedTransaction-discrete, plain, scan, tx_0}
use polkahat.Filter.{
  RpcLogOutput, filter_logs, is_selected, topic_matched, topics_matched_from, includes,
}
use polkahat.Blockchain.Data.{get_block_before, reserve_range, store_block, index_transactions}
use polkahat.Blockchain.Reservations.{
  fulfill_block_reservation, split_reservation, find_block_reservation, is_reserved_block,
  remove_reservation, cancel_reservation_with_block, calculate_timestamp,
}
use polkahat.Blockchain.Chain.{get_block, get_latest_block}
use polkahat.Tests.Chain.{block_of, plain_lib, chain, chain-IsChain}
use polkahat.Node.Mining.{
  mine_block_with_pending_txs, save_block_as_successfully_run, get_next_mix_hash,
  get_next_parent_beacon_block_root, get_next_block_base_fee_per_gas, run_block_builder,
  rpc_receipts, rpc_logs,
}
use polkahat.Node.Clock.{
  calculate_timestamp_and_offset, get_current_timestamp, timestamp_clashes_with_previous_block_one,
  settle_clock, increase_time, set_time_increment, reset_next_block_timestamp,
  set_next_block_timestamp, reset_user_provided_next_block_base_fee_per_gas,
}
use polkahat.Node.Building.{fill_block, handle, build_transaction, is_tx_minable}
use polkahat.TxPool.State.{get_pending_transactions, get_sender_address, raw_sender_address}
use polkahat.Transaction.{deserialize_transaction}
use polkahat.TransactionQueue.{
  new_queue, enqueue_all, ordered_transaction_comparator, order_comparator, get_next_transaction,
  pop_next, move_first_enqueued_transaction_to_heap,
}
use polkahat.Samples.{tx_eq, TypedTransaction-discrete, pop_first}
use polkahat.Blockchain.Chain.{
  add_block, validate_block, compute_total_difficulty, get_total_difficulty,
  add_transaction_receipts, add_receipts,
}
use polkahat.TxPool.Remove.{
  update_pending_and_queued, update_pending, update_pending_txs, update_pending_tx, update_queued,
  update_queued_txs, is_tx_valid, remove_tx,
}
use polkahat.Node.Subscriptions.{notify_all, notify_block}
use polkahat.Filter.{bloom_filter, bloom_topics}
use polkahat.Blockchain.Data.{add_transaction_receipt}
use polkahat.Node.State.{HardhatNode, Error}
use polkahat.Node.Building.{HeaderData, MinedBlock}
use polkahat.Node.Mining.{mine_block, choose_transactions}
use polkahat.Node.Frames.{HasChain}
use polkahat.Node.Progress.{Advances, mine_block-Advances, mine_block-distinct}
use polkahat.Node.Blocks.{mine_blocks}
use polkahat.Node.Series.{Reaches, mine_blocks-Ends}
use polkahat.Node.Subscriptions.{new_deadline, get_filter_changes, logs_of}
use polkahat.Node.Polls.{Saved, save_all, get_filter_changes-saved}
use polkahat.Node.Gas.{
  min_diff, new_estimation, binary_search_estimation, correct_initial_estimation,
}
use polkahat.Node.Estimation.{Corrected, correct_initial_estimation_lem}
use polkahat.Node.Hardforks.{
  berlin, london, cancun, named, selected, highest_activation, select_hardfork,
  no_hardfork_for_block,
}
use polkahat.Node.Activations.{Choice, select_hardfork_lem}
use polkahat.Node.Contexts.{number}
use polkahat.Tests.Setting.{plain_vm, all_logs, log_filter, node}

mine_block-Advances_example :
    Ends
      (Advances plain_lib 200000 none node 4)
      HasChain
      (mine_block plain plain_lib plain_vm scan 200000 none node)
mine_block-Advances_example =
    mine_block-Advances plain plain_lib plain_vm scan 200000 none node chain-IsChain

mine_blocks-Ends_example :
    Ends
      (Reaches 14 10)
      HasChain
      (mine_blocks plain plain_lib plain_vm scan (λ l. 200000) 10 1 node)
mine_blocks-Ends_example =
    mine_blocks-Ends plain plain_lib plain_vm scan (λ l. 200000) 10 1 node chain-IsChain

abbrev header : HeaderData
header = record {
  gas_limit = 30000000;
  coinbase = 2;
  timestamp = 210;
  mix_hash = some 31;
  parent_beacon_block_root = none;
  base_fee_per_gas = some 5;
}

abbrev log_9 : RpcLogOutput
log_9 = record { block_number = 4; address = 9; topics = 1 ∷ [] }

abbrev one_saved : List Saved
one_saved =
    record {
      check = λ x. true;
      block = block_of 4 7 none 200;
      difficulty = 1;
      logs = log_9 ∷ [];
      now = 200000;
    }
    ∷ []

get_filter_changes-saved_example :
    get_filter_changes 210000 1 (record node { filters = save_all one_saved node.filters }) ≡ (
      ok (some (logs_of (log_9 ∷ []))),
      record node {
        filters =
            Map.put 1
              (record log_filter { logs = []; deadline = new_deadline 210000 })
              (save_all one_saved node.filters);
      },
    )
unfolding Map.get filter_logs is_selected topic_matched topics_matched_from includes
get_filter_changes-saved_example =
    get_filter_changes-saved 210000 1 all_logs log_filter one_saved node refl
      (record { of_logs = refl; by = refl; polled = refl }) (((λ e. cc), tt), tt)
      ((((refl, (refl, tt)), tt), omega arith), tt)

latest_three :
    get_latest_block plain_lib chain
    ≡ (ok (block_of 3 7 none 130), (get_latest_block plain_lib chain).1)
unfolding get_latest_block get_block fulfill_block_reservation split_reservation
    find_block_reservation is_reserved_block remove_reservation cancel_reservation_with_block
    calculate_timestamp get_block_before reserve_range store_block index_transactions Map.get
    Map.put
latest_three = refl

mine_block-distinct_example :
    Ends
      (λ mined m. mined.block.timestamp ≢ 130)
      HasChain
      (mine_block plain plain_lib plain_vm scan 120000 none node)
mine_block-distinct_example =
    mine_block-distinct plain plain_lib plain_vm scan 120000 none node (block_of 3 7 none 130)
      (get_latest_block plain_lib chain).1 chain-IsChain refl latest_three

-- The call needs 50000 gas.
abbrev needs_50000 : ℕ → Bool
needs_50000 gas = leb 50000 gas

estimates : correct_initial_estimation needs_50000 21000 30000000 25000 ≡ some 50000
unfolding correct_initial_estimation binary_search_estimation min_diff new_estimation
estimates = refl

correct_initial_estimation_lem_example :
    Corrected needs_50000 25000 30000000
      (correct_initial_estimation needs_50000 21000 30000000 25000)
correct_initial_estimation_lem_example =
    correct_initial_estimation_lem needs_50000 21000 30000000 25000 refl (omega arith)

-- The hardforks in order, and in the other order.
select_hardfork_lem_example :
    Choice
      (λ h. true)
      12500000
      (berlin, 12244000)
      ((london, 12965000) ∷ [])
      (select_hardfork
        (λ h. true)
        (named cancun)
        (some 19000000)
        ((berlin, 12244000) ∷ (london, 12965000) ∷ [])
        12500000)
select_hardfork_lem_example =
    select_hardfork_lem (λ h. true) (named cancun) 19000000 12500000 (berlin, 12244000)
      ((london, 12965000) ∷ []) (omega arith)

out_of_order :
    select_hardfork
      (λ h. true)
      (named cancun)
      (some 19000000)
      ((london, 12965000) ∷ (berlin, 12244000) ∷ [])
      12500000
    ≡ throw no_hardfork_for_block
unfolding select_hardfork highest_activation selected
out_of_order = refl

what_of :
    Result Error MinedBlock × HardhatNode TypedTransaction → Option (ℕ × ℕ × List TypedTransaction)
what_of (ok mined, n) = some (mined.block.number, mined.block.timestamp, mined.block.transactions)
what_of (throw e, n) = none

-- The pending transaction gets into block 4, at the time of the clock with its offset.
mines_pending :
    what_of (mine_block plain plain_lib plain_vm scan 200000 none node) ≡ some (4, 210, tx_0 ∷ [])
unfolding mine_block mine_block_with_pending_txs save_block_as_successfully_run get_next_mix_hash
    get_next_parent_beacon_block_root get_next_block_base_fee_per_gas run_block_builder
    choose_transactions rpc_receipts rpc_logs calculate_timestamp_and_offset get_current_timestamp
    timestamp_clashes_with_previous_block_one settle_clock increase_time set_time_increment
    reset_next_block_timestamp set_next_block_timestamp
    reset_user_provided_next_block_base_fee_per_gas fill_block handle build_transaction
    is_tx_minable get_pending_transactions get_sender_address raw_sender_address
    deserialize_transaction new_queue enqueue_all ordered_transaction_comparator order_comparator
    get_next_transaction pop_next move_first_enqueued_transaction_to_heap pop_first add_block
    validate_block compute_total_difficulty get_total_difficulty add_transaction_receipts
    add_receipts update_pending_and_queued update_pending update_pending_txs update_pending_tx
    update_queued update_queued_txs is_tx_valid remove_tx notify_all notify_block bloom_filter
    bloom_topics filter_logs add_transaction_receipt get_latest_block get_block
    fulfill_block_reservation split_reservation find_block_reservation is_reserved_block
    remove_reservation cancel_reservation_with_block calculate_timestamp get_block_before
    reserve_range store_block index_transactions Map.get Map.put Map.delete what_of
mines_pending = refl

-- A block that is asked for at its predecessor's time, 130, is moved on to 131; one that is mined by
-- default in the same second then has an earlier time than its predecessor.
falls_behind :
    what_of (
      bind
        (λ mined. mine_block plain plain_lib plain_vm scan 120000 none)
        (mine_block plain plain_lib plain_vm scan 120000 (some 130) node))
    ≡ some (5, 130, [])
unfolding mine_block mine_block_with_pending_txs save_block_as_successfully_run get_next_mix_hash
    get_next_parent_beacon_block_root get_next_block_base_fee_per_gas run_block_builder
    choose_transactions rpc_receipts rpc_logs calculate_timestamp_and_offset get_current_timestamp
    timestamp_clashes_with_previous_block_one settle_clock increase_time set_time_increment
    reset_next_block_timestamp set_next_block_timestamp
    reset_user_provided_next_block_base_fee_per_gas fill_block handle build_transaction
    is_tx_minable get_pending_transactions get_sender_address raw_sender_address
    deserialize_transaction new_queue enqueue_all ordered_transaction_comparator order_comparator
    get_next_transaction pop_next move_first_enqueued_transaction_to_heap pop_first add_block
    validate_block compute_total_difficulty get_total_difficulty add_transaction_receipts
    add_receipts update_pending_and_queued update_pending update_pending_txs update_pending_tx
    update_queued update_queued_txs is_tx_valid remove_tx notify_all notify_block bloom_filter
    bloom_topics filter_logs add_transaction_receipt get_latest_block get_block
    fulfill_block_reservation split_reservation find_block_reservation is_reserved_block
    remove_reservation cancel_reservation_with_block calculate_timestamp get_block_before
    reserve_range store_block index_transactions Map.get Map.put Map.delete what_of serialized_eq
    serialize_transaction tx_eq TypedTransaction-discrete ℕ_discrete
falls_behind = refl
