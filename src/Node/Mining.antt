-- ===== src/Node/Mining.antt =====
-- provider/node.ts: mining a block and saving it. The classes that errors are wrapped in are left
-- out; so is the time that a call takes, `now` being one time for each block.
use polkahat.Prelude.{
  ℕ, suc, List, [], ◌∷◌, ◌++◌, map, false, not, Option, none, some, if◌then◌else◌,
}
use polkahat.Prelude.Int.{ℤ, pos, negsuc, ◌+ℤ◌}
use polkahat.Prelude.Outcome.{Result, ok, ◌>>=◌, ◌>>◌, return, fail, get_state, modify}
use polkahat.Transaction.{TypedTransaction, Externals}
use polkahat.TxPool.State.{get_pending_transactions}
use polkahat.TxPool.Remove.{update_pending_and_queued}
use polkahat.TransactionQueue.{Heap, new_queue, get_next_transaction}
use polkahat.Filter.{RpcLogOutput}
use polkahat.Blockchain.Data.{Block, BlockLib, RpcReceiptOutput}
use polkahat.Blockchain.Chain.{
  get_latest_block, add_block, add_transaction_receipts, get_total_difficulty,
}
use polkahat.Node.State.{
  HardhatNode, M, Error, queue_error, negative_timestamp, map_error, on_pool, on_chain, set_chain,
}
use polkahat.Node.Clock.{
  calculate_timestamp_and_offset, timestamp_clashes_with_previous_block_one, settle_clock,
}
use polkahat.Node.Subscriptions.{notify_all}
use polkahat.Node.Building.{
  HeaderData, RawLog, TxResult, Vm, BlockBuilder, MinedBlock, first_and_rest, count_all,
  after_result, and_then, fill_block,
}

-- provider/output.ts: the logs of the i-th transaction of a block, and the receipts.
unfoldable pub rpc_logs : Block → List RawLog → List RpcLogOutput
rpc_logs block raw =
    map (λ l. record { block_number = block.number; address = l.0; topics = l.1 }) raw

unfoldable pub rpc_receipts : Block → List TypedTransaction → List TxResult → List RpcReceiptOutput
unfolding rpc_logs
rpc_receipts block [] results = []
rpc_receipts block (tx ∷ txs) [] = []
rpc_receipts block (tx ∷ txs) (result ∷ results) =
    record {
      transaction_hash = tx.hash;
      gas_used = result.total_gas_spent;
      logs = rpc_logs block result.logs;
    }
    ∷ rpc_receipts block txs results

abbrev pub all_logs : List RpcReceiptOutput → List RpcLogOutput
all_logs [] = []
all_logs (r ∷ rs) = r.logs ++ all_logs rs

module _ {Data : Type 0} (ext : Externals Data) (lib : BlockLib) (vm : Vm) (heap : Heap) where
  unfoldable pub get_next_block_base_fee_per_gas : M Data (Option ℕ)
  get_next_block_base_fee_per_gas n =
      if not vm.is_eip1559_active
      then (ok none, n)
      else (elim n.user_provided_next_block_base_fee_per_gas [
        | some fee ↦ (ok (some fee), n)
        | none ↦
            (do
              latest_block ← on_chain (get_latest_block lib)
              return (some (vm.calc_next_base_fee latest_block)))
              n
      ])

  -- `this._mixHashGenerator.next()`, if the hardfork has the field.
  unfoldable pub get_next_mix_hash : M Data (Option ℕ)
  get_next_mix_hash n =
      if vm.is_post_merge
      then (
        ok (some n.mix_hash_generator),
        record n { mix_hash_generator = vm.keccak256 n.mix_hash_generator },
      )
      else (ok none, n)

  unfoldable pub get_next_parent_beacon_block_root : M Data (Option ℕ)
  get_next_parent_beacon_block_root n =
      if vm.is_post_cancun
      then (
        ok (some n.parent_beacon_block_root_generator),
        record n {
          parent_beacon_block_root_generator = vm.keccak256 n.parent_beacon_block_root_generator;
        },
      )
      else (ok none, n)

  -- The transactions of the block.
  unfoldable pub choose_transactions :
      Block → HeaderData → HardhatNode Data → Result Error BlockBuilder
  unfolding fill_block
  choose_transactions parent header n =
      let pending = get_pending_transactions ext n.tx_pool in
      and_then
        (map_error queue_error
          (new_queue (first_and_rest pending) n.mempool_order header.base_fee_per_gas))
        (λ q.
          after_result
            (fill_block vm heap parent header n.min_gas_price (suc (count_all pending))
              (record { transactions = []; gas_used = 0; results = [] }))
            (get_next_transaction heap q))

  unfoldable pub run_block_builder : Block → HeaderData → M Data BlockBuilder
  unfolding choose_transactions
  run_block_builder parent header n = (choose_transactions parent header n, n)

  unfoldable pub mine_block_with_pending_txs : ℕ → M Data MinedBlock
  unfolding get_next_block_base_fee_per_gas get_next_mix_hash get_next_parent_beacon_block_root
      run_block_builder
  mine_block_with_pending_txs block_timestamp = do
    parent ← on_chain (get_latest_block lib)
    mix_hash ← get_next_mix_hash
    beacon_root ← get_next_parent_beacon_block_root
    base_fee ← get_next_block_base_fee_per_gas
    n ← get_state
    let header : HeaderData = record {
      gas_limit = n.tx_pool.state.block_gas_limit;
      coinbase = n.coinbase;
      timestamp = block_timestamp;
      mix_hash = mix_hash;
      parent_beacon_block_root = beacon_root;
      base_fee_per_gas = base_fee;
    }
    builder ← run_block_builder parent header
    let block = vm.build parent header builder.transactions
    added ← on_chain (add_block lib block)
    modify (λ n. record n { state_root = block.state_root })
    on_pool (update_pending_and_queued ext (vm.account_at block.state_root))
    return (record { block = block; results = builder.results })

  -- `_saveBlockAsSuccessfullyRun`
  unfoldable pub save_block_as_successfully_run : ℕ → MinedBlock → M Data (Unit {0})
  unfolding notify_all rpc_receipts
  save_block_as_successfully_run now mined = do
    let receipts = rpc_receipts mined.block mined.block.transactions mined.results
    modify (λ n. set_chain (add_transaction_receipts receipts n.blockchain) n)
    difficulty ← on_chain (get_total_difficulty mined.block.hash)
    modify (λ n.
        let (filters, events) =
          notify_all (lib.check mined.block.logs_bloom) mined.block difficulty (all_logs receipts)
            now n.filters in
        record n { filters = filters; emitted = n.emitted ++ events })

  abbrev pub mine_at : ℤ → M Data MinedBlock
  mine_at (pos t) = mine_block_with_pending_txs t
  mine_at (negsuc t) = fail negative_timestamp

  unfoldable pub mine_block : ℕ → Option ℕ → M Data MinedBlock
  unfolding calculate_timestamp_and_offset timestamp_clashes_with_previous_block_one settle_clock
      mine_block_with_pending_txs save_block_as_successfully_run
  mine_block now timestamp = do
    n ← get_state
    let t = calculate_timestamp_and_offset now timestamp n
    clashes ←
        (if n.allow_blocks_with_same_timestamp
          then return false
          else timestamp_clashes_with_previous_block_one lib t.block_timestamp)
    mined ← mine_at (if clashes then t.block_timestamp +ℤ pos 1 else t.block_timestamp)
    save_block_as_successfully_run now mined
    modify (settle_clock clashes t)
    return mined
