-- ===== src/Node/Sending.antt =====
-- provider/node.ts: sending a transaction, with and without automining.
use polkahat.Prelude.{
  ℕ, zero, suc, List, [], ◌∷◌, ◌++◌, Bool, false, not, ◌||◌, Option, none, some, ltb, if◌then◌else◌,
}
use polkahat.Prelude.Outcome.{
  Result, ok, throw, bind, ◌>>=◌, ◌>>◌, return, fail, get_state, modify, throw_if,
}
use polkahat.Transaction.{
  TypedTransaction, Externals, Fees, gas_price, eip1559, sender_of, max_fee_of, priority_fee_of,
}
use polkahat.TxPool.State.{has_pending_transactions, has_queued_transactions, next_pending_nonce}
use polkahat.TxPool.Add.{add_transaction}
use polkahat.TransactionQueue.{Heap}
use polkahat.Blockchain.Data.{BlockLib}
use polkahat.Blockchain.Chain.{get_transaction_receipt}
use polkahat.Node.State.{
  HardhatNode, M, Error, invalid_sender, nonce_too_high, nonce_too_low, gas_price_below_minimum,
  max_fee_below_base_fee, gas_price_below_base_fee, never_included, out_of_fuel, on_pool,
}
use polkahat.Node.Snapshots.{take_snapshot, revert_to_snapshot, remove_snapshot}
use polkahat.Node.Subscriptions.{notify_pending_transaction}
use polkahat.Node.Building.{Vm, MinedBlock}
use polkahat.Node.Mining.{get_next_block_base_fee_per_gas, mine_block}

pub data SendTransactionResult : Type 0 where
  hash_sent : ℕ → SendTransactionResult
  blocks_mined : List MinedBlock → SendTransactionResult

abbrev pub fee_error : Fees → Error
fee_error (gas_price p) = gas_price_below_base_fee
fee_error (eip1559 m t) = max_fee_below_base_fee

abbrev pub below_base_fee : Option ℕ → Fees → Bool
below_base_fee none fees = false
below_base_fee (some base_fee) fees = ltb (max_fee_of fees) base_fee

module _ {Data : Type 0} (ext : Externals Data) (lib : BlockLib) (vm : Vm) (heap : Heap) where
  abbrev pub sender_of_tx : Option ℕ → M Data ℕ
  sender_of_tx none = fail invalid_sender
  sender_of_tx (some a) = return a

  unfoldable pub validate_automined_tx : TypedTransaction → M Data (Unit {0})
  unfolding get_next_block_base_fee_per_gas next_pending_nonce
  validate_automined_tx tx = do
    sender ← sender_of_tx (sender_of tx.origin)
    n ← get_state
    let next_nonce = next_pending_nonce ext (vm.account_at n.state_root) n.tx_pool sender
    throw_if (ltb next_nonce tx.nonce) nonce_too_high
    throw_if (ltb tx.nonce next_nonce) nonce_too_low
    throw_if (ltb (priority_fee_of tx.fees) n.min_gas_price) gas_price_below_minimum
    base_fee ← get_next_block_base_fee_per_gas ext lib vm heap
    throw_if (below_base_fee base_fee tx.fees) (fee_error tx.fees)

  unfoldable pub add_pending_transaction_to_node : TypedTransaction → M Data ℕ
  unfolding add_transaction notify_pending_transaction
  add_pending_transaction_to_node tx = do
    n ← get_state
    on_pool (add_transaction ext (vm.account_at n.state_root) tx)
    modify (notify_pending_transaction tx)
    return tx.hash

  unfoldable pub mine_transaction : ℕ → TypedTransaction → M Data MinedBlock
  unfolding add_pending_transaction_to_node mine_block
  mine_transaction now tx = do
    hash ← add_pending_transaction_to_node tx
    mine_block ext lib vm heap now none

  -- The second loop of `_mineBlocksUntilTransactionIsIncluded`; `clock` is the time when the chain
  -- has a length. The fuel bounds the number of blocks.
  unfoldable pub mine_all_pending : (ℕ → ℕ) → ℕ → List MinedBlock → M Data (List MinedBlock)
  unfolding mine_block has_pending_transactions
  mine_all_pending clock zero results = fail out_of_fuel
  mine_all_pending clock (suc fuel) results = do
    n ← get_state
    if has_pending_transactions n.tx_pool
        then (do
          mined ← mine_block ext lib vm heap (clock n.blockchain.length) none
          mine_all_pending clock fuel (results ++ mined ∷ []))
        else return results

  -- The first loop, then the second.
  unfoldable pub mine_blocks_until_transaction_is_included :
      (ℕ → ℕ) → ℕ → ℕ → List MinedBlock → M Data (List MinedBlock)
  unfolding mine_block has_pending_transactions mine_all_pending get_transaction_receipt
  mine_blocks_until_transaction_is_included clock zero hash results = fail out_of_fuel
  mine_blocks_until_transaction_is_included clock (suc fuel) hash results = do
    n ← get_state
    throw_if (not (has_pending_transactions n.tx_pool)) never_included
    mined ← mine_block ext lib vm heap (clock n.blockchain.length) none
    n ← get_state
    elim (get_transaction_receipt hash n.blockchain) [
      | none ↦ mine_blocks_until_transaction_is_included clock fuel hash (results ++ mined ∷ [])
      | some receipt ↦ mine_all_pending clock fuel (results ++ mined ∷ [])
    ]

  -- `catch (err) { await revert; throw err; }`: an error of the revert takes the place of `err`.
  abbrev pub revert_on_throw :
      {A : Type 0} → ℕ → ℕ → Result Error A × HardhatNode Data → Result Error A × HardhatNode Data
  revert_on_throw now id (ok a, n) = (ok a, remove_snapshot id n)
  revert_on_throw now id (throw e, n) =
      bind (λ reverted n'. (throw e, n')) (revert_to_snapshot lib now id n)

  unfoldable pub mine_transaction_and_pending :
      (ℕ → ℕ) → ℕ → TypedTransaction → M Data (List MinedBlock)
  unfolding take_snapshot revert_to_snapshot remove_snapshot add_pending_transaction_to_node
      mine_blocks_until_transaction_is_included
  mine_transaction_and_pending clock fuel tx = do
    n ← get_state
    let now = clock n.blockchain.length
    snapshot_id ← take_snapshot lib now
    λ n. revert_on_throw now snapshot_id (
        (do
          hash ← add_pending_transaction_to_node tx
          mine_blocks_until_transaction_is_included clock fuel hash [])
          n)

  unfoldable pub send_transaction : (ℕ → ℕ) → ℕ → TypedTransaction → M Data SendTransactionResult
  unfolding add_pending_transaction_to_node validate_automined_tx mine_transaction_and_pending
      mine_transaction has_pending_transactions has_queued_transactions
  send_transaction clock fuel tx = do
    n ← get_state
    if not n.automine
        then (do hash ← add_pending_transaction_to_node tx; return (hash_sent hash))
        else (do
          validate_automined_tx tx
          if has_pending_transactions n.tx_pool || has_queued_transactions n.tx_pool
              then (do
                blocks ← mine_transaction_and_pending clock fuel tx
                return (blocks_mined blocks))
              else (do
                mined ← mine_transaction (clock n.blockchain.length) tx
                return (blocks_mined (mined ∷ []))))
