-- ===== src/TxPool/Remove.antt =====
-- `removeTransaction`, and `updatePendingAndQueued`, which drops what a new block made invalid
-- (provider/TxPool.ts).
use polkahat.Prelude.{
  ℕ, ◌+◌, ◌-◌, List, [], ◌∷◌, ◌++◌, Bool, true, false, ◌&&◌, Option, none, some, length, take, drop,
  remove_at, find_index, leb, if◌then◌else◌,
}
use polkahat.Prelude.Outcome.{ok, throw, ◌>>=◌, ◌>>◌, return, fail, get_state, modify}
use polkahat.Map
use polkahat.Transaction.{
  OrderedTransaction, SerializedTransaction, Externals, serialize_transaction,
  deserialize_transaction, serialized_eq,
}
use polkahat.TxPool.State.{
  not_in_lists, missing_list, Account, M, get_or_empty, nonce_of, balance_of, pending_for,
  queued_for, set_pending, set_queued, set_pending_for, set_queued_for, delete_transaction_by_hash,
  get_transaction_by_hash, get_sender_address,
}

unfoldable pub is_tx_valid : OrderedTransaction → ℕ → ℕ → ℕ → ℕ → Bool
is_tx_valid tx block_gas_limit tx_nonce sender_nonce sender_balance =
    leb tx.tx.gas_limit block_gas_limit
    && leb sender_nonce tx_nonce
    && leb tx.tx.upfront_cost sender_balance

module _ {Data : Type 0} (ext : Externals Data) where
  abbrev pub index_of : SerializedTransaction Data → List (SerializedTransaction Data) → Option ℕ
  index_of tx = find_index (λ s. serialized_eq ext s tx)

  -- The part of `removeTransaction` behind the lookup: `tx` is the transaction found.
  unfoldable pub remove_from_lists : ℕ → SerializedTransaction Data → M Data Bool
  remove_from_lists sender tx p =
      let pending = get_or_empty (pending_for p sender) in
      let queued = get_or_empty (queued_for p sender) in
      elim (index_of tx pending) [
        | some i ↦ (
          ok true,
          set_queued_for sender (queued ++ drop (i + 1) pending)
              (set_pending_for sender (take i pending) p),
        )
        | none ↦ elim (index_of tx queued) [
          | some i ↦ (ok true, set_queued_for sender (remove_at queued i) p)
          | none ↦ (throw not_in_lists, p)
        ]
      ]

  unfoldable pub remove_transaction : ℕ → M Data Bool
  remove_transaction hash p = elim (get_transaction_by_hash ext hash p) [
    | none ↦ (ok false, p)
    | some tx ↦
        (do
          modify (delete_transaction_by_hash hash)
          sender ← get_sender_address ext tx.tx
          remove_from_lists sender (serialize_transaction ext tx))
          p
  ]

  -- immutable's `remove` at what `indexOf` answered: -1 stands for the last element.
  abbrev pub remove_found :
      List (SerializedTransaction Data) → Option ℕ → List (SerializedTransaction Data)
  remove_found txs none = remove_at txs (length txs - 1)
  remove_found txs (some i) = remove_at txs i

  unfoldable pub remove_tx :
      List (ℕ × List (SerializedTransaction Data))
      → ℕ
      → OrderedTransaction
      → M Data (List (ℕ × List (SerializedTransaction Data)))
  remove_tx m address tx = elim (Map.get address m) [
    | none ↦ fail missing_list
    | some account_txs ↦ do
      modify (delete_transaction_by_hash tx.tx.hash)
      return (
          Map.put address
            (remove_found account_txs (index_of (serialize_transaction ext tx) account_txs)) m)
  ]

  -- One round of the inner loop over pending transactions. The result is `moveToQueued` and
  -- `newPending` after it.
  unfoldable pub update_pending_tx :
      ℕ
      → ℕ
      → ℕ
      → Bool
      → SerializedTransaction Data
      → List (ℕ × List (SerializedTransaction Data))
      → M Data (Bool × List (ℕ × List (SerializedTransaction Data)))
  update_pending_tx address sender_nonce sender_balance true tx new_pending = do
    new_pending' ← remove_tx new_pending address (deserialize_transaction ext tx)
    p ← get_state
    modify (set_queued_for address (get_or_empty (queued_for p address) ++ tx ∷ []))
    return (true, new_pending')
  update_pending_tx address sender_nonce sender_balance false tx new_pending = do
    let deserialized_tx = deserialize_transaction ext tx
    p ← get_state
    if is_tx_valid deserialized_tx p.state.block_gas_limit deserialized_tx.tx.nonce sender_nonce
          sender_balance
        then return (false, new_pending)
        else (do
          new_pending' ← remove_tx new_pending address deserialized_tx
          return (leb sender_nonce deserialized_tx.tx.nonce, new_pending'))

  unfoldable pub update_pending_txs :
      ℕ
      → ℕ
      → ℕ
      → Bool
      → List (SerializedTransaction Data)
      → List (ℕ × List (SerializedTransaction Data))
      → M Data (List (ℕ × List (SerializedTransaction Data)))
  update_pending_txs address sender_nonce sender_balance move_to_queued [] new_pending =
      return new_pending
  update_pending_txs address sender_nonce sender_balance move_to_queued (tx ∷ txs) new_pending = do
    (moved, new_pending') ←
        update_pending_tx address sender_nonce sender_balance move_to_queued tx new_pending
    update_pending_txs address sender_nonce sender_balance moved txs new_pending'

  -- The loop over the senders.
  unfoldable pub update_pending :
      (ℕ → Option Account)
      → List (ℕ × List (SerializedTransaction Data))
      → List (ℕ × List (SerializedTransaction Data))
      → M Data (List (ℕ × List (SerializedTransaction Data)))
  update_pending accounts [] new_pending = return new_pending
  update_pending accounts ((address, txs) ∷ entries) new_pending = do
    let account = accounts address
    new_pending' ←
        update_pending_txs address (nonce_of account) (balance_of account) false txs new_pending
    update_pending accounts entries new_pending'

  unfoldable pub update_queued_txs :
      ℕ
      → ℕ
      → ℕ
      → List (SerializedTransaction Data)
      → List (ℕ × List (SerializedTransaction Data))
      → M Data (List (ℕ × List (SerializedTransaction Data)))
  update_queued_txs address sender_nonce sender_balance [] new_queued = return new_queued
  update_queued_txs address sender_nonce sender_balance (tx ∷ txs) new_queued = do
    let deserialized_tx = deserialize_transaction ext tx
    p ← get_state
    new_queued' ←
        if is_tx_valid deserialized_tx p.state.block_gas_limit deserialized_tx.tx.nonce sender_nonce
          sender_balance
        then return new_queued
        else remove_tx new_queued address deserialized_tx
    update_queued_txs address sender_nonce sender_balance txs new_queued'

  unfoldable pub update_queued :
      (ℕ → Option Account)
      → List (ℕ × List (SerializedTransaction Data))
      → List (ℕ × List (SerializedTransaction Data))
      → M Data (List (ℕ × List (SerializedTransaction Data)))
  update_queued accounts [] new_queued = return new_queued
  update_queued accounts ((address, txs) ∷ entries) new_queued = do
    let account = accounts address
    new_queued' ← update_queued_txs address (nonce_of account) (balance_of account) txs new_queued
    update_queued accounts entries new_queued'

  unfoldable pub update_pending_and_queued : (ℕ → Option Account) → M Data (Unit {0})
  update_pending_and_queued accounts = do
    p ← get_state
    let pending = p.state.pending_transactions
    new_pending ← update_pending accounts (ext.entries pending) pending
    modify (set_pending new_pending)
    q ← get_state
    let queued = q.state.queued_transactions
    new_queued ← update_queued accounts (ext.entries queued) queued
    modify (set_queued new_queued)
