-- ===== src/TxPool/Add.antt =====
-- `addTransaction` and what it calls: validation, replacement by a better paying transaction, and
-- the pending and queued branches (provider/TxPool.ts).
use polkahat.Prelude.{
  ℕ, ◌+◌, ◌*◌, ◌/◌, ◌%◌, List, [], ◌∷◌, ◌++◌, Bool, true, false, ◌||◌, Option, none, some, any,
  get_elem?, set, find_index, ltb, ◌==◌, if◌then◌else◌,
}
use polkahat.Prelude.Outcome.{◌>>=◌, ◌>>◌, return, get_state, modify, throw_if, lift}
use polkahat.Transaction.{
  TypedTransaction, OrderedTransaction, SerializedTransaction, Externals, max_fee_of,
  priority_fee_of, serialize_transaction, deserialize_transaction,
}
use polkahat.TxPool.State.{
  known_transaction, creation_without_data, not_enough_funds, nonce_too_low, gas_below_base_fee,
  gas_above_block_limit, underpriced_max_fee, underpriced_priority_fee, Account, TxPool, M,
  get_or_empty, nonce_of, balance_of, pending_for, queued_for, set_pending_for, set_queued_for,
  set_transaction_by_hash, delete_transaction_by_hash, take_order_id, nonce_in, next_pending_nonce,
  get_sender_address, raw_sender_address,
}
use polkahat.TxPool.Reorganize.{reorganize}

-- 110% of a price, rounded up.
unfoldable pub get_min_new_fee_price : ℕ → ℕ
get_min_new_fee_price fee_price =
    let min_new_priority_fee = fee_price * 110 in
    if min_new_priority_fee % 100 == 0
    then min_new_priority_fee / 100
    else min_new_priority_fee / 100 + 1

-- `to === undefined && data.length === 0`
abbrev pub creates_without_data : Option ℕ → ℕ → Bool
creates_without_data none n = n == 0
creates_without_data (some a) n = false

module _ {Data : Type 0} (ext : Externals Data) where
  unfoldable pub transaction_exists :
      TypedTransaction → Option (List (SerializedTransaction Data)) → Bool
  transaction_exists tx tx_list =
      any (λ etx. (deserialize_transaction ext etx).tx.hash == tx.hash) (get_or_empty tx_list)

  unfoldable pub is_known_transaction : TypedTransaction → M Data Bool
  is_known_transaction tx = do
    sender ← raw_sender_address ext tx
    p ← get_state
    return (
        transaction_exists tx (pending_for p sender) || transaction_exists tx (queued_for p sender))

  unfoldable pub validate_transaction :
      (ℕ → Option Account) → TypedTransaction → ℕ → ℕ → M Data (Unit {0})
  validate_transaction accounts tx sender sender_nonce = do
    known ← is_known_transaction tx
    throw_if known known_transaction
    throw_if (creates_without_data tx.to tx.data_length) creation_without_data
    let tx_max_upfront_cost = tx.gas_limit * max_fee_of tx.fees + tx.value
    throw_if (ltb (balance_of (accounts sender)) tx_max_upfront_cost) not_enough_funds
    throw_if (ltb tx.nonce sender_nonce) nonce_too_low
    throw_if (ltb tx.gas_limit tx.base_fee) gas_below_base_fee
    p ← get_state
    throw_if (ltb p.state.block_gas_limit tx.gas_limit) gas_above_block_limit

  -- The position of the transaction with the new one's nonce.
  abbrev pub existing_index : List (SerializedTransaction Data) → OrderedTransaction → Option ℕ
  existing_index txs new_tx = find_index (λ s. nonce_in ext s == new_tx.tx.nonce) txs

  -- The two price checks and the write; `existing` is the transaction at `index`.
  unfoldable pub replace_at :
      List (SerializedTransaction Data)
      → OrderedTransaction
      → ℕ
      → OrderedTransaction
      → M Data (Option (List (SerializedTransaction Data)))
  replace_at txs new_tx index existing = do
    let min_new_max_fee_per_gas = get_min_new_fee_price (max_fee_of existing.tx.fees)
    let min_new_priority_fee_per_gas = get_min_new_fee_price (priority_fee_of existing.tx.fees)
    throw_if (ltb (max_fee_of new_tx.tx.fees) min_new_max_fee_per_gas) underpriced_max_fee
    throw_if (ltb (priority_fee_of new_tx.tx.fees) min_new_priority_fee_per_gas)
        underpriced_priority_fee
    let new_txs = set txs index (serialize_transaction ext new_tx)
    modify (delete_transaction_by_hash existing.tx.hash)
    return (some new_txs)

  unfoldable pub replace_tx :
      Option (List (SerializedTransaction Data))
      → OrderedTransaction
      → M Data (Option (List (SerializedTransaction Data)))
  replace_tx none new_tx = return none
  replace_tx (some txs) new_tx = elim (existing_index txs new_tx) [
    | none ↦ return none
    | some index ↦ elim (get_elem? txs index) [
      | none ↦ return none
      | some existing_tx ↦ replace_at txs new_tx index (deserialize_transaction ext existing_tx)
    ]
  ]

  -- What both callers do with the answer: write the list back, if there is one.
  abbrev pub store_replaced :
      (List (SerializedTransaction Data) → TxPool Data → TxPool Data)
      → Option (List (SerializedTransaction Data))
      → M Data Bool
  store_replaced write none = return false
  store_replaced write (some txs) = do modify (write txs); return true

  unfoldable pub replace_pending_tx : ℕ → OrderedTransaction → M Data Bool
  replace_pending_tx address new_tx = do
    p ← get_state
    new_txs ← replace_tx (pending_for p address) new_tx
    store_replaced (set_pending_for address) new_txs

  unfoldable pub replace_queued_tx : ℕ → OrderedTransaction → M Data Bool
  replace_queued_tx address new_tx = do
    p ← get_state
    new_txs ← replace_tx (queued_for p address) new_tx
    store_replaced (set_queued_for address) new_txs

  -- The part of `_addPendingTransaction` under `if (!replaced)`.
  unfoldable pub append_pending : ℕ → SerializedTransaction Data → M Data (Unit {0})
  append_pending address tx = do
    p ← get_state
    (new_pending, new_queued) ← lift (
        reorganize ext (nonce_in ext) (get_or_empty (pending_for p address) ++ tx ∷ [])
          (get_or_empty (queued_for p address)))
    modify (set_pending_for address new_pending)
    modify (set_queued_for address new_queued)

  unfoldable pub append_queued : ℕ → SerializedTransaction Data → M Data (Unit {0})
  append_queued address tx = do
    p ← get_state
    modify (set_queued_for address (get_or_empty (queued_for p address) ++ tx ∷ []))

  unfoldable pub add_pending_transaction : TypedTransaction → M Data (Unit {0})
  add_pending_transaction tx = do
    order_id ← take_order_id
    let ordered_tx : OrderedTransaction = record { order_id = order_id; tx = tx }
    let serialized_tx = serialize_transaction ext ordered_tx
    sender ← raw_sender_address ext tx
    replaced ← replace_pending_tx sender ordered_tx
    if replaced then return tt else append_pending sender serialized_tx
    modify (set_transaction_by_hash tx.hash serialized_tx)

  unfoldable pub add_queued_transaction : TypedTransaction → M Data (Unit {0})
  add_queued_transaction tx = do
    order_id ← take_order_id
    let ordered_tx : OrderedTransaction = record { order_id = order_id; tx = tx }
    let serialized_tx = serialize_transaction ext ordered_tx
    sender ← raw_sender_address ext tx
    replaced ← replace_queued_tx sender ordered_tx
    if replaced then return tt else append_queued sender serialized_tx
    modify (set_transaction_by_hash tx.hash serialized_tx)

  unfoldable pub add_transaction : (ℕ → Option Account) → TypedTransaction → M Data (Unit {0})
  add_transaction accounts tx = do
    sender ← get_sender_address ext tx
    p ← get_state
    validate_transaction accounts tx sender (nonce_of (accounts sender))
    if ltb (next_pending_nonce ext accounts p sender) tx.nonce
        then add_queued_transaction tx
        else add_pending_transaction tx
