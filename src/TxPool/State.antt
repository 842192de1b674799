-- ===== src/TxPool/State.antt =====
-- The state of the pool (provider/PoolState.ts, and the fields of `TxPool`), its accessors, its
-- queries and its snapshots. A block gas limit is kept as hex text in the source, and as the number
-- here. `accounts` is what the state manager answers at the time of a call.
use polkahat.Prelude.{
  ℕ, ◌+◌, List, [], ◌∷◌, map, Bool, true, false, not, ◌||◌, Option, none, some, any, get_last?, leb,
  if◌then◌else◌,
}
use polkahat.Prelude.Outcome.{Method, Result, ok, throw}
use mathlib.Core.List.{flatten}
use polkahat.Map
use polkahat.Map.{Map}
use polkahat.Transaction.{
  TypedTransaction, OrderedTransaction, SerializedTransaction, Externals, sender_of, Origin,
  unverified, fake, recovered, deserialize_transaction,
}

-- The classes and texts of what the pool throws.
pub data Error : Type 0 where
  invalid_signature sender_error library_error : Error
  known_transaction creation_without_data not_enough_funds nonce_too_low : Error
  gas_below_base_fee gas_above_block_limit : Error
  underpriced_max_fee underpriced_priority_fee : Error
  pending_empty not_in_lists no_snapshot missing_list : Error

pub record Account : Type 0 where
  pub nonce : ℕ
  pub balance : ℕ

module _ (Data : Type 0) where
  abbrev pub SenderTransactions : Type 0
  SenderTransactions = List (SerializedTransaction Data)

  pub record PoolState : Type 0 where
    pub pending_transactions : List (ℕ × List (SerializedTransaction Data))
    pub queued_transactions : List (ℕ × List (SerializedTransaction Data))
    pub hash_to_transaction : List (ℕ × SerializedTransaction Data)
    pub block_gas_limit : ℕ

pub record TxPool (Data : Type 0) : Type 0 where
  pub state : PoolState Data
  pub snapshots : List (ℕ × PoolState Data)
  pub next_snapshot_id : ℕ
  pub next_order_id : ℕ

abbrev pub M : Type 0 → Type 0 → Type 0
M Data A = Method Error (TxPool Data) A

abbrev pub get_or_empty {ℓ} : {A : Type ℓ} → Option (List A) → List A
get_or_empty none = []
get_or_empty (some xs) = xs

abbrev pub nonce_of : Option Account → ℕ
nonce_of none = 0
nonce_of (some a) = a.nonce

abbrev pub balance_of : Option Account → ℕ
balance_of none = 0
balance_of (some a) = a.balance

-- The try and catch around `getSenderAddress`.
abbrev pub sender_or_throw : Origin → Result Error ℕ
sender_or_throw (fake a) = ok a
sender_or_throw (recovered a) = ok a
sender_or_throw (unverified true) = throw sender_error
sender_or_throw (unverified false) = throw invalid_signature

-- The constructor.
unfoldable pub new_pool : {Data : Type 0} → ℕ → TxPool Data
new_pool block_gas_limit = record {
  state = record {
    pending_transactions = [];
    queued_transactions = [];
    hash_to_transaction = [];
    block_gas_limit = block_gas_limit;
  };
  snapshots = [];
  next_snapshot_id = 0;
  next_order_id = 0;
}

module _ {Data : Type 0} where
  abbrev pub pending_for : TxPool Data → ℕ → Option (List (SerializedTransaction Data))
  pending_for p address = Map.get address p.state.pending_transactions

  abbrev pub queued_for : TxPool Data → ℕ → Option (List (SerializedTransaction Data))
  queued_for p address = Map.get address p.state.queued_transactions

  abbrev pub set_state : PoolState Data → TxPool Data → TxPool Data
  set_state s p = record p { state = s }

  abbrev pub set_pending : List (ℕ × List (SerializedTransaction Data)) → TxPool Data → TxPool Data
  set_pending m p = record p { state = record (p.state) { pending_transactions = m } }

  abbrev pub set_queued : List (ℕ × List (SerializedTransaction Data)) → TxPool Data → TxPool Data
  set_queued m p = record p { state = record (p.state) { queued_transactions = m } }

  abbrev pub set_pending_for : ℕ → List (SerializedTransaction Data) → TxPool Data → TxPool Data
  set_pending_for a txs p = set_pending (Map.put a txs p.state.pending_transactions) p

  abbrev pub set_queued_for : ℕ → List (SerializedTransaction Data) → TxPool Data → TxPool Data
  set_queued_for a txs p = set_queued (Map.put a txs p.state.queued_transactions) p

  abbrev pub set_transaction_by_hash : ℕ → SerializedTransaction Data → TxPool Data → TxPool Data
  set_transaction_by_hash h t p = record p {
    state = record (p.state) { hash_to_transaction = Map.put h t p.state.hash_to_transaction };
  }

  abbrev pub delete_transaction_by_hash : ℕ → TxPool Data → TxPool Data
  delete_transaction_by_hash h p = record p {
    state = record (p.state) { hash_to_transaction = Map.delete h p.state.hash_to_transaction };
  }

  -- `this._nextOrderId++`
  abbrev pub take_order_id : M Data ℕ
  take_order_id p = (ok p.next_order_id, record p { next_order_id = p.next_order_id + 1 })

  unfoldable pub set_block_gas_limit : ℕ → TxPool Data → TxPool Data
  set_block_gas_limit limit p = record p { state = record (p.state) { block_gas_limit = limit } }

  abbrev pub is_empty_list : List (SerializedTransaction Data) → Bool
  is_empty_list [] = true
  is_empty_list (x ∷ xs) = false

  unfoldable pub has_pending_transactions : TxPool Data → Bool
  has_pending_transactions p =
      any (λ txs. not (is_empty_list txs)) (Map.values p.state.pending_transactions)

  unfoldable pub has_queued_transactions : TxPool Data → Bool
  has_queued_transactions p =
      any (λ txs. not (is_empty_list txs)) (Map.values p.state.queued_transactions)

  unfoldable pub is_empty : TxPool Data → Bool
  unfolding has_pending_transactions has_queued_transactions
  is_empty p = not (has_pending_transactions p || has_queued_transactions p)

  unfoldable pub snapshot : M Data ℕ
  snapshot p = (
    ok p.next_snapshot_id,
    record p {
      snapshots = Map.put p.next_snapshot_id p.state p.snapshots;
      next_snapshot_id = p.next_snapshot_id + 1;
    },
  )

  -- Drops the snapshots from `snapshot_id` on.
  unfoldable pub remove_snapshots_after : ℕ → List (ℕ × PoolState Data) → List (ℕ × PoolState Data)
  remove_snapshots_after snapshot_id [] = []
  remove_snapshots_after snapshot_id ((id, s) ∷ m) =
      let rest = remove_snapshots_after snapshot_id m in
      if leb snapshot_id id then rest else (id, s) ∷ rest

  unfoldable pub revert : ℕ → M Data (Unit {0})
  revert snapshot_id p = elim (Map.get snapshot_id p.snapshots) [
    | none ↦ (throw no_snapshot, p)
    | some s ↦
        (ok tt, record p { state = s; snapshots = remove_snapshots_after snapshot_id p.snapshots })
  ]

  abbrev non_empty_entries :
      {B : Type 0}
      → (List (SerializedTransaction Data) → B)
      → List (ℕ × List (SerializedTransaction Data))
      → List (ℕ × B)
  non_empty_entries f [] = []
  non_empty_entries f ((a, txs) ∷ m) =
      let rest = non_empty_entries f m in if is_empty_list txs then rest else (a, f txs) ∷ rest

module _ {Data : Type 0} (ext : Externals Data) where
  unfoldable pub get_transaction_by_hash : ℕ → TxPool Data → Option OrderedTransaction
  get_transaction_by_hash h p = elim (Map.get h p.state.hash_to_transaction) [
    | none ↦ none
    | some s ↦ some (deserialize_transaction ext s)
  ]

  unfoldable pub get_pending_transactions : TxPool Data → List (ℕ × List OrderedTransaction)
  get_pending_transactions p =
      non_empty_entries (map (deserialize_transaction ext))
        (ext.entries p.state.pending_transactions)

  unfoldable pub get_queued_transactions : TxPool Data → List (ℕ × List OrderedTransaction)
  get_queued_transactions p =
      non_empty_entries (map (deserialize_transaction ext))
        (ext.entries p.state.queued_transactions)

  abbrev pub nonce_in : SerializedTransaction Data → ℕ
  nonce_in s = (deserialize_transaction ext s).tx.nonce

  -- The nonce after the last pending one; with nothing pending, the account's.
  unfoldable pub next_pending_nonce : (ℕ → Option Account) → TxPool Data → ℕ → ℕ
  next_pending_nonce accounts p address = elim (get_last? (get_or_empty (pending_for p address))) [
    | none ↦ nonce_of (accounts address)
    | some last ↦ nonce_in last + 1
  ]

  unfoldable pub get_sender_address : TypedTransaction → M Data ℕ
  get_sender_address tx p = (sender_or_throw tx.origin, p)

  -- `getSenderAddress` with no catch.
  unfoldable pub raw_sender_address : TypedTransaction → M Data ℕ
  raw_sender_address tx p = elim (sender_of tx.origin) [
    | none ↦ (throw library_error, p)
    | some a ↦ (ok a, p)
  ]

-- provider/utils/txMapToArray.ts
unfoldable pub tx_map_to_array : List (ℕ × List OrderedTransaction) → List TypedTransaction
tx_map_to_array m = map (λ o. o.tx) (flatten (Map.values m))
