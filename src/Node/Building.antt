-- ===== src/Node/Building.antt =====
-- provider/node.ts: which transactions go into a block. ethereumjs' VM and its block builder are the
-- parameter `Vm`, a heap is the parameter `Heap`; traces, which only report, are left out.
use polkahat.Prelude.{
  ℕ, zero, suc, ◌+◌, List, [], ◌∷◌, ◌++◌, Bool, true, false, not, ◌&&◌, ◌||◌, Option, none, some,
  ltb, leb, length, if◌then◌else◌, ◌≡◌, ◌≤◌,
}
use polkahat.Prelude.Outcome.{Result, ok, throw}
use polkahat.Transaction.{TypedTransaction, OrderedTransaction, max_fee_of}
use polkahat.TxPool.State.{Account}
use polkahat.TransactionQueue.{
  TransactionQueue, Heap, Error as QueueError, get_next_transaction,
  remove_last_sender_transactions,
}
use polkahat.Blockchain.Data.{Block}
use polkahat.Node.State.{Error, queue_error, transaction_failed, out_of_fuel}

-- The header fields that the node chooses.
pub record HeaderData : Type 0 where
  pub gas_limit : ℕ
  pub coinbase : ℕ
  pub timestamp : ℕ
  pub mix_hash : Option ℕ
  pub parent_beacon_block_root : Option ℕ
  pub base_fee_per_gas : Option ℕ

-- A log as the VM gives it: an address and topics.
abbrev pub RawLog : Type 0
RawLog = ℕ × List ℕ

pub record TxResult : Type 0 where
  pub total_gas_spent : ℕ
  pub logs : List RawLog

pub record Vm : Type 0 where
  pub is_eip1559_active : Bool
  pub is_post_merge : Bool
  pub is_post_cancun : Bool
  pub minimal_transaction_fee : ℕ
  pub keccak256 : ℕ → ℕ
  pub calc_next_base_fee : Block → ℕ
  -- What the state with a root says of an account.
  pub account_at : ℕ → ℕ → Option Account
  -- Writing an account's nonce and balance: the new root.
  pub put_account : ℕ → ℕ → Account → ℕ
  -- The gas and the logs of a transaction that runs behind others, if it can be added.
  pub run_transaction :
      Block → HeaderData → List TypedTransaction → TypedTransaction → Option TxResult
  -- A transaction spends at most its gas limit.
  pub run_transaction-gas :
      (parent : Block) (h : HeaderData) (txs : List TypedTransaction) (tx : TypedTransaction)
      (result : TxResult)
      → run_transaction parent h txs tx ≡ some result
      → result.total_gas_spent ≤ tx.gas_limit
  pub build : Block → HeaderData → List TypedTransaction → Block
  pub build-number :
      (parent : Block) (h : HeaderData) (txs : List TypedTransaction)
      → (build parent h txs).number ≡ parent.number + 1
  pub build-timestamp :
      (parent : Block) (h : HeaderData) (txs : List TypedTransaction)
      → (build parent h txs).timestamp ≡ h.timestamp
  pub build-transactions :
      (parent : Block) (h : HeaderData) (txs : List TypedTransaction)
      → (build parent h txs).transactions ≡ txs

-- A block builder: what was added, the gas it used, and the result of each transaction.
pub record BlockBuilder : Type 0 where
  pub transactions : List TypedTransaction
  pub gas_used : ℕ
  pub results : List TxResult

pub record MinedBlock : Type 0 where
  pub block : Block
  pub results : List TxResult

abbrev pub first_and_rest :
    List (ℕ × List OrderedTransaction) → List (ℕ × (OrderedTransaction × List OrderedTransaction))
first_and_rest [] = []
first_and_rest ((a, []) ∷ m) = first_and_rest m
first_and_rest ((a, o ∷ os) ∷ m) = (a, (o, os)) ∷ first_and_rest m

abbrev pub count_all : List (ℕ × List OrderedTransaction) → ℕ
count_all [] = 0
count_all ((a, os) ∷ m) = length os + count_all m

abbrev pub can_pay : Option ℕ → ℕ → Bool
can_pay none fee = true
can_pay (some base_fee) fee = leb base_fee fee

unfoldable pub is_tx_minable : ℕ → Option ℕ → TypedTransaction → Bool
is_tx_minable min_gas_price base_fee tx =
    can_pay base_fee (max_fee_of tx.fees) && leb min_gas_price (max_fee_of tx.fees)

abbrev pub after_result :
    {A B : Type 0}
    → (A → TransactionQueue → Result Error B)
    → Result QueueError A × TransactionQueue
    → Result Error B
after_result f (ok a, q) = f a q
after_result f (throw e, q) = throw (queue_error e)

abbrev pub and_then : {A B : Type 0} → Result Error A → (A → Result Error B) → Result Error B
and_then (ok a) f = f a
and_then (throw e) f = throw e

module _ (vm : Vm) (heap : Heap) (parent : Block) (header : HeaderData) (min_gas_price : ℕ) where
  -- `blockBuilder.addTransaction(tx)`
  unfoldable pub build_transaction : TypedTransaction → BlockBuilder → Result Error BlockBuilder
  build_transaction tx b = elim (vm.run_transaction parent header b.transactions tx) [
    | none ↦ throw transaction_failed
    | some result ↦ ok (record {
      transactions = b.transactions ++ tx ∷ [];
      gas_used = b.gas_used + result.total_gas_spent;
      results = b.results ++ result ∷ [];
    })
  ]

  -- Whether the loop goes on with a transaction, and whether it is left out.
  abbrev pub has_room : BlockBuilder → Bool
  has_room b = leb (b.gas_used + vm.minimal_transaction_fee) header.gas_limit

  abbrev pub is_left_out : TypedTransaction → BlockBuilder → Bool
  is_left_out tx b =
      not (is_tx_minable min_gas_price header.base_fee_per_gas tx)
      || ltb header.gas_limit (b.gas_used + tx.gas_limit)

  -- The rest of a round, given the transaction of the round; then the next one is fetched.
  unfoldable pub handle :
      TypedTransaction
      → BlockBuilder
      → TransactionQueue
      → Result Error (BlockBuilder × TransactionQueue)
  unfolding build_transaction is_tx_minable
  handle tx b q =
      if is_left_out tx b
      then after_result (λ u q'. ok (b, q')) (remove_last_sender_transactions q)
      else and_then (build_transaction tx b) (λ b'. ok (b', q))

  -- The loop. Each round takes a transaction out of the queue, so that the number of pending
  -- transactions and one more is enough fuel.
  unfoldable pub fill_block :
      ℕ → BlockBuilder → Option OrderedTransaction → TransactionQueue → Result Error BlockBuilder
  unfolding handle
  fill_block zero b tx q = throw out_of_fuel
  fill_block (suc fuel) b none q = ok b
  fill_block (suc fuel) b (some o) q = elim (has_room b) [
    | false ↦ ok b
    | true ↦
        and_then (handle o.tx b q)
          (λ r. after_result (fill_block fuel r.0) (get_next_transaction heap r.1))
  ]
