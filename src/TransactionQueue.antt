-- ===== src/TransactionQueue.antt =====
-- provider/TransactionQueue.ts: the order in which pending transactions are offered to a block.
-- mnemonist's heap is the parameter `Heap`; what it holds is the list of what was pushed and not
-- yet popped. The constructor is given senders with at least one transaction (a first one and the
-- rest), as `getPendingTransactions` gives them.
pub mod Order
pub mod First
pub mod Next
pub mod Start
use mathlib.Core.List.{Permᴰ}
use polkahat.Prelude.{
  ℕ, ◌≡◌, ◌⊎◌, List, [], ◌∷◌, Bool, true, false, Option, none, some, any, All, ◌==◌, ◌&&◌, ◌||◌,
  if◌then◌else◌,
}
use polkahat.Prelude.Int.{ℤ, pos, sub_ℕ, ◌≤ℤ◌, ltb_ℤ}
use polkahat.Prelude.Outcome.{Result, ok, throw}
use polkahat.Map
use polkahat.BigInt.{min_ℤ, cmp_ℤ}
use polkahat.Transaction.{
  OrderedTransaction, TypedTransaction, max_fee_of, priority_fee_of, sender_of,
}

-- A comparator that a heap can work with.
pub record IsOrder {A : Type 0} (cmp : A → A → ℤ) : Type 0 where
  pub total : (x y : A) → (cmp x y ≤ℤ pos 0) ⊎ (cmp y x ≤ℤ pos 0)
  pub transitive : (x y z : A) → cmp x y ≤ℤ pos 0 → cmp y z ≤ℤ pos 0 → cmp x z ≤ℤ pos 0

-- `pop` takes out an element that comes first, and answers nothing only when nothing is left.
pub record Heap : Type 0 where
  pub pop :
      (OrderedTransaction → OrderedTransaction → ℤ)
      → List OrderedTransaction
      → Option (OrderedTransaction × List OrderedTransaction)
  pub pop-none :
      (cmp : OrderedTransaction → OrderedTransaction → ℤ) (h : List OrderedTransaction)
      → pop cmp h ≡ none
      → h ≡ []
  pub pop-perm :
      (cmp : OrderedTransaction → OrderedTransaction → ℤ) (h : List OrderedTransaction)
      (x : OrderedTransaction) (rest : List OrderedTransaction)
      → pop cmp h ≡ some (x, rest)
      → Permᴰ h (x ∷ rest)
  pub pop-first :
      (cmp : OrderedTransaction → OrderedTransaction → ℤ) (h : List OrderedTransaction)
      (x : OrderedTransaction) (rest : List OrderedTransaction)
      → IsOrder cmp
      → pop cmp h ≡ some (x, rest)
      → All (λ y. cmp x y ≤ℤ pos 0) rest

pub data MempoolOrder : Type 0 where
  priority fifo other : MempoolOrder

pub data Error : Type 0 where
  invalid_mempool_order eip1559_without_base_fee called_before_next library_error : Error

unfoldable pub get_effective_miner_fee : OrderedTransaction → Option ℕ → ℤ
unfolding min_ℤ
get_effective_miner_fee o none = pos (max_fee_of o.tx.fees)
get_effective_miner_fee o (some base_fee) =
    min_ℤ (pos (priority_fee_of o.tx.fees)) (sub_ℕ (max_fee_of o.tx.fees) base_fee)

abbrev pub is_zero : ℤ → Bool
is_zero (pos n) = n == 0
is_zero n = false

-- By falling fee, and by rising order id where the fees are equal.
unfoldable pub effective_miner_fee_comparator :
    Option ℕ → OrderedTransaction → OrderedTransaction → ℤ
unfolding get_effective_miner_fee cmp_ℤ
effective_miner_fee_comparator base_fee left right =
    let cmp =
      cmp_ℤ (get_effective_miner_fee right base_fee) (get_effective_miner_fee left base_fee) in
    if is_zero cmp then sub_ℕ left.order_id right.order_id else cmp

unfoldable pub order_comparator : OrderedTransaction → OrderedTransaction → ℤ
order_comparator left right = sub_ℕ left.order_id right.order_id

unfoldable pub ordered_transaction_comparator :
    MempoolOrder → Option ℕ → Result Error (OrderedTransaction → OrderedTransaction → ℤ)
ordered_transaction_comparator priority base_fee = ok (effective_miner_fee_comparator base_fee)
ordered_transaction_comparator fifo base_fee = ok order_comparator
ordered_transaction_comparator other base_fee = throw invalid_mempool_order

pub record TransactionQueue : Type 0 where
  pub queued_transactions : List (ℕ × List OrderedTransaction)
  pub heap : List OrderedTransaction
  pub comparator : OrderedTransaction → OrderedTransaction → ℤ
  pub last_transaction_sender : Option ℕ

abbrev is_undefined : Option ℕ → Bool
is_undefined none = true
is_undefined (some b) = false

-- The loop of the constructor.
unfoldable pub enqueue_all :
    Option ℕ
    → List (ℕ × (OrderedTransaction × List OrderedTransaction))
    → TransactionQueue
    → Result Error TransactionQueue
enqueue_all base_fee [] q = ok q
enqueue_all base_fee ((address, (first_tx, remaining_txs)) ∷ entries) q =
    let rest = enqueue_all base_fee entries (record q {
      heap = first_tx ∷ q.heap;
      queued_transactions = Map.put address remaining_txs q.queued_transactions;
    }) in
    if is_undefined base_fee && any (λ o. o.tx.tx_type == 2) (first_tx ∷ remaining_txs)
    then throw eip1559_without_base_fee
    else rest

abbrev and_then {ℓ κ} :
    {A : Type ℓ} {B : Type κ} → Result Error A → (A → Result Error B) → Result Error B
and_then (ok a) f = f a
and_then (throw e) f = throw e

unfoldable pub new_queue :
    List (ℕ × (OrderedTransaction × List OrderedTransaction))
    → MempoolOrder
    → Option ℕ
    → Result Error TransactionQueue
unfolding ordered_transaction_comparator enqueue_all
new_queue pending order base_fee = and_then (ordered_transaction_comparator order base_fee) λ cmp.
    enqueue_all base_fee pending (record {
      queued_transactions = [];
      heap = [];
      comparator = cmp;
      last_transaction_sender = none;
    })

unfoldable pub move_first_enqueued_transaction_to_heap : ℕ → TransactionQueue → TransactionQueue
move_first_enqueued_transaction_to_heap sender q = elim (Map.get sender q.queued_transactions) [
  | none ↦ q
  | some [] ↦ q
  | some (first ∷ rest) ↦ record q {
    heap = first ∷ q.heap;
    queued_transactions = Map.put sender rest q.queued_transactions;
  }
]

-- The first statement of `getNextTransaction`.
abbrev pub refill : Option ℕ → TransactionQueue → TransactionQueue
refill none q = q
refill (some sender) q = move_first_enqueued_transaction_to_heap sender q

module _ (lib : Heap) where
  -- What follows: the pop, and the note of the sender.
  unfoldable pub pop_next :
      TransactionQueue → Result Error (Option OrderedTransaction) × TransactionQueue
  pop_next q = elim (lib.pop q.comparator q.heap) [
    | none ↦ (ok none, q)
    | some (next_tx, rest) ↦ elim (sender_of next_tx.tx.origin) [
      | none ↦ (throw library_error, record q { heap = rest })
      | some sender ↦
          (ok (some next_tx), record q { heap = rest; last_transaction_sender = some sender })
    ]
  ]

  -- The source returns the transaction itself, here still with its order id.
  unfoldable pub get_next_transaction :
      TransactionQueue → Result Error (Option OrderedTransaction) × TransactionQueue
  unfolding move_first_enqueued_transaction_to_heap
  get_next_transaction q = pop_next (refill q.last_transaction_sender q)

unfoldable pub remove_last_sender_transactions :
    TransactionQueue → Result Error (Unit {0}) × TransactionQueue
remove_last_sender_transactions q = elim q.last_transaction_sender [
  | none ↦ (throw called_before_next, q)
  | some sender ↦ (
    ok tt,
    record q {
      queued_transactions = Map.delete sender q.queued_transactions;
      last_transaction_sender = none;
    },
  )
]
