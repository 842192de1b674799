-- ===== src/TransactionQueue/First.antt =====
-- What the queue hands out comes first, in the order that it was made for, of all that it could
-- have handed out.
use polkahat.Prelude.{
  ℕ, ◌≤◌, ◌≡◌, ◌⊎◌, refl, subst, sym, ◌∙◌, inl, inr, Bool-cases, Option-cases, List, [], ◌∷◌,
  Option, none, some, All, All-map, any, ◌==◌, ◌&&◌, arith,
}
use polkahat.Prelude.Int.{ltb_ℤ, eq_of_parts, ℤ, pos, sub_ℕ, ◌≤ℤ◌}
use polkahat.Prelude.Outcome.{ok}
use polkahat.BigInt.{min_ℤ}
use polkahat.Map
use polkahat.Transaction.{OrderedTransaction, max_fee_of, priority_fee_of, sender_of}
use polkahat.TransactionQueue.{
  Heap, IsOrder, MempoolOrder, priority, fifo, other, TransactionQueue, is_undefined,
  get_effective_miner_fee, effective_miner_fee_comparator, order_comparator,
  ordered_transaction_comparator, enqueue_all, new_queue, refill, pop_next,
  move_first_enqueued_transaction_to_heap, get_next_transaction, remove_last_sender_transactions,
}
use polkahat.TransactionQueue.Order.{
  effective_miner_fee_comparator-IsOrder, order_comparator-IsOrder,
  effective_miner_fee_comparator-ComesBefore,
}
use polkahat.TransactionQueue.Start.{Entry}

-- What the miner gets of each unit of gas: the maximal fee where there is no base fee; else the
-- lesser of the priority fee and of what the base fee leaves of the maximal fee.
abbrev pub IsMinerFee : Option ℕ → OrderedTransaction → ℤ → Type 0
IsMinerFee none o f = f ≡ pos (max_fee_of o.tx.fees)
IsMinerFee (some base_fee) o f =
    (f ≤ℤ pos (priority_fee_of o.tx.fees))
    × (f ≤ℤ sub_ℕ (max_fee_of o.tx.fees) base_fee)
    × ((f ≡ pos (priority_fee_of o.tx.fees)) ⊎ (f ≡ sub_ℕ (max_fee_of o.tx.fees) base_fee))

lesser_unique : (x y f : ℤ) → (f ≤ℤ x) → (f ≤ℤ y) → (f ≡ x) ⊎ (f ≡ y) → f ≡ min_ℤ x y
unfolding min_ℤ
lesser_unique x y f le_x le_y e = elim (Bool-cases (ltb_ℤ x y)) [
  | inl less ↦ elim e [
    | inl at_x ↦ rw less at_x
    | inr at_y ↦ absurd (let h = rw at_y at le_x in ground (arith, h, less))
  ]
  | inr not_less ↦ elim e [
    | inl at_x ↦
        rw not_less
          (eq_of_parts f y (let h = rw at_x at le_y in rw at_x (ground (arith, h, not_less))))
    | inr at_y ↦ rw not_less at_y
  ]
]

unique_miner_fee :
    (base_fee : Option ℕ) (o : OrderedTransaction) (f : ℤ)
    → IsMinerFee base_fee o f
    → f ≡ get_effective_miner_fee o base_fee
unfolding get_effective_miner_fee
unique_miner_fee none o f e = e
unique_miner_fee (some b) o f (p, m, e) =
    lesser_unique (pos (priority_fee_of o.tx.fees)) (sub_ℕ (max_fee_of o.tx.fees) b) f p m e

-- In priority order a transaction pays the miner more, or as much and came no later; in fifo order
-- it came no later. There is no other order.
abbrev pub IsFirst : MempoolOrder → Option ℕ → OrderedTransaction → OrderedTransaction → Type 0
IsFirst priority base_fee x y =
    (f g : ℤ)
    → IsMinerFee base_fee x f
    → IsMinerFee base_fee y g
    → (¬ (f ≤ℤ g)) ⊎ ((f ≡ g) × (x.order_id ≤ y.order_id))
IsFirst fifo base_fee x y = x.order_id ≤ y.order_id
IsFirst other base_fee x y = ⊥

-- Both calls of a queue, one after the other.
pub data Call : Type 0 where
  next remove_last : Call

enqueue_all-comparator :
    (base_fee : Option ℕ) (entries : List Entry) (q r : TransactionQueue)
    → enqueue_all base_fee entries q ≡ ok r
    → r.comparator ≡ q.comparator
unfolding enqueue_all
enqueue_all-comparator base_fee [] q r e = ground arith
enqueue_all-comparator base_fee ((a, (first, rest)) ∷ entries) q r e =
    elim (Bool-cases (is_undefined base_fee && any (λ o. o.tx.tx_type == 2) (first ∷ rest))) [
      | inl bad ↦ absurd (ground arith)
      | inr fine ↦
          enqueue_all-comparator base_fee entries
            (record q {
              heap = first ∷ q.heap;
              queued_transactions = Map.put a rest q.queued_transactions;
            })
            r (ground arith)
    ]

refill-comparator :
    (last : Option ℕ) (q : TransactionQueue) → (refill last q).comparator ≡ q.comparator
unfolding move_first_enqueued_transaction_to_heap
refill-comparator none q = refl
refill-comparator (some sender) q = ground arith

remove_last-comparator :
    (q : TransactionQueue) → (remove_last_sender_transactions q).1.comparator ≡ q.comparator
unfolding remove_last_sender_transactions
remove_last-comparator q = ground arith

module _ (lib : Heap) where
  -- The queue after the calls, whatever they answered.
  abbrev pub after : List Call → TransactionQueue → TransactionQueue
  after [] q = q
  after (next ∷ calls) q = after calls (get_next_transaction lib q).1
  after (remove_last ∷ calls) q = after calls (remove_last_sender_transactions q).1

  pop_next-comparator : (q : TransactionQueue) → (pop_next lib q).1.comparator ≡ q.comparator
  unfolding pop_next
  pop_next-comparator q = elim (Option-cases (lib.pop q.comparator q.heap)) [
    | inl nothing ↦ rw (nothing, pop_next) refl
    | inr ((x, rest), found) ↦ elim (Option-cases (sender_of x.tx.origin)) [
      | inl unknown ↦ rw (found, unknown, pop_next) refl
      | inr (t, from) ↦ rw (found, from, pop_next) refl
    ]
  ]

  after-comparator :
      (calls : List Call) (q : TransactionQueue) → (after calls q).comparator ≡ q.comparator
  unfolding get_next_transaction
  after-comparator [] q = refl
  after-comparator (next ∷ calls) q =
      after-comparator calls (get_next_transaction lib q).1
      ∙ pop_next-comparator (refill q.last_transaction_sender q)
      ∙ refill-comparator q.last_transaction_sender q
  after-comparator (remove_last ∷ calls) q =
      after-comparator calls (remove_last_sender_transactions q).1 ∙ remove_last-comparator q

  pop_next_first :
      (q r : TransactionQueue) (o : OrderedTransaction)
      → IsOrder q.comparator
      → pop_next lib q ≡ (ok (some o), r)
      → All (λ y. q.comparator o y ≤ℤ pos 0) r.heap
  unfolding pop_next
  pop_next_first q r o order e = elim (Option-cases (lib.pop q.comparator q.heap)) [
    | inl nothing ↦ absurd (ground arith)
    | inr ((x, rest), found) ↦ elim (Option-cases (sender_of x.tx.origin)) [
      | inl unknown ↦ absurd (ground arith)
      | inr (t, from) ↦
          let x-o : x ≡ o = ground arith in
          let same : rest ≡ r.heap = ground arith in
          subst (λ h. All (λ y. q.comparator o y ≤ℤ pos 0) h) same
            (subst (λ z. All (λ y. q.comparator z y ≤ℤ pos 0) rest) x-o
              (lib.pop-first q.comparator q.heap x rest order found))
    ]
  ]

  module _ (q r : TransactionQueue) (o : OrderedTransaction)
      (e : get_next_transaction lib q ≡ (ok (some o), r)) where
    served_first :
        (cmp : OrderedTransaction → OrderedTransaction → ℤ)
        → q.comparator ≡ cmp
        → IsOrder cmp
        → All (λ y. cmp o y ≤ℤ pos 0) r.heap
    unfolding get_next_transaction
    served_first cmp same order =
        let kept = refill-comparator q.last_transaction_sender q ∙ same in
        subst (λ c. All (λ y. c o y ≤ℤ pos 0) r.heap) kept
          (pop_next_first (refill q.last_transaction_sender q) r o
            (subst (λ c. IsOrder c) (sym kept) order) e)

  -- Of a queue that the constructor made for an order of the mempool, after any calls, the
  -- transaction that it hands out next comes first in that order of all that are then on the heap:
  -- in priority order it pays the miner more than each of them, or as much and came no later; in
  -- fifo order it came no later.
  pub get_next_transaction-IsFirst :
      (pending : List Entry) (order : MempoolOrder) (base_fee : Option ℕ) (calls : List Call)
      (q r : TransactionQueue) (o : OrderedTransaction)
      → new_queue pending order base_fee ≡ ok q
      → get_next_transaction lib (after calls q) ≡ (ok (some o), r)
      → All (λ y. IsFirst order base_fee o y) r.heap
  unfolding new_queue ordered_transaction_comparator order_comparator
  get_next_transaction-IsFirst pending priority base_fee calls q r o made e =
      All-map _
        (λ y c f g h k.
          rw (unique_miner_fee base_fee o f h, unique_miner_fee base_fee y g k)
            (effective_miner_fee_comparator-ComesBefore base_fee o y c))
        r.heap
        (served_first (after calls q) r o e (effective_miner_fee_comparator base_fee)
          (after-comparator calls q ∙ enqueue_all-comparator base_fee pending _ q made)
          (effective_miner_fee_comparator-IsOrder base_fee))
  get_next_transaction-IsFirst pending fifo base_fee calls q r o made e =
      All-map _ (λ y c. ground arith) r.heap
        (served_first (after calls q) r o e order_comparator
          (after-comparator calls q ∙ enqueue_all-comparator base_fee pending _ q made)
          order_comparator-IsOrder)
  get_next_transaction-IsFirst pending other base_fee calls q r o made e = absurd (cc)
