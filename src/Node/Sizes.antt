-- ===== src/Node/Sizes.antt =====
-- The transactions that a queue still holds: each call of getNextTransaction takes one out.
use mathlib.Core.List.{Permᴰ}
use polkahat.Prelude.{
  ℕ, suc, ◌+◌, ◌≤◌, ◌≡◌, refl, ap, ◌∙◌, inl, inr, List, [], ◌∷◌, Bool, true, false, Option, none,
  some, length, ◌==◌, if◌then◌else◌, arith, Bool-cases, Option-cases,
}
use polkahat.Prelude.Outcome.{Result, ok, throw}
use polkahat.Map
use polkahat.Transaction.{OrderedTransaction, sender_of}
use polkahat.TransactionQueue.{
  TransactionQueue, Heap, Error as QueueError, move_first_enqueued_transaction_to_heap, refill,
  pop_next, get_next_transaction, enqueue_all, new_queue, ordered_transaction_comparator,
  eip1559_without_base_fee, MempoolOrder, priority, fifo, other,
}
use polkahat.Node.Building.{count_all, first_and_rest}

length-Permᴰ : {A : Type 0} {xs ys : List A} → Permᴰ xs ys → length xs ≡ length ys
length-Permᴰ Permᴰ.nil = refl
length-Permᴰ (Permᴰ.cons e d) = ap suc (length-Permᴰ d)
length-Permᴰ (Permᴰ.swap e f) = refl
length-Permᴰ (Permᴰ.trans c d) = length-Permᴰ c ∙ length-Permᴰ d

count_all-put :
    (k : ℕ) (v old : List OrderedTransaction) (m : List (ℕ × List OrderedTransaction))
    → Map.get k m ≡ some old
    → count_all (Map.put k v m) + length old ≡ count_all m + length v
unfolding Map.get Map.put
count_all-put k v old [] e = absurd (cc)
count_all-put k v old ((j, w) ∷ m) e = elim (Bool-cases (j == k)) [
  | inl here ↦ let same : w ≡ old = ground arith in rw (here, ← same) (omega arith)
  | inr there ↦ rw there (omega (arith, count_all-put k v old m (ground arith)))
]

pub count_all-put_bound :
    (k : ℕ) (v : List OrderedTransaction) (m : List (ℕ × List OrderedTransaction))
    → count_all (Map.put k v m) ≤ count_all m + length v
unfolding Map.put
count_all-put_bound k v [] = omega arith
count_all-put_bound k v ((j, w) ∷ m) = ground (arith, count_all-put_bound k v m)

pub count_all-delete :
    (k : ℕ) (m : List (ℕ × List OrderedTransaction)) → count_all (Map.delete k m) ≤ count_all m
unfolding Map.delete
count_all-delete k [] = omega arith
count_all-delete k ((j, w) ∷ m) = ground (arith, count_all-delete k m)

-- The transactions that a queue still holds.
abbrev pub size : TransactionQueue → ℕ
size q = length q.heap + count_all q.queued_transactions

move_first-size :
    (s : ℕ) (q : TransactionQueue) (waiting : Option (List OrderedTransaction))
    → Map.get s q.queued_transactions ≡ waiting
    → size (move_first_enqueued_transaction_to_heap s q) ≡ size q
unfolding move_first_enqueued_transaction_to_heap
move_first-size s q none e = rw (e, move_first_enqueued_transaction_to_heap) refl
move_first-size s q (some []) e = rw (e, move_first_enqueued_transaction_to_heap) refl
move_first-size s q (some (o ∷ os)) e =
    rw (e, move_first_enqueued_transaction_to_heap)
      (omega (arith, count_all-put s os (o ∷ os) q.queued_transactions e))

refill-size : (last : Option ℕ) (q : TransactionQueue) → size (refill last q) ≡ size q
refill-size none q = refl
refill-size (some s) q = move_first-size s q _ refl

module _ (lib : Heap) where
  -- What is handed out has left the queue.
  abbrev pub Shrinks :
      TransactionQueue → Result QueueError (Option OrderedTransaction) × TransactionQueue → Type 0
  Shrinks q (ok (some o), q') = size q' + 1 ≤ size q
  Shrinks q (ok none, q') = Unit {0}
  Shrinks q (throw e, q') = Unit {0}

  pop_next-Shrinks : (q : TransactionQueue) → Shrinks q (pop_next lib q)
  unfolding pop_next
  pop_next-Shrinks q = elim (Option-cases (lib.pop q.comparator q.heap)) [
    | inl e ↦ rw (e, pop_next) tt
    | inr ((o, rest), e) ↦ elim (Option-cases (sender_of o.tx.origin)) [
      | inl u ↦ rw (e, u, pop_next) tt
      | inr (s, u) ↦
          rw (e, u, pop_next)
            (omega (arith, length-Permᴰ (lib.pop-perm q.comparator q.heap o rest e)))
    ]
  ]

  Shrinks-size :
      (p q : TransactionQueue)
      (r : Result QueueError (Option OrderedTransaction) × TransactionQueue)
      → size p ≡ size q
      → Shrinks p r
      → Shrinks q r
  Shrinks-size p q (ok (some o), q') e h = omega (arith, e, h)
  Shrinks-size p q (ok none, q') e h = tt
  Shrinks-size p q (throw x, q') e h = tt

  pub get_next_transaction-Shrinks : (q : TransactionQueue) → Shrinks q (get_next_transaction lib q)
  unfolding get_next_transaction
  get_next_transaction-Shrinks q =
      Shrinks-size (refill q.last_transaction_sender q) q _
        (refill-size q.last_transaction_sender q)
        (pop_next-Shrinks (refill q.last_transaction_sender q))

abbrev Entry : Type 0
Entry = ℕ × (OrderedTransaction × List OrderedTransaction)

abbrev count_entries : List Entry → ℕ
count_entries [] = 0
count_entries ((a, (o, os)) ∷ m) = suc (length os) + count_entries m

count_entries-first_and_rest :
    (m : List (ℕ × List OrderedTransaction)) → count_entries (first_and_rest m) ≡ count_all m
count_entries-first_and_rest [] = refl
count_entries-first_and_rest ((a, []) ∷ m) = omega (arith, count_entries-first_and_rest m)
count_entries-first_and_rest ((a, o ∷ os) ∷ m) = omega (arith, count_entries-first_and_rest m)

-- A new queue, or an error of the constructor.
abbrev pub Queued : ℕ → Result QueueError TransactionQueue → Type 0
Queued n (ok q) = size q ≤ n
Queued n (throw e) = Unit {0}

Queued-more : (m n : ℕ) (r : Result QueueError TransactionQueue) → m ≤ n → Queued m r → Queued n r
Queued-more m n (ok q) b h = omega arith
Queued-more m n (throw e) b h = tt

enqueue_all-Queued :
    (base_fee : Option ℕ) (entries : List Entry) (q : TransactionQueue)
    → Queued (count_entries entries + size q) (enqueue_all base_fee entries q)
unfolding enqueue_all
enqueue_all-Queued base_fee [] q = omega arith
enqueue_all-Queued base_fee ((a, (o, os)) ∷ entries) q = if_Queued _ _ _ (
    Queued-more _ _ _ (omega (arith, count_all-put_bound a os q.queued_transactions))
      (enqueue_all-Queued base_fee entries _))
  where
    if_Queued :
        (n : ℕ) (refused : Bool) (r : Result QueueError TransactionQueue)
        → Queued n r
        → Queued n (if refused then throw eip1559_without_base_fee else r)
    if_Queued n true r h = tt
    if_Queued n false r h = h

-- The constructor holds the transactions that it is given.
pub new_queue-Queued :
    (pending : List (ℕ × List OrderedTransaction)) (order : MempoolOrder) (base_fee : Option ℕ)
    → Queued (count_all pending) (new_queue (first_and_rest pending) order base_fee)
unfolding new_queue ordered_transaction_comparator
new_queue-Queued pending priority base_fee =
    Queued-more _ _ _ (omega (arith, count_entries-first_and_rest pending))
      (enqueue_all-Queued base_fee (first_and_rest pending) _)
new_queue-Queued pending fifo base_fee =
    Queued-more _ _ _ (omega (arith, count_entries-first_and_rest pending))
      (enqueue_all-Queued base_fee (first_and_rest pending) _)
new_queue-Queued pending other base_fee = tt
