-- ===== src/TransactionQueue/Start.antt =====
-- The constructor of the queue files every sender's transactions.
use polkahat.Prelude.{
  ℕ, ◌+◌, ◌≤◌, ◌≡◌, ◌≢◌, refl, sym, subst, ◌∙◌, List, [], ◌∷◌, true, Option, none, inl, inr, All,
  All-map, any, length, ◌==◌, ==_iff, ==→ne, ◌&&◌, arith, Bool-cases,
}
use polkahat.Prelude.Int.{ℤ}
use polkahat.Prelude.Outcome.{ok}
use polkahat.Map
use polkahat.Map.{get-put_self, get-put_ne}
use polkahat.Transaction.{OrderedTransaction}
use polkahat.TransactionQueue.{
  MempoolOrder, priority, fifo, other, TransactionQueue, enqueue_all, new_queue, is_undefined,
}
use polkahat.TransactionQueue.Next.{
  is_from, own, list_or_empty, remaining, is_last, IsValid, from_other,
}

abbrev pub Entry : Type 0
Entry = ℕ × (OrderedTransaction × List OrderedTransaction)

-- Each entry holds transactions of its sender, and no sender has two.
abbrev pub IsFiled : List Entry → Type 0
IsFiled [] = Unit {0}
IsFiled ((a, (first, rest)) ∷ entries) =
    All (λ o. is_from a o ≡ true) (first ∷ rest) × All (λ e. a ≢ e.0) entries × IsFiled entries

abbrev enqueue :
    ℕ → OrderedTransaction → List OrderedTransaction → TransactionQueue → TransactionQueue
enqueue a first rest q = record q {
  heap = first ∷ q.heap;
  queued_transactions = Map.put a rest q.queued_transactions;
}

module _ (a : ℕ) (first : OrderedTransaction) (rest : List OrderedTransaction)
    (q : TransactionQueue) (mine : All (λ o. is_from a o ≡ true) (first ∷ rest))
    (idle : q.last_transaction_sender ≡ none) (absent : own a q.heap ≡ []) where
  remaining-enqueue_ne : (s : ℕ) → a ≢ s → remaining (enqueue a first rest q) s ≡ remaining q s
  remaining-enqueue_ne s ne =
      rw (from_other s a first mine.0 ne, get-put_ne a s rest q.queued_transactions ne) refl

  remaining-enqueue_self : remaining (enqueue a first rest q) a ≡ first ∷ rest
  remaining-enqueue_self = rw (mine.0, absent, get-put_self a rest q.queued_transactions) refl

  enqueue-IsValid : IsValid q → IsValid (enqueue a first rest q)
  enqueue-IsValid v = record {
    single = λ s. elim (Bool-cases (a == s)) [
      | inl here ↦
          subst (λ s. length (own s (first ∷ q.heap)) + is_last (enqueue a first rest q) s ≤ 1)
            ((==_iff a s).0 here) (rw (mine.0, absent, idle) (omega arith))
      | inr there ↦ rw (from_other s a first mine.0 (==→ne a s there)) (v.single s)
    ];
    filed = λ s. elim (Bool-cases (a == s)) [
      | inl here ↦
          subst
            (λ s.
              All (λ o. is_from s o ≡ true)
                (list_or_empty (Map.get s (Map.put a rest q.queued_transactions))))
            ((==_iff a s).0 here) (rw (get-put_self a rest q.queued_transactions) mine.1)
      | inr there ↦ rw (get-put_ne a s rest q.queued_transactions (==→ne a s there)) (v.filed s)
    ];
  }

  enqueue_fresh :
      (entries : List Entry)
      → All (λ e. a ≢ e.0) entries
      → All (λ e. own e.0 q.heap ≡ []) entries
      → All (λ e. own e.0 (first ∷ q.heap) ≡ []) entries
  enqueue_fresh [] h k = tt
  enqueue_fresh (e ∷ entries) h k =
      (rw (from_other e.0 a first mine.0 h.0) k.0, enqueue_fresh entries h.1 k.1)

-- What the loop of the constructor leaves.
record Enqueued (entries : List Entry) (q q' : TransactionQueue) : Type 0 where
  valid : IsValid q'
  each : All (λ e. remaining q' e.0 ≡ e.1.0 ∷ e.1.1) entries
  others : (s : ℕ) → All (λ e. e.0 ≢ s) entries → remaining q' s ≡ remaining q s

enqueue_all_lem :
    (base_fee : Option ℕ) (entries : List Entry) (q q' : TransactionQueue)
    → IsFiled entries
    → q.last_transaction_sender ≡ none
    → All (λ e. own e.0 q.heap ≡ []) entries
    → IsValid q
    → enqueue_all base_fee entries q ≡ ok q'
    → Enqueued entries q q'
unfolding enqueue_all
enqueue_all_lem base_fee [] q q' filed idle fresh v e =
    let same : q ≡ q' = cc in
    subst (λ r. Enqueued [] q r) same (record { valid = v; each = tt; others = λ s _. refl })
enqueue_all_lem base_fee ((a, (first, rest)) ∷ entries) q q' (mine, apart, filed) idle fresh v e =
    elim (Bool-cases (is_undefined base_fee && any (λ o. o.tx.tx_type == 2) (first ∷ rest))) [
      | inl bad ↦ absurd (ground arith)
      | inr fine ↦
          let done =
            enqueue_all_lem base_fee entries (enqueue a first rest q) q' filed idle
              (enqueue_fresh a first rest q mine idle fresh.0 entries apart fresh.1)
              (enqueue-IsValid a first rest q mine idle fresh.0 v) (ground arith) in
          record {
            valid = done.valid;
            each = (
              done.others a (All-map _ (λ x ne. λ k. ne (sym k)) entries apart)
                  ∙ remaining-enqueue_self a first rest q mine idle fresh.0,
              done.each,
            );
            others = λ s ne.
                done.others s ne.1 ∙ remaining-enqueue_ne a first rest q mine idle fresh.0 s ne.0;
          }
    ]

All-fresh :
    (entries : List Entry) → All (λ e. ◌≡◌ {A = List OrderedTransaction} (own e.0 []) []) entries
All-fresh [] = tt
All-fresh (e ∷ entries) = (refl, All-fresh entries)

abbrev empty_queue : (OrderedTransaction → OrderedTransaction → ℤ) → TransactionQueue
empty_queue cmp = record {
  queued_transactions = [];
  heap = [];
  comparator = cmp;
  last_transaction_sender = none;
}

empty_queue-IsValid :
    (cmp : OrderedTransaction → OrderedTransaction → ℤ) → IsValid (empty_queue cmp)
unfolding Map.get
empty_queue-IsValid cmp = record { single = λ s. omega arith; filed = λ s. tt }

module _ (pending : List Entry) (base_fee : Option ℕ) (q : TransactionQueue)
    (filed : IsFiled pending) where
  enqueued_pending :
      (cmp : OrderedTransaction → OrderedTransaction → ℤ)
      → enqueue_all base_fee pending (empty_queue cmp) ≡ ok q
      → IsValid q × All (λ e. remaining q e.0 ≡ e.1.0 ∷ e.1.1) pending
  enqueued_pending cmp e =
      let done =
        enqueue_all_lem base_fee pending (empty_queue cmp) q filed refl (All-fresh pending)
          (empty_queue-IsValid cmp) e in
      (done.valid, done.each)

-- If no sender has two entries and each entry holds transactions of its sender, then a queue that
-- the constructor builds is valid, and what remains of a sender is the whole list.
pub new_queue-IsValid :
    (pending : List Entry) (order : MempoolOrder) (base_fee : Option ℕ) (q : TransactionQueue)
    → IsFiled pending
    → new_queue pending order base_fee ≡ ok q
    → IsValid q × All (λ e. remaining q e.0 ≡ e.1.0 ∷ e.1.1) pending
unfolding new_queue
new_queue-IsValid pending priority base_fee q filed e =
    enqueued_pending pending base_fee q filed _ e
new_queue-IsValid pending fifo base_fee q filed e = enqueued_pending pending base_fee q filed _ e
new_queue-IsValid pending other base_fee q filed e = absurd (cc)
