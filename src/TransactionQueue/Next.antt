-- ===== src/TransactionQueue/Next.antt =====
-- The transactions of one sender come out of the queue in the order of the sender's list.
use mathlib.Core.List.{Permᴰ}
use polkahat.Prelude.{
  ℕ, ◌+◌, ◌≤◌, ◌≡◌, ◌≢◌, refl, sym, subst, ap, ◌∙◌, inl, inr, List, [], ◌∷◌, ◌++◌, Bool, true,
  false, Option, none, some, All, length, ◌==◌, ==_iff, ==→ne, ==_self, if◌then◌else◌, arith,
  Bool-cases, Option-cases,
}
use polkahat.Prelude.Outcome.{ok}
use polkahat.Map
use polkahat.Map.{get-put_self, get-put_ne}
use polkahat.Transaction.{OrderedTransaction, option_eq, sender_of}
use polkahat.TransactionQueue.{
  Heap, TransactionQueue, move_first_enqueued_transaction_to_heap, refill, pop_next,
  get_next_transaction,
}

abbrev pub is_from : ℕ → OrderedTransaction → Bool
is_from s o = option_eq (sender_of o.tx.origin) (some s)

-- A sender's part of a list.
abbrev pub own : ℕ → List OrderedTransaction → List OrderedTransaction
own s [] = []
own s (o ∷ os) = let rest = own s os in if is_from s o then o ∷ rest else rest

abbrev pub list_or_empty : Option (List OrderedTransaction) → List OrderedTransaction
list_or_empty none = []
list_or_empty (some xs) = xs

-- What is still to come of a sender: what is on the heap, then what waits.
abbrev pub remaining : TransactionQueue → ℕ → List OrderedTransaction
remaining q s = own s q.heap ++ list_or_empty (Map.get s q.queued_transactions)

abbrev pub is_last : TransactionQueue → ℕ → ℕ
is_last q s = if option_eq q.last_transaction_sender (some s) then 1 else 0

-- A sender has one transaction on the heap, or none and is the last one served; and a sender's
-- waiting transactions are the sender's.
pub record IsValid (q : TransactionQueue) : Type 0 where
  pub single : (s : ℕ) → length (own s q.heap) + is_last q s ≤ 1
  pub filed :
      (s : ℕ) → All (λ o. is_from s o ≡ true) (list_or_empty (Map.get s q.queued_transactions))

single-Permᴰ {ℓ} : {A : Type ℓ} {xs ys : List A} → Permᴰ xs ys → length xs ≤ 1 → xs ≡ ys
single-Permᴰ Permᴰ.nil h = refl
single-Permᴰ (Permᴰ.cons e d) h = λ i. e i ∷ single-Permᴰ d (omega arith) i
single-Permᴰ (Permᴰ.swap e f) h = absurd (omega arith)
single-Permᴰ (Permᴰ.trans c d) h = let e = single-Permᴰ c h in e ∙ single-Permᴰ d (rw (← e) h)

Permᴰ-refl {ℓ} : {A : Type ℓ} (xs : List A) → Permᴰ xs xs
Permᴰ-refl [] = Permᴰ.nil
Permᴰ-refl (x ∷ xs) = Permᴰ.cons refl (Permᴰ-refl xs)

own-swap :
    (s : ℕ) (a b : OrderedTransaction) (l : List OrderedTransaction)
    → Permᴰ (own s (a ∷ b ∷ l)) (own s (b ∷ a ∷ l))
own-swap s a b l = elim (Bool-cases (is_from s a)) [
  | inl h ↦ elim (Bool-cases (is_from s b)) [
    | inl k ↦ rw (h, k) (Permᴰ.swap refl refl)
    | inr k ↦ rw (h, k) (Permᴰ-refl (a ∷ own s l))
  ]
  | inr h ↦ elim (Bool-cases (is_from s b)) [
    | inl k ↦ rw (h, k) (Permᴰ-refl (b ∷ own s l))
    | inr k ↦ rw (h, k) (Permᴰ-refl (own s l))
  ]
]

own-Permᴰ : (s : ℕ) {xs ys : List OrderedTransaction} → Permᴰ xs ys → Permᴰ (own s xs) (own s ys)
own-Permᴰ s Permᴰ.nil = Permᴰ.nil
own-Permᴰ s (Permᴰ.cons {a = a} e d) = elim (Bool-cases (is_from s a)) [
  | inl h ↦ rw (← e, h) (Permᴰ.cons refl (own-Permᴰ s d))
  | inr h ↦ rw (← e, h) (own-Permᴰ s d)
]
own-Permᴰ s (Permᴰ.swap {a = a} {b = b} {l = l} e f) = rw (← e, ← f) (own-swap s a b l)
own-Permᴰ s (Permᴰ.trans c d) = Permᴰ.trans (own-Permᴰ s c) (own-Permᴰ s d)

-- After the sender served last has had its next transaction put on the heap.
record Refilled (q q' : TransactionQueue) : Type 0 where
  same : (s : ℕ) → remaining q' s ≡ remaining q s
  at_most_one : (s : ℕ) → length (own s q'.heap) ≤ 1
  kept_filed :
      (s : ℕ) → All (λ o. is_from s o ≡ true) (list_or_empty (Map.get s q'.queued_transactions))

empty_of_length : {A : Type 0} (xs : List A) → length xs ≤ 0 → xs ≡ []
empty_of_length [] h = refl
empty_of_length (x ∷ xs) h = absurd (omega arith)

pub from_other :
    (s t : ℕ) (o : OrderedTransaction) → is_from t o ≡ true → t ≢ s → is_from s o ≡ false
from_other s t o h ne = ground arith

move_first_Refilled :
    (q : TransactionQueue) (t : ℕ) (waiting : Option (List OrderedTransaction))
    → Map.get t q.queued_transactions ≡ waiting
    → q.last_transaction_sender ≡ some t
    → IsValid q
    → Refilled q (move_first_enqueued_transaction_to_heap t q)
unfolding move_first_enqueued_transaction_to_heap
move_first_Refilled q t none e last v =
    rw (e, move_first_enqueued_transaction_to_heap)
      (record {
        same = λ s. refl;
        at_most_one = λ s. omega (arith, v.single s);
        kept_filed = v.filed;
      })
move_first_Refilled q t (some []) e last v =
    rw (e, move_first_enqueued_transaction_to_heap)
      (record {
        same = λ s. refl;
        at_most_one = λ s. omega (arith, v.single s);
        kept_filed = v.filed;
      })
move_first_Refilled q t (some (first ∷ rest)) e last v =
    rw (e, move_first_enqueued_transaction_to_heap)
      (record {
        same = λ s. elim (Bool-cases (t == s)) [
          | inl here ↦
              subst (λ s. remaining moved s ≡ remaining q s) ((==_iff t s).0 here)
                (rw (mine, own_heap, get-put_self t rest q.queued_transactions, e) refl)
          | inr there ↦
              rw
                (
                  from_other s t first mine (==→ne t s there),
                  get-put_ne t s rest q.queued_transactions (==→ne t s there),
                )
                refl
        ];
        at_most_one = λ s. elim (Bool-cases (t == s)) [
          | inl here ↦
              subst (λ s. length (own s (first ∷ q.heap)) ≤ 1) ((==_iff t s).0 here)
                (rw (mine, own_heap) (omega arith))
          | inr there ↦ rw (from_other s t first mine (==→ne t s there)) (omega (arith, v.single s))
        ];
        kept_filed = λ s. elim (Bool-cases (t == s)) [
          | inl here ↦
              subst
                (λ s.
                  All (λ o. is_from s o ≡ true)
                    (list_or_empty (Map.get s (Map.put t rest q.queued_transactions))))
                ((==_iff t s).0 here) (rw (get-put_self t rest q.queued_transactions) own_waiting.1)
          | inr there ↦ rw (get-put_ne t s rest q.queued_transactions (==→ne t s there)) (v.filed s)
        ];
      })
  where
    own_heap : own t q.heap ≡ []
    own_heap = empty_of_length (own t q.heap) (ground (arith, v.single t))

    own_waiting : All (λ o. is_from t o ≡ true) (first ∷ rest)
    own_waiting = subst (λ w. All (λ o. is_from t o ≡ true) (list_or_empty w)) e (v.filed t)

    mine : is_from t first ≡ true
    mine = own_waiting.0

    moved : TransactionQueue
    moved = record q {
      heap = first ∷ q.heap;
      queued_transactions = Map.put t rest q.queued_transactions;
    }

refill_lem :
    (q : TransactionQueue) (last : Option ℕ)
    → q.last_transaction_sender ≡ last
    → IsValid q
    → Refilled q (refill last q)
refill_lem q none e v = record {
  same = λ s. refl;
  at_most_one = λ s. omega (arith, v.single s);
  kept_filed = v.filed;
}
refill_lem q (some t) e v = move_first_Refilled q t _ refl e v

-- One transaction is served: it is the next one of its sender, and no other sender's part changes.
pub record Serves (q q' : TransactionQueue) (o : OrderedTransaction) : Type 0 where
  pub sender : ℕ
  pub sent : sender_of o.tx.origin ≡ some sender
  pub next : remaining q sender ≡ o ∷ remaining q' sender
  pub others : (s : ℕ) → sender ≢ s → remaining q' s ≡ remaining q s

module _ (lib : Heap) where
  own-pop :
      (q : TransactionQueue) (o : OrderedTransaction) (rest : List OrderedTransaction) (s : ℕ)
      → length (own s q.heap) ≤ 1
      → lib.pop q.comparator q.heap ≡ some (o, rest)
      → own s q.heap ≡ own s (o ∷ rest)
  own-pop q o rest s one e =
      single-Permᴰ (own-Permᴰ s (lib.pop-perm q.comparator q.heap o rest e)) one

  popped :
      (q : TransactionQueue) (o : OrderedTransaction) (rest : List OrderedTransaction) (t : ℕ)
      → ((s : ℕ) → length (own s q.heap) ≤ 1)
      → ((s : ℕ) → All (λ o. is_from s o ≡ true) (list_or_empty (Map.get s q.queued_transactions)))
      → lib.pop q.comparator q.heap ≡ some (o, rest)
      → sender_of o.tx.origin ≡ some t
      → IsValid (record q { heap = rest; last_transaction_sender = some t })
        × Serves q (record q { heap = rest; last_transaction_sender = some t }) o
  popped q o rest t one filed e from = (
    record {
      single = λ s. elim (Bool-cases (t == s)) [
        | inl here ↦
            subst (λ s. length (own s rest) + (if t == s then 1 else 0) ≤ 1) ((==_iff t s).0 here)
              (rw (==_self t) (omega (arith, one t, ap length own_head)))
        | inr there ↦ rw there (omega (arith, one s, ap length (own_tail s (==→ne t s there))))
      ];
      filed = filed;
    },
    record {
      sender = t;
      sent = from;
      next = ap (λ xs. xs ++ list_or_empty (Map.get t q.queued_transactions)) own_head;
      others = λ s ne.
          ap (λ xs. xs ++ list_or_empty (Map.get s q.queued_transactions)) (sym (own_tail s ne));
    },
  )
    where
      mine : is_from t o ≡ true
      mine = rw from (==_self t)

      own_head : own t q.heap ≡ o ∷ own t rest
      own_head = own-pop q o rest t (one t) e ∙ rw mine refl

      own_tail : (s : ℕ) → t ≢ s → own s q.heap ≡ own s rest
      own_tail s ne = own-pop q o rest s (one s) e ∙ rw (from_other s t o mine ne) refl

  Serves-after :
      (p q r : TransactionQueue) (o : OrderedTransaction)
      → ((s : ℕ) → remaining q s ≡ remaining p s)
      → Serves q r o
      → Serves p r o
  Serves-after p q r o same v = record {
    sender = v.sender;
    sent = v.sent;
    next = sym (same v.sender) ∙ v.next;
    others = λ s ne. v.others s ne ∙ same s;
  }

  pop_next-Serves :
      (q : TransactionQueue) (o : OrderedTransaction) (q' : TransactionQueue)
      → ((s : ℕ) → length (own s q.heap) ≤ 1)
      → ((s : ℕ) → All (λ o. is_from s o ≡ true) (list_or_empty (Map.get s q.queued_transactions)))
      → pop_next lib q ≡ (ok (some o), q')
      → IsValid q' × Serves q q' o
  unfolding pop_next
  pop_next-Serves q o q' one filed e = elim (Option-cases (lib.pop q.comparator q.heap)) [
    | inl nothing ↦ absurd (ground arith)
    | inr ((x, rest), found) ↦ elim (Option-cases (sender_of x.tx.origin)) [
      | inl unknown ↦ absurd (ground arith)
      | inr (t, from) ↦
          let x-o : x ≡ o = ground arith in
          let same : record q { heap = rest; last_transaction_sender = some t } ≡ q' =
            ground arith in
          subst (λ r. IsValid r × Serves q r o) same
            (subst
              (λ y.
                IsValid (record q { heap = rest; last_transaction_sender = some t })
                × Serves q (record q { heap = rest; last_transaction_sender = some t }) y)
              x-o (popped q x rest t one filed found from))
    ]
  ]

  -- A transaction that a valid queue hands out is the next one of its sender, in the order of the
  -- sender's list; nothing is lost or added for any other sender, and the queue stays valid.
  pub get_next_transaction-Serves :
      (q : TransactionQueue) (o : OrderedTransaction) (q' : TransactionQueue)
      → IsValid q
      → get_next_transaction lib q ≡ (ok (some o), q')
      → IsValid q' × Serves q q' o
  unfolding get_next_transaction
  get_next_transaction-Serves q o q' v e =
      let w = refill_lem q q.last_transaction_sender refl v in
      let r = refill q.last_transaction_sender q in
      let (valid, serves) = pop_next-Serves r o q' w.at_most_one w.kept_filed e in
      (valid, Serves-after q r q' o w.same serves)

  -- The queue answers that it is empty only when the heap is, after the last sender was served.
  pub get_next_transaction-none :
      (q q' : TransactionQueue)
      → IsValid q
      → get_next_transaction lib q ≡ (ok none, q')
      → (refill q.last_transaction_sender q).heap ≡ []
  unfolding get_next_transaction pop_next
  get_next_transaction-none q q' v e = elim (Option-cases (lib.pop r.comparator r.heap)) [
    | inl nothing ↦ lib.pop-none r.comparator r.heap nothing
    | inr ((x, rest), found) ↦ elim (Option-cases (sender_of x.tx.origin)) [
      | inl unknown ↦ absurd (ground arith)
      | inr (t, from) ↦ absurd (ground arith)
    ]
  ]
    where
      r : TransactionQueue
      r = refill q.last_transaction_sender q
