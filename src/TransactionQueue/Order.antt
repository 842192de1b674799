-- ===== src/TransactionQueue/Order.antt =====
-- The two orders of the queue are orders: what the comparators prefer, and that they can work with a
-- heap.
use polkahat.Prelude.{
  ℕ, ◌≤◌, ◌≡◌, ◌⊎◌, if◌then◌else◌, inl, inr, ◌∙◌, leb, Bool-cases, Option, arith,
}
use polkahat.Prelude.Int.{ltb_ℤ, eq_of_parts, ℤ, pos, sub_ℕ, ◌≤ℤ◌}
use polkahat.BigInt.{cmp_ℤ}
use polkahat.Transaction.{OrderedTransaction}
use polkahat.TransactionQueue.{
  IsOrder, is_zero, get_effective_miner_fee, effective_miner_fee_comparator, order_comparator,
}

-- The fee is higher, or as high and the order id no higher.
abbrev pub ComesBefore : Option ℕ → OrderedTransaction → OrderedTransaction → Type 0
ComesBefore base_fee x y =
    (¬ (get_effective_miner_fee x base_fee ≤ℤ get_effective_miner_fee y base_fee))
    ⊎ ((get_effective_miner_fee x base_fee ≡ get_effective_miner_fee y base_fee)
        × (x.order_id ≤ y.order_id))

abbrev fee_then_id : ℤ → ℤ → ℕ → ℕ → ℤ
fee_then_id a b m n = let cmp = cmp_ℤ b a in if is_zero cmp then sub_ℕ m n else cmp

-- The comparator prefers the higher fee, and the lower id among equal fees.
fee_then_id-le :
    (a b : ℤ) (m n : ℕ) → fee_then_id a b m n ≤ℤ pos 0 → (¬ (a ≤ℤ b)) ⊎ ((a ≡ b) × (m ≤ n))
unfolding cmp_ℤ
fee_then_id-le a b m n h = elim (Bool-cases (ltb_ℤ b a)) [
  | inl above ↦ inl (ground arith)
  | inr not_above ↦ elim (Bool-cases (ltb_ℤ a b)) [
    | inl below ↦ absurd (ground arith)
    | inr equal ↦ inr (eq_of_parts a b (ground arith), ground arith)
  ]
]

le-fee_then_id :
    (a b : ℤ) (m n : ℕ) → (¬ (a ≤ℤ b)) ⊎ ((a ≡ b) × (m ≤ n)) → fee_then_id a b m n ≤ℤ pos 0
unfolding cmp_ℤ
le-fee_then_id a b m n (inl h) = ground arith
le-fee_then_id a b m n (inr (e, h)) = ground arith

fee_then_id-total :
    (a b : ℤ) (m n : ℕ) → (fee_then_id a b m n ≤ℤ pos 0) ⊎ (fee_then_id b a n m ≤ℤ pos 0)
unfolding cmp_ℤ
fee_then_id-total a b m n = elim (Bool-cases (ltb_ℤ b a)) [
  | inl above ↦ inl (ground arith)
  | inr not_above ↦ elim (Bool-cases (ltb_ℤ a b)) [
    | inl below ↦ inr (ground arith)
    | inr equal ↦ elim (Bool-cases (leb m n)) [
      | inl le ↦ inl (ground arith)
      | inr gt ↦ inr (ground arith)
    ]
  ]
]

before_trans :
    (a b c : ℤ) (k m n : ℕ)
    → (¬ (a ≤ℤ b)) ⊎ ((a ≡ b) × (k ≤ m))
    → (¬ (b ≤ℤ c)) ⊎ ((b ≡ c) × (m ≤ n))
    → (¬ (a ≤ℤ c)) ⊎ ((a ≡ c) × (k ≤ n))
before_trans a b c k m n (inl h) (inl g) = inl (omega arith)
before_trans a b c k m n (inl h) (inr (e, g)) = inl (rw (← e) h)
before_trans a b c k m n (inr (e, h)) (inl g) = inl (rw e g)
before_trans a b c k m n (inr (e, h)) (inr (f, g)) = inr (e ∙ f, omega arith)

-- The priority comparator is an order, whatever the base fee.
pub effective_miner_fee_comparator-IsOrder :
    (base_fee : Option ℕ) → IsOrder (effective_miner_fee_comparator base_fee)
unfolding effective_miner_fee_comparator
effective_miner_fee_comparator-IsOrder base_fee = record {
  total = λ x y. fee_then_id-total (fee x) (fee y) x.order_id y.order_id;
  transitive = λ x y z h g. le-fee_then_id (fee x) (fee z) x.order_id z.order_id (
      before_trans (fee x) (fee y) (fee z) x.order_id y.order_id z.order_id
        (fee_then_id-le (fee x) (fee y) x.order_id y.order_id h)
        (fee_then_id-le (fee y) (fee z) y.order_id z.order_id g));
}
  where
    fee : OrderedTransaction → ℤ
    fee o = get_effective_miner_fee o base_fee

pub order_comparator-IsOrder : IsOrder order_comparator
unfolding order_comparator
order_comparator-IsOrder = record {
  total = λ x y. elim (Bool-cases (leb x.order_id y.order_id)) [
    | inl le ↦ inl (ground arith)
    | inr gt ↦ inr (ground arith)
  ];
  transitive = λ x y z h g. ground arith;
}

pub effective_miner_fee_comparator-ComesBefore :
    (base_fee : Option ℕ) (x y : OrderedTransaction)
    → effective_miner_fee_comparator base_fee x y ≤ℤ pos 0
    → ComesBefore base_fee x y
unfolding effective_miner_fee_comparator
effective_miner_fee_comparator-ComesBefore base_fee x y =
    fee_then_id-le (get_effective_miner_fee x base_fee) (get_effective_miner_fee y base_fee)
      x.order_id y.order_id
