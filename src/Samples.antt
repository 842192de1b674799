-- ===== src/Samples.antt =====
-- Concrete libraries and data for the tests: transactions stored as they are, an insertion sort,
-- and a heap that looks for its first element.
pub mod Codec
use mathlib.Core.List.{Permᴰ}
use polkahat.Prelude.{
  ℕ, ◌*◌, ◌≤◌, ◌≡◌, ◌≢◌, ◌↔◌, refl, sym, ap, subst, inl, inr, List, [], ◌∷◌, Bool, true, false,
  Option, none, some, get_elem?, leb, All, All-map, if◌then◌else◌, arith, Bool-cases, Option-cases,
}
use polkahat.Prelude.Int.{ℤ, pos, ◌≤ℤ◌, ltb_ℤ}
use polkahat.Transaction.{
  TypedTransaction, OrderedTransaction, Externals, Origin, recovered, unverified, Fees, gas_price,
  eip1559, IsSortedBy,
}
use polkahat.Transaction.Values.{
  many, Kind, legacy, access_list, fee_market, TxData, Raw, values_of, non_empty, data_of,
}
use polkahat.Samples.Codec.{plain_codec}
use polkahat.TransactionQueue.{Heap, IsOrder}
use native.Mathlib.Decide.{ℕ_discrete}

unfoldable pub TypedTransaction-discrete : Discrete TypedTransaction
TypedTransaction-discrete = hlevel ℕ_discrete

unfoldable pub tx_eq : TypedTransaction → TypedTransaction → Bool
tx_eq a b = elim (TypedTransaction-discrete a b) [ yes e ↦ true | no e ↦ false ]

pub tx_eq_iff : (a b : TypedTransaction) → (tx_eq a b ≡ true) ↔ (a ≡ b)
unfolding tx_eq
tx_eq_iff a b =
    elim (TypedTransaction-discrete a b)
      as (λ d. (elim d [ yes e ↦ true | no e ↦ false ] ≡ true) ↔ (a ≡ b)) [
        | yes e ↦ (λ _. e, λ _. refl)
        | no e ↦ (λ h. absurd (cc), λ h. absurd (e h))
      ]

abbrev unwrap {ℓ} : {A : Type ℓ} → A → Option A → A
unwrap d none = d
unwrap d (some x) = x

module _ {A : Type 0} where
  pub All-Permᴰ : (P : A → Type 0) {xs ys : List A} → Permᴰ xs ys → All P xs → All P ys
  All-Permᴰ P Permᴰ.nil h = tt
  All-Permᴰ P (Permᴰ.cons e d) h = (subst P e h.0, All-Permᴰ P d h.1)
  All-Permᴰ P (Permᴰ.swap e f) h = (subst P f h.1.0, (subst P e h.0, h.1.1))
  All-Permᴰ P (Permᴰ.trans c d) h = All-Permᴰ P d (All-Permᴰ P c h)

  pub Permᴰ-refl : (xs : List A) → Permᴰ xs xs
  Permᴰ-refl [] = Permᴰ.nil
  Permᴰ-refl (x ∷ xs) = Permᴰ.cons refl (Permᴰ-refl xs)

  Permᴰ-symm : {xs ys : List A} → Permᴰ xs ys → Permᴰ ys xs
  Permᴰ-symm Permᴰ.nil = Permᴰ.nil
  Permᴰ-symm (Permᴰ.cons e d) = Permᴰ.cons (sym e) (Permᴰ-symm d)
  Permᴰ-symm (Permᴰ.swap e f) = Permᴰ.swap (sym f) (sym e)
  Permᴰ-symm (Permᴰ.trans c d) = Permᴰ.trans (Permᴰ-symm d) (Permᴰ-symm c)

  module _ (key : A → ℕ) where
    unfoldable pub insert : A → List A → List A
    insert x [] = x ∷ []
    insert x (y ∷ ys) = if leb (key x) (key y) then x ∷ y ∷ ys else y ∷ insert x ys

    unfoldable pub sort : List A → List A
    sort [] = []
    sort (x ∷ xs) = insert x (sort xs)

    insert-perm : (x : A) (xs : List A) → Permᴰ (insert x xs) (x ∷ xs)
    unfolding insert
    insert-perm x [] = Permᴰ-refl (x ∷ [])
    insert-perm x (y ∷ ys) = elim (Bool-cases (leb (key x) (key y))) [
      | inl e ↦ rw e (Permᴰ-refl (x ∷ y ∷ ys))
      | inr e ↦ rw e (Permᴰ.trans (Permᴰ.cons refl (insert-perm x ys)) (Permᴰ.swap refl refl))
    ]

    pub sort-perm : (xs : List A) → Permᴰ (sort xs) xs
    unfolding sort
    sort-perm [] = Permᴰ.nil
    sort-perm (x ∷ xs) = Permᴰ.trans (insert-perm x (sort xs)) (Permᴰ.cons refl (sort-perm xs))

    insert-IsSortedBy : (x : A) (xs : List A) → IsSortedBy key xs → IsSortedBy key (insert x xs)
    unfolding insert
    insert-IsSortedBy x [] h = (tt, tt)
    insert-IsSortedBy x (y ∷ ys) h = elim (Bool-cases (leb (key x) (key y))) [
      | inl e ↦ rw e ((ground arith, All-map _ (λ z k. ground arith) ys h.0), h)
      | inr e ↦ rw e (
        All-Permᴰ (λ z. key y ≤ key z) (Permᴰ-symm (insert-perm x ys)) (ground arith, h.0),
        insert-IsSortedBy x ys h.1,
      )
    ]

    pub sort-IsSortedBy : (xs : List A) → IsSortedBy key (sort xs)
    unfolding sort
    sort-IsSortedBy [] = tt
    sort-IsSortedBy (x ∷ xs) = insert-IsSortedBy x (sort xs) (sort-IsSortedBy xs)

abbrev pub plain : Externals TypedTransaction
plain = record {
  codec = plain_codec;
  from_serialized_data = λ d. d;
  data_eq = tx_eq;
  entries = λ m. m;
  sort_by = sort;
  decode = λ t _. refl;
  data_eq_iff = tx_eq_iff;
  entries-perm = Permᴰ-refl;
  sort_by-perm = sort-perm;
  sort_by-IsSortedBy = sort-IsSortedBy;
}

module _ (cmp : OrderedTransaction → OrderedTransaction → ℤ) where
  unfoldable pub pop_first :
      List OrderedTransaction → Option (OrderedTransaction × List OrderedTransaction)
  pop_first [] = none
  pop_first (x ∷ xs) = elim (pop_first xs) [
    | none ↦ some (x, [])
    | some (y, ys) ↦ if ltb_ℤ (pos 0) (cmp x y) then some (y, x ∷ ys) else some (x, xs)
  ]

  pub pop_first-none : (h : List OrderedTransaction) → pop_first h ≡ none → h ≡ []
  unfolding pop_first
  pop_first-none [] e = refl
  pop_first-none (x ∷ xs) e = absurd (ground arith)

  -- What is taken out is one of the list, and comes first.
  abbrev Takes : List OrderedTransaction → OrderedTransaction × List OrderedTransaction → Type 0
  Takes h r = Permᴰ h (r.0 ∷ r.1) × (IsOrder cmp → All (λ y. cmp r.0 y ≤ℤ pos 0) r.1)

  pop_first-Takes :
      (h : List OrderedTransaction) (r : OrderedTransaction × List OrderedTransaction)
      → pop_first h ≡ some r
      → Takes h r
  unfolding pop_first
  pop_first-Takes [] r e = absurd (cc)
  pop_first-Takes (z ∷ zs) r e = elim (Option-cases (pop_first zs)) [
    | inl last ↦
        let empty : zs ≡ [] = pop_first-none zs last in
        subst (Takes (z ∷ zs)) (ap (unwrap r) (rw last at e))
          (rw empty (Permᴰ-refl (z ∷ [])), λ o. tt)
    | inr ((y, ys), found) ↦
        let (perm, first) = pop_first-Takes zs (y, ys) found in
        elim (Bool-cases (ltb_ℤ (pos 0) (cmp z y))) [
          | inl later ↦ subst (Takes (z ∷ zs)) (ap (unwrap r) (rw (found, later) at e)) (
            Permᴰ.trans (Permᴰ.cons refl perm) (Permᴰ.swap refl refl),
            λ o. (elim (o.total y z) [ inl le ↦ le | inr le ↦ absurd (ground arith) ], first o),
          )
          | inr now ↦ subst (Takes (z ∷ zs)) (ap (unwrap r) (rw (found, now) at e)) (
            Permᴰ-refl (z ∷ zs),
            λ o.
                All-Permᴰ (λ x. cmp z x ≤ℤ pos 0) (Permᴰ-symm perm)
                  (
                    ground arith,
                    All-map _ (λ x le. o.transitive z y x (ground arith) le) ys (first o),
                  ),
          )
        ]
  ]

  pub pop_first-perm :
      (h : List OrderedTransaction) (x : OrderedTransaction) (rest : List OrderedTransaction)
      → pop_first h ≡ some (x, rest)
      → Permᴰ h (x ∷ rest)
  pop_first-perm h x rest e = (pop_first-Takes h (x, rest) e).0

  pub pop_first-first :
      (h : List OrderedTransaction) (x : OrderedTransaction) (rest : List OrderedTransaction)
      → IsOrder cmp
      → pop_first h ≡ some (x, rest)
      → All (λ y. cmp x y ≤ℤ pos 0) rest
  pop_first-first h x rest o e = (pop_first-Takes h (x, rest) e).1 o

abbrev pub scan : Heap
scan = record {
  pop = pop_first;
  pop-none = pop_first-none;
  pop-perm = pop_first-perm;
  pop-first = pop_first-first;
}

-- Account 7 sends transactions with nonces 0, 1 and 2, and one that outbids the first.
abbrev pub transfer : ℕ → ℕ → ℕ → ℕ → TypedTransaction
transfer sender nonce tip hash = record {
  origin = recovered sender;
  nonce = nonce;
  gas_limit = 21000;
  value = 1;
  fees = eip1559 (tip * 10) tip;
  to = some 9;
  data_length = 0;
  tx_type = 2;
  base_fee = 21000;
  upfront_cost = 1;
  hash = hash;
}

abbrev pub tx_0 : TypedTransaction
tx_0 = transfer 7 0 10 1000

abbrev pub tx_1 : TypedTransaction
tx_1 = transfer 7 1 10 1001

abbrev pub tx_2 : TypedTransaction
tx_2 = transfer 7 2 10 1002

abbrev pub tx_0_better : TypedTransaction
tx_0_better = transfer 7 0 11 2000

abbrev pub ordered_tx : ℕ → TypedTransaction → OrderedTransaction
ordered_tx id tx = record { order_id = id; tx = tx }
