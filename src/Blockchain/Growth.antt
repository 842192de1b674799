-- ===== src/Blockchain/Growth.antt =====
-- The invariant of the chain, kept by `addBlock`, `reserveBlocks` and `getBlock`, whether they
-- return or throw.
use polkahat.Prelude.{
  ℕ, ◌+◌, ◌≤◌, ◌<◌, ◌≡◌, refl, sym, ◌∙◌, [], ◌∷◌, true, ◌&&◌, ◌||◌, Option, some, ltb, leb, arith,
  inl, inr, ap, subst, none, ◌==◌, Bool-cases, ==_iff, ==→ne,
}
use polkahat.Blockchain.Data.{Block, BlockchainData, get_block_by_number, reserve_range, Error}
use polkahat.Blockchain.Reservations.{is_reserved_block}
use polkahat.Blockchain.Chain.{HardhatBlockchain, reserve_blocks, set_data}
use polkahat.Blockchain.Holders.{one_if, holders, holders-append, is_reserved_block-holders}
use polkahat.Blockchain.Deletion.{IsConsistent}
use polkahat.Prelude.Outcome.{Result, ok, throw, bind}
use polkahat.Blockchain.Fulfilment.{Fulfilled}

-- The data is consistent, and nothing is stored or reserved from the chain's length on.
pub record IsChain (c : HardhatBlockchain) : Type 0 where
  pub consistent : IsConsistent c.chain_data
  pub stored_below :
      (m : ℕ) (b : Block) → get_block_by_number m c.chain_data ≡ some b → m < c.length
  pub reserved_below : (m : ℕ) → is_reserved_block m c.chain_data ≡ true → m < c.length

-- A chain of `n` blocks.
abbrev pub Grown : ℕ → HardhatBlockchain → Type 0
Grown n c = IsChain c × (c.length ≡ n)

holders→reserved :
    (m : ℕ) (d : BlockchainData) → 1 ≤ holders m d.block_reservations → is_reserved_block m d ≡ true
holders→reserved m d h = rw (is_reserved_block-holders m d) (ground (arith, h))

module _ (count interval root difficulty : ℕ) (base_fee : Option ℕ) (c : HardhatBlockchain)
    (k : IsChain c) where
  abbrev reserving : HardhatBlockchain
  reserving = reserve_blocks count interval root difficulty base_fee c

  holders-reserving :
      (m : ℕ)
      → holders m reserving.chain_data.block_reservations
        ≡ holders m c.chain_data.block_reservations
          + one_if (leb c.length m && ltb m (c.length + count))
  unfolding reserve_blocks reserve_range
  holders-reserving m = ground (
    arith,
    holders-append m c.chain_data.block_reservations (
        record {
          first = c.length;
          after_last = c.length + count;
          interval = interval;
          previous_block_state_root = root;
          previous_block_total_difficulty = difficulty;
          previous_block_base_fee_per_gas = base_fee;
        }
        ∷ []),
  )

  reserved_either :
      (m : ℕ)
      → is_reserved_block m reserving.chain_data
        ≡ is_reserved_block m c.chain_data || (leb c.length m && ltb m (c.length + count))
  reserved_either m =
      rw
        (is_reserved_block-holders m reserving.chain_data, is_reserved_block-holders m c.chain_data)
        (ground (arith, holders-reserving m))

  numbers-reserving :
      (m : ℕ) → get_block_by_number m reserving.chain_data ≡ get_block_by_number m c.chain_data
  unfolding reserve_blocks reserve_range
  numbers-reserving m = refl

  length-reserving : reserving.length ≡ c.length + count
  unfolding reserve_blocks
  length-reserving = refl

  -- On a chain with the invariant `reserveBlocks` keeps it, and makes the chain longer by the blocks it reserves.
  pub reserve_blocks-IsChain :
      Grown (c.length + count) (reserve_blocks count interval root difficulty base_fee c)
  reserve_blocks-IsChain = (
    record {
      consistent = record {
        disjoint = λ m.
            let old = k.consistent.disjoint m in
            let below = k.reserved_below m in
            let res = holders→reserved m c.chain_data in
            ground (arith, holders-reserving m, old, below, res);
        numbered = λ m b e. k.consistent.numbered m b (sym (numbers-reserving m) ∙ e);
        exclusive = λ m b e.
            let s = sym (numbers-reserving m) ∙ e in
            let below = k.stored_below m b s in
            let free = k.consistent.exclusive m b s in
            ground (arith, reserved_either m, below, free);
      };
      stored_below = λ m b e.
          let below = k.stored_below m b (sym (numbers-reserving m) ∙ e) in
          rw length-reserving (omega arith);
      reserved_below = λ m e.
          let below = k.reserved_below m in
          rw length-reserving (ground (arith, reserved_either m, below, e));
    },
    length-reserving,
  )

abbrev pub number_of : Option Block → ℕ
number_of none = 0
number_of (some b) = b.number

pub Fulfilled-IsChain :
    (n t : ℕ) (c : HardhatBlockchain) (d : BlockchainData)
    → IsChain c
    → is_reserved_block n c.chain_data ≡ true
    → Fulfilled n t c.chain_data d
    → IsChain (set_data d c)
Fulfilled-IsChain n t c d k res f = record {
  consistent = record {
    disjoint = f.disjoint;
    numbered = λ m b e. elim (Bool-cases (m == n)) [
      | inl same ↦
          let back = sym ((==_iff m n).0 same) in
          ap number_of (sym e ∙ ap (λ i. get_block_by_number i d) (sym back) ∙ f.stored)
          ∙ f.number
          ∙ back
      | inr ne ↦ k.consistent.numbered m b (sym (f.others m (==→ne m n ne)) ∙ e)
    ];
    exclusive = λ m b e. elim (Bool-cases (m == n)) [
      | inl same ↦ ap (λ i. is_reserved_block i d) ((==_iff m n).0 same) ∙ f.unreserved
      | inr ne ↦
          f.reserved m (==→ne m n ne)
          ∙ k.consistent.exclusive m b (sym (f.others m (==→ne m n ne)) ∙ e)
    ];
  };
  stored_below = λ m b e. elim (Bool-cases (m == n)) [
    | inl same ↦ subst (λ i. i < c.length) (sym ((==_iff m n).0 same)) (k.reserved_below n res)
    | inr ne ↦ k.stored_below m b (sym (f.others m (==→ne m n ne)) ∙ e)
  ];
  reserved_below = λ m e. elim (Bool-cases (m == n)) [
    | inl same ↦ subst (λ i. i < c.length) (sym ((==_iff m n).0 same)) (k.reserved_below n res)
    | inr ne ↦ k.reserved_below m (sym (f.reserved m (==→ne m n ne)) ∙ e)
  ];
}

pub bind-Grown :
    {A B : Type 0} (n : ℕ) (x : Result Error A × HardhatBlockchain)
    (f : A → HardhatBlockchain → Result Error B × HardhatBlockchain)
    → Grown n x.1
    → ((a : A) (c : HardhatBlockchain) → Grown n c → Grown n (f a c).1)
    → Grown n (bind f x).1
bind-Grown n (ok a, c) f h k = k a c h
bind-Grown n (throw e, c) f h k = h
