-- ===== src/Blockchain/Appending.antt =====
-- The invariant of the chain, kept by `getBlock` and `addBlock`, whether they return or throw.
use polkahat.Prelude.{
  ℕ, suc, ◌+◌, ◌-◌, ◌≡◌, refl, sym, inl, inr, ◌∙◌, ap, subst, Bool, true, false, not, ◌&&◌, ◌||◌,
  Option, none, some, ltb, ◌==◌, if◌then◌else◌, arith, Bool-cases, ==_iff,
}
use polkahat.Prelude.Outcome.{Result, ok, throw, bind, Result-cases}
use polkahat.Map
use polkahat.Blockchain.Data.{
  Block, BlockLib, BlockchainData, Error, get_block_by_number, get_block_before, store_block,
  invalid_block_number, invalid_parent_hash,
}
use polkahat.Blockchain.Reservations.{
  find_block_reservation, is_reserved_block, calculate_timestamp, split_reservation,
  fulfill_block_reservation,
}
use polkahat.Blockchain.Chain.{
  HardhatBlockchain, BlockId, by_number, by_hash, set_data, on_data, is_other_hash, add_difficulty,
  get_block, validate_block, compute_total_difficulty, add_block,
}
use polkahat.Blockchain.Holders.{is_reserved_block-find, is_reserved_block-holders}
use polkahat.Blockchain.Stores.{store_block-numbers, store_block-reservations}
use polkahat.Blockchain.Fulfilment.{fulfill_block_reservation_lem}
use polkahat.Blockchain.Chain.{add_difficulty}
use polkahat.Blockchain.Growth.{IsChain, Grown, number_of, Fulfilled-IsChain, bind-Grown}

module _ (lib : BlockLib) where
  pub fulfill-throw :
      (i index : ℕ) (d : BlockchainData) (e : Error)
      → find_block_reservation i d ≡ some index
      → calculate_timestamp (suc i) i d ≡ throw e
      → fulfill_block_reservation lib i d ≡ (throw e, d)
  unfolding fulfill_block_reservation split_reservation
  fulfill-throw i index d e at_i thrown =
      rw (fulfill_block_reservation, at_i, split_reservation, thrown) refl

  fulfill-Grown :
      (n i : ℕ) (c : HardhatBlockchain)
      → Grown n c
      → is_reserved_block i c.chain_data ≡ true
      → Grown n (on_data (fulfill_block_reservation lib i) c).1
  fulfill-Grown n i c k res = elim (Result-cases (calculate_timestamp (suc i) i c.chain_data)) [
    | inl (e, thrown) ↦
        let (index, at_i) = is_reserved_block-find i c.chain_data res in
        subst (λ x. Grown n (set_data x.1 c))
          (sym (fulfill-throw i index c.chain_data e at_i thrown)) k
    | inr (t, time) ↦
        let (d, (runs, f)) =
          fulfill_block_reservation_lem lib c.chain_data i t k.0.consistent.disjoint res time in
        subst (λ x. Grown n (set_data x.1 c)) (sym runs) (Fulfilled-IsChain i t c d k.0 res f, k.1)
  ]

  -- `getBlock` keeps the invariant and the length, whatever it returns.
  pub get_block-IsChain :
      (id : BlockId) (n : ℕ) (c : HardhatBlockchain) → Grown n c → Grown n (get_block lib id c).1
  unfolding get_block
  get_block-IsChain (by_hash h) n c k = k
  get_block-IsChain (by_number i) n c k = elim (Bool-cases (is_reserved_block i c.chain_data)) [
    | inr free ↦ rw free k
    | inl res ↦
        let h = fulfill-Grown n i c k res in
        rw res (bind-Grown n (on_data (fulfill_block_reservation lib i) c) _ h λ a d g. g)
  ]

  -- A block stored at the chain's end.
  store_block-IsChain :
      (block : Block) (difficulty : ℕ) (c : HardhatBlockchain)
      → IsChain c
      → c.length ≡ block.number
      → IsChain
          (record { length = c.length + 1; chain_data = store_block block difficulty c.chain_data })
  store_block-IsChain block difficulty c k here =
      let e = store_block block difficulty c.chain_data in
      let same : (m : ℕ) → is_reserved_block m e ≡ is_reserved_block m c.chain_data = (λ m.
        rw
          (
            is_reserved_block-holders m e,
            is_reserved_block-holders m c.chain_data,
            store_block-reservations block difficulty c.chain_data,
          )
          refl) in
      let numbers : (m : ℕ)
          → get_block_by_number m e
            ≡ (if block.number == m then some block else get_block_by_number m c.chain_data) =
        (λ m.
          ap (Map.get m) (store_block-numbers block difficulty c.chain_data)
          ∙ Map.get-put block.number m block c.chain_data.blocks_by_number) in
      let pick : (m : ℕ) (t : Bool)
          → (block.number == m) ≡ t
          → (if block.number == m then some block else get_block_by_number m c.chain_data)
            ≡ (if t then some block else get_block_by_number m c.chain_data) =
        (λ m t h. ap (λ t. if t then some block else get_block_by_number m c.chain_data) h) in
      record {
        consistent = record {
          disjoint =
              rw (store_block-reservations block difficulty c.chain_data) k.consistent.disjoint;
          numbered = λ m b s. elim (Bool-cases (block.number == m)) [
            | inl h ↦ ap number_of (sym s ∙ numbers m ∙ pick m true h) ∙ (==_iff block.number m).0 h
            | inr h ↦ k.consistent.numbered m b (sym (numbers m ∙ pick m false h) ∙ s)
          ];
          exclusive = λ m b s. elim (Bool-cases (block.number == m)) [
            | inl h ↦ same m ∙ (let below = k.reserved_below m in ground (arith, below, h, here))
            | inr h ↦ same m ∙ k.consistent.exclusive m b (sym (numbers m ∙ pick m false h) ∙ s)
          ];
        };
        stored_below =
            λ m b s. let below = k.stored_below m b in ground (arith, numbers m, s, here, below);
        reserved_below = λ m s. let below = k.reserved_below m (sym (same m) ∙ s) in omega arith;
      }

  add_difficulty-Grown :
      (n : ℕ) (o : Option ℕ) (x : ℕ) (d : HardhatBlockchain)
      → Grown n d
      → Grown n (add_difficulty o x d).1
  add_difficulty-Grown n none x d g = g
  add_difficulty-Grown n (some y) x d g = g

  compute_total_difficulty-Grown :
      (block : Block) (n : ℕ) (c : HardhatBlockchain)
      → Grown n c
      → Grown n (compute_total_difficulty lib block c).1
  unfolding compute_total_difficulty
  compute_total_difficulty-Grown block n c k = elim (Bool-cases (block.number == 0)) [
    | inl e ↦ rw e k
    | inr e ↦
        let h = get_block-IsChain (by_number (block.number - 1)) n c k in
        rw e (
          bind-Grown n (get_block lib (by_number (block.number - 1)) c) _ h λ parent d g.
            add_difficulty-Grown n (Map.get parent.hash d.chain_data.total_difficulty)
              block.difficulty d g)
  ]

  -- What comes after validation.
  abbrev append : Block → ℕ → HardhatBlockchain → Result Error Block × HardhatBlockchain
  append block difficulty c = (
    ok block,
    record { length = c.length + 1; chain_data = store_block block difficulty c.chain_data },
  )

  -- The two ends of `addBlock`.
  pub data Adds (block : Block) (n : ℕ) : Result Error Block × HardhatBlockchain → Type 0 where
    refused : (e : Error) (d : HardhatBlockchain) → Grown n d → Adds block n (throw e, d)
    added :
        (d : HardhatBlockchain)
        → block.number ≡ n
        → Grown (n + 1) d
        → get_block_by_number n d.chain_data ≡ some block
        → Adds block n (ok block, d)

  append-Adds :
      (block : Block) (n : ℕ) (r : Result Error ℕ × HardhatBlockchain)
      → block.number ≡ n
      → Grown n r.1
      → Adds block n (bind (append block) r)
  append-Adds block n (throw e, d) h g = refused e d g
  append-Adds block n (ok t, d) h g =
      added (record { length = d.length + 1; chain_data = store_block block t d.chain_data }) h
        (store_block-IsChain block t d g.0 (g.1 ∙ sym h), omega arith)
        (ap (Map.get n) (store_block-numbers block t d.chain_data)
          ∙ ap (λ m. Map.get m (Map.put block.number block d.chain_data.blocks_by_number)) (sym h)
          ∙ Map.get-put_self block.number block d.chain_data.blocks_by_number)

  -- On a chain with the invariant `addBlock` keeps it. When it throws the chain has its old length; when it returns
  -- the block's number was the old length, the chain is longer by one, and the block is found under
  -- its number.
  pub add_block-Adds :
      (block : Block) (c : HardhatBlockchain)
      → IsChain c
      → Adds block c.length (add_block lib block c)
  unfolding add_block validate_block
  add_block-Adds block c k = elim (Bool-cases (c.length == block.number)) [
    | inr wrong ↦ rw wrong (refused invalid_block_number c (k, refl))
    | inl right ↦
        elim (Bool-cases (
          block.number == 0 && not (block.parent_hash == 0)
          || ltb 0 block.number
            && is_other_hash (get_block_before block.number c.chain_data) block.parent_hash)) [
              | inl other ↦ rw (right, other) (refused invalid_parent_hash c (k, refl))
              | inr fits ↦
                  let h = compute_total_difficulty-Grown block c.length c (k, refl) in
                  rw (right, fits)
                    (append-Adds block c.length (compute_total_difficulty lib block c)
                      (sym ((==_iff c.length block.number).0 right)) h)
            ]
  ]
