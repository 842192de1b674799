-- ===== src/Node/Series.antt =====
-- provider/node.ts: mineBlocks adds as many blocks as it is asked for.
use polkahat.Prelude.{
  ℕ, zero, suc, ◌+◌, ◌-◌, ◌≤◌, ◌≡◌, refl, subst, inl, inr, List, [], ◌∷◌, ◌++◌, length,
  length-append, Option, none, some, leb, arith, Bool-cases,
}
use polkahat.Prelude.Outcome.{Ends, bind-Ends, Ends-more}
use polkahat.Transaction.{Externals}
use polkahat.TxPool.State.{has_pending_transactions}
use polkahat.TransactionQueue.{Heap}
use polkahat.Blockchain.Data.{BlockLib}
use polkahat.Blockchain.Chain.{
  HardhatBlockchain, get_latest_block, get_total_difficulty, reserve_blocks,
}
use polkahat.Blockchain.Growth.{IsChain, Grown, reserve_blocks-IsChain}
use polkahat.Node.State.{HardhatNode, set_chain}
use polkahat.Node.Building.{Vm, MinedBlock}
use polkahat.Node.Blocks.{
  mine_now, mine_after, mine_while_pending, mine_each, mine_rest, mine_blocks,
}
use polkahat.Node.Frames.{SameClock-refl, HasChain, on_chain-Ends, get_latest_block-IsChain}
use polkahat.Node.Progress.{mine_block-Advances}

module _ {Data : Type 0} where
  -- The chain is valid and has a length, and so many blocks were mined for it.
  abbrev Has : ℕ → ℕ → List MinedBlock → HardhatNode Data → Type 0
  Has k mined results m = Grown k m.blockchain × (length results ≡ mined)

  -- Of `left` blocks some were mined, and `r.0` are left.
  abbrev Partly : ℕ → ℕ → List MinedBlock → ℕ × List MinedBlock → HardhatNode Data → Type 0
  Partly k left results r m =
      (mined : ℕ) × (mined + r.0 ≡ left) × Has (k + mined) (length results + mined) r.1 m

  -- The chain has a length, and no more blocks were mined than that takes.
  abbrev pub Reaches : ℕ → ℕ → List MinedBlock → HardhatNode Data → Type 0
  Reaches k most results m = Grown k m.blockchain × (length results ≤ most)

module _ {Data : Type 0} (ext : Externals Data) (lib : BlockLib) (vm : Vm) (heap : Heap)
    (clock : ℕ → ℕ) where
  mine_now-Ends :
      (timestamp : Option ℕ) (k : ℕ) (n : HardhatNode Data)
      → Grown k n.blockchain
      → Ends
          (λ b m. Grown (k + 1) m.blockchain)
          HasChain
          (mine_now ext lib vm heap clock timestamp n)
  mine_now-Ends timestamp k n (chain, long) =
      Ends-more _ (λ b m a. subst (λ k. Grown (k + 1) m.blockchain) long a.grown) (λ m h. h)
        (mine_block-Advances ext lib vm heap (clock n.blockchain.length) timestamp n chain)

  mine_after-Ends :
      (interval k : ℕ) (n : HardhatNode Data)
      → Grown k n.blockchain
      → Ends
          (λ b m. Grown (k + 1) m.blockchain)
          HasChain
          (mine_after ext lib vm heap clock interval n)
  unfolding mine_after
  mine_after-Ends interval k n g =
      bind-Ends _ _
        (on_chain-Ends (get_latest_block lib) n n k (SameClock-refl n)
          (get_latest_block-IsChain lib k n.blockchain g))
        λ latest m w. mine_now-Ends (some (latest.timestamp + interval)) k m w.1

  mine_each-Ends :
      (interval left k : ℕ) (results : List MinedBlock) (n : HardhatNode Data)
      → Grown k n.blockchain
      → Ends
          (λ r m. Has (k + left) (length results + left) r m)
          HasChain
          (mine_each ext lib vm heap clock interval left results n)
  unfolding mine_each
  mine_each-Ends interval zero k results n g = record {
    holds = (subst (λ k. Grown k n.blockchain) (omega arith) g, omega arith);
  }
  mine_each-Ends interval (suc left) k results n g =
      bind-Ends _ _ (mine_after-Ends interval k n g) λ b m h.
        Ends-more _
          (λ r m' (g', l). (
            subst (λ k. Grown k m'.blockchain) (omega arith) g',
            omega (arith, l, length-append results (b ∷ [])),
          ))
          (λ m' h. h) (mine_each-Ends interval left (k + 1) (results ++ b ∷ []) m h)

  mine_while_pending-Ends :
      (interval left k : ℕ) (results : List MinedBlock) (n : HardhatNode Data)
      → Grown k n.blockchain
      → Ends
          (Partly k left results)
          HasChain
          (mine_while_pending ext lib vm heap clock interval left results n)
  unfolding mine_while_pending
  mine_while_pending-Ends interval zero k results n g = record {
    holds = (0, omega arith, (subst (λ k. Grown k n.blockchain) (omega arith) g, omega arith));
  }
  mine_while_pending-Ends interval (suc left) k results n g =
      elim (Bool-cases (has_pending_transactions n.tx_pool)) [
        | inr none_left ↦
            rw (none_left, mine_while_pending)
              (record {
                holds = (
                  0,
                  omega arith,
                  (subst (λ k. Grown k n.blockchain) (omega arith) g, omega arith),
                );
              })
        | inl some_left ↦
            rw (some_left, mine_while_pending)
              (bind-Ends _ _ (mine_after-Ends interval k n g) λ b m h.
                Ends-more _
                  (λ r m' (mined, e, (g', l)). (
                    suc mined,
                    omega (arith, e),
                    (
                      subst (λ k. Grown k m'.blockchain) (omega arith) g',
                      omega (arith, l, length-append results (b ∷ [])),
                    ),
                  ))
                  (λ m' h. h)
                  (mine_while_pending-Ends interval left (k + 1) (results ++ b ∷ []) m h))
      ]

  reserve_blocks-Grown :
      (count interval root difficulty k : ℕ) (base_fee : Option ℕ) (c : HardhatBlockchain)
      → Grown k c
      → Grown (k + count) (reserve_blocks count interval root difficulty base_fee c)
  reserve_blocks-Grown count interval root difficulty k base_fee c (chain, long) =
      subst (λ k. Grown (k + count) (reserve_blocks count interval root difficulty base_fee c)) long
        (reserve_blocks-IsChain count interval root difficulty base_fee c chain)

  mine_rest-Ends :
      (interval left k : ℕ) (results : List MinedBlock) (n : HardhatNode Data)
      → Grown k n.blockchain
      → Ends
          (Reaches (k + left) (length results + left))
          HasChain
          (mine_rest ext lib vm heap clock interval left results n)
  unfolding mine_rest get_total_difficulty
  mine_rest-Ends interval zero k results n g = record {
    holds = (subst (λ k. Grown k n.blockchain) (omega arith) g, omega arith);
  }
  mine_rest-Ends interval (suc left) k results n g =
      bind-Ends _ _ (mine_after-Ends interval k n g) λ b m h. elim (Bool-cases (leb left 5)) [
        | inl few ↦
            rw (few, mine_rest)
              (Ends-more _
                (λ r m' (g', l). (
                  subst (λ k. Grown k m'.blockchain) (omega arith) g',
                  omega (arith, l, length-append results (b ∷ [])),
                ))
                (λ m' h. h) (mine_each-Ends interval left (k + 1) (results ++ b ∷ []) m h))
        | inr many ↦
            rw (many, mine_rest)
              (bind-Ends _ _
                (on_chain-Ends (get_latest_block lib) m m (k + 1) (SameClock-refl m)
                  (get_latest_block-IsChain lib (k + 1) m.blockchain h))
                λ latest m_1 w_1.
                  bind-Ends _ _
                    (on_chain-Ends (get_total_difficulty latest.hash) m m_1 (k + 1) w_1.0 w_1.1)
                    λ d m_2 w_2.
                      bind-Ends _ _
                        (mine_after-Ends interval (k + 1 + (left - 1))
                          (set_chain
                            (reserve_blocks (left - 1) interval m_2.state_root d
                              latest.base_fee_per_gas m_2.blockchain)
                            m_2)
                          (reserve_blocks-Grown (left - 1) interval m_2.state_root d (k + 1)
                            latest.base_fee_per_gas m_2.blockchain w_2.1))
                        λ last m_3 h_3. record {
                          holds = (
                            subst (λ k. Grown k m_3.blockchain) (ground (arith, many)) h_3,
                            ground (
                              arith,
                              many,
                              length-append results (b ∷ []),
                              length-append (results ++ b ∷ []) (last ∷ []),
                            ),
                          );
                        })
      ]

  -- On a valid chain `mineBlocks`, when it returns, has made the chain longer by the number of blocks
  -- that was asked for, whether they were mined or reserved; it has mined no more than that; and
  -- the chain is valid even when it throws.
  pub mine_blocks-Ends :
      (count interval : ℕ) (n : HardhatNode Data)
      → IsChain n.blockchain
      → Ends
          (Reaches (n.blockchain.length + count) count)
          HasChain
          (mine_blocks ext lib vm heap clock count interval n)
  unfolding mine_blocks
  mine_blocks-Ends zero interval n chain = record { holds = ((chain, omega arith), omega arith) }
  mine_blocks-Ends (suc left) interval n chain =
      let k = n.blockchain.length in
      bind-Ends _ _ (mine_now-Ends none k n (chain, refl)) λ first m h.
        bind-Ends _ _ (mine_while_pending-Ends interval left (k + 1) (first ∷ []) m h)
          λ (still, results) m_1 (mined, e, (g, l)).
            Ends-more _
              (λ r m_2 (g_2, l_2). (
                subst (λ k. Grown k m_2.blockchain) (omega (arith, e)) g_2,
                omega (arith, e, l, l_2),
              ))
              (λ m_2 h_2. h_2) (mine_rest-Ends interval still (k + 1 + mined) results m_1 g)
