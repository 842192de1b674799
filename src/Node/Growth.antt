-- ===== src/Node/Growth.antt =====
-- provider/node.ts: the chain, the clock and the state root when a block was mined.
use polkahat.Prelude.{ℕ, ◌+◌, ◌≡◌, refl, subst, inl, inr, List, [], ◌∷◌, Option-cases}
use polkahat.Prelude.Outcome.{Result, ok, bind, Ends, Ended, bind-Ends}
use polkahat.Transaction.{Externals}
use polkahat.TxPool.Remove.{update_pending_and_queued}
use polkahat.TransactionQueue.{Heap}
use polkahat.Blockchain.Data.{
  Block, BlockLib, RpcReceiptOutput, BlockchainData, Error as ChainError, add_transaction_receipt,
  get_stored_difficulty,
}
use polkahat.Blockchain.Reservations.{is_reserved_block}
use polkahat.Blockchain.Chain.{
  HardhatBlockchain, get_latest_block, get_total_difficulty, add_block, add_receipts,
  add_transaction_receipts,
}
use polkahat.Blockchain.Growth.{IsChain, Grown}
use polkahat.Blockchain.Appending.{Adds, refused, added, add_block-Adds}
use polkahat.Node.State.{HardhatNode, map_error, chain_error, on_pool, on_chain, set_chain}
use polkahat.Node.Building.{TxResult, Vm, MinedBlock}
use polkahat.Node.Mining.{rpc_receipts, mine_block_with_pending_txs, save_block_as_successfully_run}
use polkahat.Node.Frames.{
  SameClock, Within, HasChain, on_chain-Ends, on_pool-Ends, run_block_builder-Ends,
  get_next_mix_hash-Ends, get_latest_block-IsChain, get_next_parent_beacon_block_root-Ends,
  get_next_block_base_fee_per_gas-Ends,
}

add_transaction_receipt-IsChain :
    (receipt : RpcReceiptOutput) (length : ℕ) (d : BlockchainData)
    → IsChain (record { length = length; chain_data = d })
    → IsChain (record { length = length; chain_data = add_transaction_receipt receipt d })
unfolding add_transaction_receipt is_reserved_block
add_transaction_receipt-IsChain receipt length d k = record {
  consistent = record {
    disjoint = k.consistent.disjoint;
    numbered = k.consistent.numbered;
    exclusive = k.consistent.exclusive;
  };
  stored_below = k.stored_below;
  reserved_below = k.reserved_below;
}

add_receipts-IsChain :
    (receipts : List RpcReceiptOutput) (length : ℕ) (d : BlockchainData)
    → IsChain (record { length = length; chain_data = d })
    → IsChain (record { length = length; chain_data = add_receipts receipts d })
unfolding add_receipts
add_receipts-IsChain [] length d k = k
add_receipts-IsChain (r ∷ rs) length d k =
    add_receipts-IsChain rs length (add_transaction_receipt r d)
      (add_transaction_receipt-IsChain r length d k)

add_transaction_receipts-Grown :
    (receipts : List RpcReceiptOutput) (k : ℕ) (c : HardhatBlockchain)
    → Grown k c
    → Grown k (add_transaction_receipts receipts c)
unfolding add_transaction_receipts
add_transaction_receipts-Grown receipts k c (g, long) =
    (add_receipts-IsChain receipts c.length c.chain_data g, long)

module _ {Data : Type 0} where
  -- A block was put on a chain of `k` blocks, at a time, and nothing was done to the clock yet.
  pub record Mined (n : HardhatNode Data) (k t : ℕ) (mined : MinedBlock) (m : HardhatNode Data)
      : Type 0 where
    pub clock : SameClock n m
    pub grown : Grown (k + 1) m.blockchain
    pub number : mined.block.number ≡ k
    pub timestamp : mined.block.timestamp ≡ t
    pub root : m.state_root ≡ mined.block.state_root

  add_block-Ended :
      (lib : BlockLib) (block : Block) (n m : HardhatNode Data) (k : ℕ)
      (r : Result ChainError Block × HardhatBlockchain)
      → SameClock n m
      → Adds lib block k r
      → Ended
          (λ a m. Within n (k + 1) m × (block.number ≡ k))
          HasChain
          (map_error chain_error r.0, set_chain r.1 m)
  add_block-Ended lib block n m k _ c (refused e d g) = g.0
  add_block-Ended lib block n m k _ c (added d at_end g found) =
      ((record { offset = c.offset; next = c.next; base_fee = c.base_fee }, g), at_end)

  add_block-Ends :
      (lib : BlockLib) (block : Block) (n m : HardhatNode Data) (k : ℕ)
      → Within n k m
      → Ends
          (λ a m. Within n (k + 1) m × (block.number ≡ k))
          HasChain
          (on_chain (add_block lib block) m)
  add_block-Ends lib block n m k (c, (chain, long)) = record {
    holds = add_block-Ended lib block n m k (add_block lib block m.blockchain) c (
        subst (λ k. Adds lib block k (add_block lib block m.blockchain)) long
          (add_block-Adds lib block m.blockchain chain));
  }

module _ {Data : Type 0} (ext : Externals Data) (lib : BlockLib) (vm : Vm) (heap : Heap) where
  -- What follows once the block is on the chain.
  finish-Ends :
      (block : Block) (t : ℕ) (results : List TxResult) (n m : HardhatNode Data) (k : ℕ)
      → Within n (k + 1) m
      → block.number ≡ k
      → block.timestamp ≡ t
      → Ends (Mined n k t) HasChain (
          bind
            (λ u m'. (ok (record { block = block; results = results }), m'))
            (on_pool
              (update_pending_and_queued ext (vm.account_at block.state_root))
              (record m { state_root = block.state_root })))
  finish-Ends block t results n m k (c, g) number timestamp =
      bind-Ends _ _
        (on_pool-Ends (update_pending_and_queued ext (vm.account_at block.state_root)) n rooted
          (k + 1) block.state_root
          (record { offset = c.offset; next = c.next; base_fee = c.base_fee }, g) refl)
        λ u m' (w, root). record {
          holds = record {
            clock = w.0;
            grown = w.1;
            number = number;
            timestamp = timestamp;
            root = root;
          };
        }
    where
      rooted : HardhatNode Data
      rooted = record m { state_root = block.state_root }

  pub mine_block_with_pending_txs-Ends :
      (t : ℕ) (n m : HardhatNode Data) (k : ℕ)
      → Within n k m
      → Ends (Mined n k t) HasChain (mine_block_with_pending_txs ext lib vm heap t m)
  unfolding mine_block_with_pending_txs
  mine_block_with_pending_txs-Ends t n m k (c, g) =
      bind-Ends _ _
        (on_chain-Ends (get_latest_block lib) n m k c
          (get_latest_block-IsChain lib k m.blockchain g))
        λ parent m_1 w_1.
          bind-Ends _ _ (get_next_mix_hash-Ends ext lib vm heap n m_1 k w_1) λ mix m_2 w_2.
            bind-Ends _ _ (get_next_parent_beacon_block_root-Ends ext lib vm heap n m_2 k w_2)
              λ beacon m_3 w_3.
                bind-Ends _ _ (get_next_block_base_fee_per_gas-Ends ext lib vm heap n m_3 k w_3)
                  λ fee m_4 w_4.
                    bind-Ends _ _ (run_block_builder-Ends ext lib vm heap parent _ n m_4 k w_4)
                      λ builder m_5 w_5.
                        bind-Ends _ _ (add_block-Ends lib _ n m_5 k w_5) λ b m_6 (w_6, number).
                          finish-Ends _ t _ n m_6 k w_6 number (vm.build-timestamp _ _ _)

  pub save_block_as_successfully_run-Ends :
      (now t k : ℕ) (mined : MinedBlock) (n m : HardhatNode Data)
      → Mined n k t mined m
      → Ends
          (λ u. Mined n k t mined)
          HasChain
          (save_block_as_successfully_run ext lib vm heap now mined m)
  unfolding save_block_as_successfully_run get_total_difficulty
  save_block_as_successfully_run-Ends now t k mined n m w =
      elim (Option-cases (
        get_stored_difficulty mined.block.hash
          (add_transaction_receipts receipts m.blockchain).chain_data)) [
            | inl e ↦ rw (e, save_block_as_successfully_run) (record { holds = g.0 })
            | inr (d, e) ↦
                rw (e, save_block_as_successfully_run)
                  (record {
                    holds = record {
                      clock = record {
                        offset = w.clock.offset;
                        next = w.clock.next;
                        base_fee = w.clock.base_fee;
                      };
                      grown = g;
                      number = w.number;
                      timestamp = w.timestamp;
                      root = w.root;
                    };
                  })
          ]
    where
      receipts : List RpcReceiptOutput
      receipts = rpc_receipts mined.block mined.block.transactions mined.results

      g : Grown (k + 1) (add_transaction_receipts receipts m.blockchain)
      g = add_transaction_receipts-Grown receipts (k + 1) m.blockchain w.grown
