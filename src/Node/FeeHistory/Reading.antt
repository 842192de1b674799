-- ===== src/Node/FeeHistory/Reading.antt =====
-- provider/node.ts: which blocks a fee history of mined blocks tells of.
use polkahat.Prelude.{ℕ, ◌+◌, ◌≤◌, ◌≡◌, List, [], ◌∷◌, Option, none, some, length}
use polkahat.Blockchain.Data.{Block, BlockchainData, get_block_by_number, Error as ChainError}
use polkahat.Blockchain.Growth.{Grown}
use polkahat.Blockchain.Serving.{Keeps}
use polkahat.Node.State.{HardhatNode, Error}
use polkahat.Node.Fees.{fee_or_zero}
use polkahat.Node.FeeHistory.{FeeHistory, gas_used_ratio}
use polkahat.Node.FeeHistory.Lengths.{HasLengths}

-- The entries, from block `i` on, are what `f` reads from the stored blocks.
abbrev pub ReadsFrom : (Block → ℕ) → BlockchainData → ℕ → List ℕ → Type 0
ReadsFrom f d i [] = Unit {0}
ReadsFrom f d i (x ∷ xs) =
    ((b : Block) × ((get_block_by_number i d ≡ some b) × (x ≡ f b))) × ReadsFrom f d (i + 1) xs

-- A history that has come up to block `i`, on a valid chain of `k` blocks.
pub record ReadsUpTo {Data : Type 0} (k last i : ℕ) (h : FeeHistory) (n : HardhatNode Data)
    : Type 0 where
  pub chain : Grown k n.blockchain
  pub count : h.oldest_block + length h.base_fee_per_gas ≡ i
  pub ratio_count : i ≤ last → h.oldest_block + length h.gas_used_ratio ≡ i
  pub fees :
      ReadsFrom
        (λ b. fee_or_zero b.base_fee_per_gas)
        n.blockchain.chain_data
        h.oldest_block
        h.base_fee_per_gas
  pub ratios : ReadsFrom gas_used_ratio n.blockchain.chain_data h.oldest_block h.gas_used_ratio

module _ {Data : Type 0} where
  -- The chain after a block was read.
  abbrev Read : ℕ → ℕ → HardhatNode Data → Block → HardhatNode Data → Type 0
  Read k i n b m =
      Grown k m.blockchain
      × Keeps n.blockchain.chain_data m.blockchain.chain_data
      × (get_block_by_number i m.blockchain.chain_data ≡ some b)

  abbrev Found : ℕ → ℕ → HardhatNode Data → Option Block → HardhatNode Data → Type 0
  Found k i n none m = Unit {0}
  Found k i n (some b) m = Read k i n b m

-- The history of `count` blocks of a chain up to `newest`, or of all there are, with what it tells
-- of each: the base fees of the blocks and of the next one, and the ratios of the blocks.
pub record IsHistory {Data : Type 0} (newest count : ℕ) (percentiles : List ℕ) (h : FeeHistory)
    (m : HardhatNode Data) : Type 0 where
  pub lengths : HasLengths newest count percentiles h
  pub fees :
      ReadsFrom
        (λ b. fee_or_zero b.base_fee_per_gas)
        m.blockchain.chain_data
        h.oldest_block
        h.base_fee_per_gas
  pub ratios : ReadsFrom gas_used_ratio m.blockchain.chain_data h.oldest_block h.gas_used_ratio
