-- ===== src/Blockchain/Logs.antt =====
-- provider/BlockchainData.ts: `getLogs`.
use polkahat.Prelude.{
  ℕ, zero, suc, ◌+◌, ◌-◌, List, [], ◌∷◌, ◌++◌, not, Option, none, some, ◌==◌, if◌then◌else◌,
}
use polkahat.Prelude.Int.{ℤ, pos, negsuc, pos_part, neg_part}
use polkahat.Map
use polkahat.Transaction.{TypedTransaction}
use polkahat.Filter.{RpcLogOutput, FilterCriteria, bloom_filter, filter_logs}
use polkahat.Blockchain.Data.{Block, BlockLib, BlockchainData, get_block_by_number}

module _ (lib : BlockLib) where
  -- The inner loop of `getLogs`: the logs of a block's receipts.
  unfoldable pub logs_of_transactions :
      BlockchainData → FilterCriteria → List TypedTransaction → List RpcLogOutput
  unfolding filter_logs
  logs_of_transactions d params [] = []
  logs_of_transactions d params (tx ∷ txs) =
      let rest = logs_of_transactions d params txs in
      elim (Map.get tx.hash d.transaction_receipts) [
        | none ↦ rest
        | some receipt ↦ filter_logs receipt.logs params ++ rest
      ]

  -- The body of the outer loop.
  unfoldable pub logs_of_block : BlockchainData → FilterCriteria → Option Block → List RpcLogOutput
  unfolding bloom_filter logs_of_transactions
  logs_of_block d params none = []
  logs_of_block d params (some block) =
      if not (bloom_filter (lib.check block.logs_bloom) params.addresses params.normalized_topics)
      then []
      else logs_of_transactions d params block.transactions

  abbrev block_at : ℤ → BlockchainData → Option Block
  block_at (pos n) d = get_block_by_number n d
  block_at (negsuc n) d = none

  abbrev next : ℤ → ℤ
  next (pos n) = pos (n + 1)
  next (negsuc n) = if n == 0 then pos 0 else negsuc (n - 1)

  -- `count` rounds of the outer loop, from block `i` on.
  unfoldable pub logs_from : BlockchainData → FilterCriteria → ℕ → ℤ → List RpcLogOutput
  unfolding logs_of_block
  logs_from d params zero i = []
  logs_from d params (suc count) i =
      logs_of_block d params (block_at i d) ++ logs_from d params count (next i)

  unfoldable pub get_logs : FilterCriteria → BlockchainData → List RpcLogOutput
  unfolding logs_from
  get_logs params d =
      logs_from d params
        (pos_part params.to_block
          + neg_part params.from_block
          + 1
          - (pos_part params.from_block + neg_part params.to_block))
        params.from_block
