-- ===== src/Node/Filling.antt =====
-- provider/node.ts: filling a block ends, and what it puts in fits.
use polkahat.Prelude.{ℕ, ◌+◌, ◌≤◌, ◌<◌, ◌≡◌, ◌≢◌, true, Option, none, some, All, length}
use polkahat.Prelude.Outcome.{Result, ok, throw}
use polkahat.Transaction.{OrderedTransaction}
use polkahat.TransactionQueue.{TransactionQueue, Heap, Error as QueueError}
use polkahat.Blockchain.Data.{Block}
use polkahat.Node.State.{Error, out_of_fuel}
use polkahat.Node.Building.{HeaderData, Vm, BlockBuilder, is_tx_minable}
use polkahat.Node.Sizes.{size}

module _ (vm : Vm) (heap : Heap) (parent : Block) (header : HeaderData) (min_gas_price : ℕ) where
  -- A block builder whose transactions pay enough, each with a result, and fit into the gas limit.
  pub record Fits (b : BlockBuilder) : Type 0 where
    pub within : b.gas_used ≤ header.gas_limit
    pub minable :
        All (λ tx. is_tx_minable min_gas_price header.base_fee_per_gas tx ≡ true) b.transactions
    pub one_result_each : length b.results ≡ length b.transactions

  data Handled (b : BlockBuilder) (q : TransactionQueue)
      (r : Result Error (BlockBuilder × TransactionQueue)) : Type 0 where
    refused : (e : Error) → e ≢ out_of_fuel → r ≡ throw e → Handled b q r
    went :
        (b' : BlockBuilder) (q' : TransactionQueue)
        → Fits b'
        → size q' ≤ size q
        → r ≡ ok (b', q')
        → Handled b q r

  -- What filling a block answers: a block builder that fits, or an error, which is not the fuel's.
  abbrev pub Filled : Result Error BlockBuilder → Type 0
  Filled (ok b) = Fits b
  Filled (throw e) = e ≢ out_of_fuel

  -- The queue with the transaction of the round out of it is small enough for the fuel.
  abbrev pub Lasts : ℕ → Option OrderedTransaction → TransactionQueue → Type 0
  Lasts fuel none q = 0 < fuel
  Lasts fuel (some o) q = size q + 1 < fuel
