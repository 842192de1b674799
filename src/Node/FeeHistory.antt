-- ===== src/Node/FeeHistory.antt =====
-- provider/node.ts: the fee history of a local chain.
pub mod Lengths
pub mod Reading
use polkahat.Prelude.{
  ℕ, zero, suc, ◌+◌, ◌-◌, ◌*◌, ◌/◌, List, [], ◌∷◌, ◌++◌, map, Bool, true, false, Option, none, some,
  ltb, leb, ◌==◌, if◌then◌else◌,
}
use polkahat.Prelude.Int.{ℤ, pos, sub_ℕ, ltb_ℤ}
use polkahat.Prelude.Outcome.{Result, ok, throw, ◌>>=◌, return, fail, get_state}
use polkahat.BigInt.{min_ℤ}
use polkahat.Transaction.{TypedTransaction, Externals, Fees, gas_price, eip1559}
use polkahat.TransactionQueue.{Heap}
use polkahat.Blockchain.Data.{Block, BlockLib, RpcReceiptOutput}
use polkahat.Blockchain.Chain.{get_transaction_receipt}
use polkahat.Node.State.{HardhatNode, M, Error, invariant_broken}
use polkahat.Node.Building.{Vm}
use polkahat.Node.Fees.{fee_or_zero}
use polkahat.Node.Mining.{get_next_block_base_fee_per_gas}
use polkahat.Node.Contexts.{
  BlockNumberOrPending, pending, number, get_block_by_number_or_pending, existing,
}

-- A share of the gas limit in hundred thousandths; the source divides it by 100000 in a float.
unfoldable pub gas_used_ratio : Block → ℕ
gas_used_ratio block = block.gas_used * 100000 / block.gas_limit

-- `effectiveGasReward`, which is negative for a transaction below the base fee.
unfoldable pub effective_gas_reward : Fees → ℕ → ℤ
unfolding min_ℤ
effective_gas_reward (gas_price p) base_fee = sub_ℕ p base_fee
effective_gas_reward (eip1559 m t) base_fee = min_ℤ (sub_ℕ m base_fee) (pos t)

-- `sort` by the reward, which is stable: insertion behind what is not greater.
unfoldable pub insert_reward : ℤ × ℕ → List (ℤ × ℕ) → List (ℤ × ℕ)
insert_reward r [] = r ∷ []
insert_reward r (s ∷ rest) = if ltb_ℤ r.0 s.0 then r ∷ s ∷ rest else s ∷ insert_reward r rest

unfoldable pub sort_rewards_onto : List (ℤ × ℕ) → List (ℤ × ℕ) → List (ℤ × ℕ)
unfolding insert_reward
sort_rewards_onto sorted [] = sorted
sort_rewards_onto sorted (r ∷ rest) = sort_rewards_onto (insert_reward r sorted) rest

-- The loop over the sorted transactions, with the gas so far and the last reward seen.
unfoldable pub reward_at : ℕ → ℕ → ℤ → List (ℤ × ℕ) → ℤ
reward_at target_gas gas_used last [] = last
reward_at target_gas gas_used last ((reward, gas) ∷ rest) =
    let later = reward_at target_gas (gas_used + gas) reward rest in
    if leb target_gas (gas_used + gas) then reward else later

-- A receipt that is missing is an error, where the source reads `gasUsed` of undefined.
abbrev pub receipt_gas : Option RpcReceiptOutput → Option ℕ
receipt_gas none = none
receipt_gas (some r) = some r.gas_used

abbrev pub with_gas : ℤ → Option ℕ → Option (List (ℤ × ℕ)) → Option (List (ℤ × ℕ))
with_gas reward none rest = none
with_gas reward (some gas) none = none
with_gas reward (some gas) (some rest) = some ((reward, gas) ∷ rest)

abbrev pub rewards_of : Block → List ℕ → Option (List (ℤ × ℕ)) → Result Error (List ℤ)
rewards_of block percentiles none = throw invariant_broken
rewards_of block percentiles (some rewards) = ok (
    map
      (λ p.
        reward_at (block.gas_limit * p / (100 * 100000)) 0 (pos 0) (sort_rewards_onto [] rewards))
      percentiles)

module _ {Data : Type 0} where
  unfoldable pub rewards_and_gas :
      HardhatNode Data → ℕ → List TypedTransaction → Option (List (ℤ × ℕ))
  unfolding get_transaction_receipt effective_gas_reward
  rewards_and_gas n base_fee [] = some []
  rewards_and_gas n base_fee (tx ∷ txs) =
      with_gas (effective_gas_reward tx.fees base_fee)
        (receipt_gas (get_transaction_receipt tx.hash n.blockchain))
        (rewards_and_gas n base_fee txs)

  -- A percentile is given in hundred thousandths, rounded up.
  unfoldable pub get_rewards : Block → List ℕ → M Data (List ℤ)
  unfolding sort_rewards_onto reward_at rewards_and_gas
  get_rewards block percentiles n = elim block.transactions [
    | [] ↦ (ok (map (λ p. pos 0) percentiles), n)
    | tx ∷ txs ↦ (
      rewards_of block percentiles
          (rewards_and_gas n (fee_or_zero block.base_fee_per_gas) block.transactions),
      n,
    )
  ]

-- The reward is left out when there are no percentiles.
pub record FeeHistory : Type 0 where
  pub oldest_block : ℕ
  pub base_fee_per_gas : List ℕ
  pub gas_used_ratio : List ℕ
  pub reward : Option (List (List ℤ))

abbrev pub resolved : ℕ → BlockNumberOrPending → ℕ
resolved pending_number pending = pending_number
resolved pending_number (number i) = i

abbrev pub push_reward : List ℤ → Option (List (List ℤ)) → Option (List (List ℤ))
push_reward rewards none = none
push_reward rewards (some so_far) = some (so_far ++ rewards ∷ [])

abbrev pub push_base_fee : ℕ → FeeHistory → FeeHistory
push_base_fee base_fee h = record h { base_fee_per_gas = h.base_fee_per_gas ++ base_fee ∷ [] }

abbrev pub push_usage : ℕ → List ℤ → FeeHistory → FeeHistory
push_usage ratio rewards h = record h {
  gas_used_ratio = h.gas_used_ratio ++ ratio ∷ [];
  reward = push_reward rewards h.reward;
}

abbrev pub empty_rewards : List ℕ → Option (List (List ℤ))
empty_rewards [] = none
empty_rewards (p ∷ ps) = some []

module _ {Data : Type 0} where
  -- `_getRewards` is called only when there are percentiles.
  abbrev pub get_rewards_if : List ℕ → Block → M Data (List ℤ)
  get_rewards_if [] block = return []
  get_rewards_if (p ∷ ps) block = get_rewards block (p ∷ ps)

module _ {Data : Type 0} (ext : Externals Data) (lib : BlockLib) (vm : Vm) (heap : Heap)
    (now : ℕ) where
  -- The fees and the usage of a block, in a round of the loop: a block of the chain, the block to
  -- come (`pending_number`), and the one behind it, of which only the base fee is known.
  unfoldable pub history_of_block :
      List ℕ → ℕ → Option Block → ℕ → ℕ → FeeHistory → M Data FeeHistory
  history_of_block percentiles last_block pending_block pending_number i h =
      if ltb i pending_number
      then (do
        found ← get_block_by_number_or_pending ext lib vm heap now (number i)
        block ← existing found
        let h_1 = push_base_fee (fee_or_zero block.base_fee_per_gas) h
        if ltb i last_block
            then (do
              rewards ← get_rewards_if percentiles block
              return (push_usage (gas_used_ratio block) rewards h_1))
            else return h_1)
      else if i == pending_number
      then (do
        base_fee ← get_next_block_base_fee_per_gas ext lib vm heap
        let h_1 = push_base_fee (fee_or_zero base_fee) h
        if ltb i last_block
            then (do
              block ← existing pending_block
              return (push_usage (gas_used_ratio block) (map (λ p. pos 0) percentiles) h_1))
            else return h_1)
      else if i == pending_number + 1
      then (do
        block ← existing pending_block
        return (push_base_fee (vm.calc_next_base_fee block) h))
      else fail invariant_broken

  unfoldable pub history_from :
      List ℕ → ℕ → Option Block → ℕ → ℕ → ℕ → FeeHistory → M Data FeeHistory
  history_from percentiles last_block pending_block pending_number zero i h = return h
  history_from percentiles last_block pending_block pending_number (suc left) i h = do
    h ← history_of_block percentiles last_block pending_block pending_number i h
    history_from percentiles last_block pending_block pending_number left (i + 1) h

  abbrev pub pending_block_if : Bool → M Data (Option Block)
  pending_block_if true = get_block_by_number_or_pending ext lib vm heap now pending
  pending_block_if false = return none

  unfoldable pub get_fee_history : ℕ → BlockNumberOrPending → List ℕ → M Data FeeHistory
  get_fee_history block_count newest_block percentiles = do
    n ← get_state
    let pending_number = n.blockchain.length
    let oldest_block = resolved pending_number newest_block + 1 - block_count
    let last_block = resolved pending_number newest_block + 1
    pending_block ← pending_block_if (leb pending_number last_block)
    history_from percentiles last_block pending_block pending_number (last_block + 1 - oldest_block)
        oldest_block
        (record {
          oldest_block = oldest_block;
          base_fee_per_gas = [];
          gas_used_ratio = [];
          reward = empty_rewards percentiles;
        })
