-- ===== src/Node/Fees.antt =====
-- provider/node.ts: gas prices, the fees of a call to estimate, and the fee history of a local chain.
use polkahat.Prelude.{
  ℕ, ◌+◌, ◌*◌, ◌^◌, Bool, true, false, not, ◌||◌, Option, none, some, ltb, if◌then◌else◌,
}
use polkahat.Prelude.Outcome.{◌>>=◌, return}
use polkahat.Transaction.{Externals, Fees, gas_price, eip1559}
use polkahat.TransactionQueue.{Heap}
use polkahat.Blockchain.Data.{BlockLib}
use polkahat.Node.State.{M}
use polkahat.Node.Building.{Vm}
use polkahat.Node.Mining.{get_next_block_base_fee_per_gas}
use polkahat.Node.Contexts.{
  BlockNumberOrPending, pending, number, get_block_by_number_or_pending, existing,
}

-- HARDHAT_NETWORK_DEFAULT_MAX_PRIORITY_FEE_PER_GAS, of core/config/default-config.ts.
abbrev pub default_max_priority_fee_per_gas : ℕ
default_max_priority_fee_per_gas = 1000000000

-- What a call says of its fees, and what is made of it.
pub record CallFees : Type 0 where
  pub gas_price : Option ℕ
  pub max_fee_per_gas : Option ℕ
  pub max_priority_fee_per_gas : Option ℕ

abbrev pub fee_or_zero : Option ℕ → ℕ
fee_or_zero none = 0
fee_or_zero (some fee) = fee

-- The priority fee: the call's, or the default one unless the call's highest fee is lower.
unfoldable pub priority_fee_for : Option ℕ → Option ℕ → ℕ
priority_fee_for (some t) max_fee = t
priority_fee_for none none = default_max_priority_fee_per_gas
priority_fee_for none (some m) =
    if ltb m default_max_priority_fee_per_gas then m else default_max_priority_fee_per_gas

abbrev pub is_given : Option ℕ → Bool
is_given none = false
is_given (some p) = true

module _ {Data : Type 0} (ext : Externals Data) (lib : BlockLib) (vm : Vm) (heap : Heap)
    (now : ℕ) where
  unfoldable pub get_gas_price : M Data ℕ
  unfolding get_next_block_base_fee_per_gas
  get_gas_price = do
    base_fee ← get_next_block_base_fee_per_gas ext lib vm heap
    return (elim base_fee [ none ↦ 8 * 10 ^ 9 | some fee ↦ fee + 10 ^ 9 ])

  abbrev pub given_max_fee : ℕ → BlockNumberOrPending → Option ℕ → M Data ℕ
  given_max_fee priority block (some m) = return m
  given_max_fee priority pending none = do
    base_fee ← get_next_block_base_fee_per_gas ext lib vm heap
    return (2 * fee_or_zero base_fee + priority)
  given_max_fee priority (number i) none = do
    found ← get_block_by_number_or_pending ext lib vm heap now (number i)
    block ← existing found
    return (priority + fee_or_zero block.base_fee_per_gas)

  abbrev pub legacy_price : Option ℕ → M Data Fees
  legacy_price (some p) = return (gas_price p)
  legacy_price none = do p ← get_gas_price; return (gas_price p)

  -- `is_active` is whether EIP-1559 is active at the block.
  unfoldable pub get_estimate_gas_fee_price_fields :
      Bool → CallFees → BlockNumberOrPending → M Data Fees
  unfolding priority_fee_for get_gas_price
  get_estimate_gas_fee_price_fields is_active call block =
      if not is_active || is_given call.gas_price then legacy_price call.gas_price else (do
        let priority = priority_fee_for call.max_priority_fee_per_gas call.max_fee_per_gas
        max_fee ← given_max_fee priority block call.max_fee_per_gas
        return (eip1559 max_fee priority))
