-- ===== src/Modules/Hardhat.antt =====
-- provider/modules/hardhat.ts, the methods that change or ask the node.
use polkahat.Prelude.{ℕ, Bool, true, not, Option, none, some}
use polkahat.Prelude.Outcome.{◌>>=◌, ◌>>◌, return, get_state, modify, throw_if}
use polkahat.Transaction.{Externals}
use polkahat.TransactionQueue.{Heap}
use polkahat.Blockchain.Data.{BlockLib}
use polkahat.Node.Building.{Vm}
use polkahat.Node.Clock.{set_user_provided_next_block_base_fee_per_gas}
use polkahat.Node.Mining.{mine_block}
use polkahat.Node.Blocks.{mine_blocks}
use polkahat.Node.Accounts.{
  add_impersonated_account, remove_impersonated_account, set_min_gas_price, set_coinbase,
  set_prev_randao, drop_transaction, set_account_balance, set_next_confirmed_nonce,
}
use polkahat.Modules.Evm.{
  M, on_node, not_supported_with_eip1559, not_active_eip1559, not_post_merge,
}

abbrev pub given_or_one : Option ℕ → ℕ
given_or_one none = 1
given_or_one (some n) = n

module _ {Data : Type 0} where
  unfoldable pub impersonate_action : ℕ → M Data Bool
  impersonate_action address = do on_node (modify (add_impersonated_account address)); return true

  unfoldable pub stop_impersonating_action : ℕ → M Data Bool
  stop_impersonating_action address = on_node (remove_impersonated_account address)

  unfoldable pub get_automine : M Data Bool
  get_automine = do s ← get_state; return s.node.automine

  unfoldable pub set_coinbase_action : ℕ → M Data Bool
  set_coinbase_action address = do on_node (modify (set_coinbase address)); return true

module _ {Data : Type 0} (ext : Externals Data) (vm : Vm) where
  unfoldable pub set_min_gas_price_action : ℕ → M Data Bool
  set_min_gas_price_action min_gas_price = do
    throw_if vm.is_eip1559_active not_supported_with_eip1559
    on_node (modify (set_min_gas_price min_gas_price))
    return true

  unfoldable pub drop_transaction_action : ℕ → M Data Bool
  drop_transaction_action hash = on_node (drop_transaction ext vm hash)

  unfoldable pub set_balance_action : ℕ → ℕ → M Data Bool
  set_balance_action address new_balance = do
    on_node (modify (set_account_balance ext vm address new_balance))
    return true

  unfoldable pub set_nonce_action : ℕ → ℕ → M Data Bool
  set_nonce_action address new_nonce = do
    on_node (set_next_confirmed_nonce ext vm address new_nonce)
    return true

  unfoldable pub set_next_block_base_fee_per_gas_action : ℕ → M Data Bool
  set_next_block_base_fee_per_gas_action base_fee_per_gas = do
    throw_if (not vm.is_eip1559_active) not_active_eip1559
    on_node (modify (set_user_provided_next_block_base_fee_per_gas base_fee_per_gas))
    return true

  unfoldable pub set_prev_randao_action : ℕ → M Data Bool
  set_prev_randao_action prev_randao = do
    throw_if (not vm.is_post_merge) not_post_merge
    on_node (modify (set_prev_randao prev_randao))
    return true

module _ {Data : Type 0} (ext : Externals Data) (lib : BlockLib) (vm : Vm) (heap : Heap)
    (clock : ℕ → ℕ) where
  unfoldable pub interval_mine_action : M Data Bool
  interval_mine_action = do
    s ← get_state
    result ← on_node (mine_block ext lib vm heap (clock s.node.blockchain.length) none)
    return true

  unfoldable pub hardhat_mine_action : Option ℕ → Option ℕ → M Data Bool
  hardhat_mine_action block_count interval = do
    results ←
        on_node
          (mine_blocks ext lib vm heap clock (given_or_one block_count) (given_or_one interval))
    return true
