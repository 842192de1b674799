-- ===== src/Node/Accounts.antt =====
-- provider/node.ts: settings, accounts that are impersonated or rewritten, and dropped transactions.
use polkahat.Prelude.{ℕ, ◌-◌, Bool, true, false, not, ◌&&◌, Option, none, some, ltb, if◌then◌else◌}
use polkahat.Prelude.Outcome.{ok, throw, ◌>>=◌, ◌>>◌, return, get_state, modify, throw_if}
use polkahat.Map
use polkahat.Transaction.{Externals}
use polkahat.TxPool.State.{Account, is_empty, nonce_of, balance_of, set_block_gas_limit}
use polkahat.TxPool.Remove.{remove_transaction, update_pending_and_queued}
use polkahat.Blockchain.Chain.{get_transaction_receipt}
use polkahat.Node.State.{
  HardhatNode, M, already_mined, pool_not_empty, nonce_below_existing, unknown_account, on_pool,
  set_pool,
}
use polkahat.Node.Building.{Vm}

abbrev is_some : Option (Unit {0}) → Bool
is_some none = false
is_some (some u) = true

module _ {Data : Type 0} where
  unfoldable pub add_impersonated_account : ℕ → HardhatNode Data → HardhatNode Data
  add_impersonated_account address n = record n {
    impersonated_accounts = Map.put address tt n.impersonated_accounts;
  }

  -- `Set.delete`, which says whether the address was there.
  unfoldable pub remove_impersonated_account : ℕ → M Data Bool
  remove_impersonated_account address n = (
    ok (is_some (Map.get address n.impersonated_accounts)),
    record n { impersonated_accounts = Map.delete address n.impersonated_accounts },
  )

  -- Who signs: an own key, nobody for an impersonated account, or an error.
  unfoldable pub signing_key : ℕ → M Data (Option ℕ)
  signing_key address n = elim (Map.get address n.local_accounts) [
    | some key ↦ (ok (some key), n)
    | none ↦
        if is_some (Map.get address n.impersonated_accounts)
        then (ok none, n)
        else (throw unknown_account, n)
  ]

  unfoldable pub set_automine : Bool → HardhatNode Data → HardhatNode Data
  set_automine automine n = record n { automine = automine }

  unfoldable pub set_min_gas_price : ℕ → HardhatNode Data → HardhatNode Data
  set_min_gas_price price n = record n { min_gas_price = price }

  unfoldable pub set_coinbase : ℕ → HardhatNode Data → HardhatNode Data
  set_coinbase coinbase n = record n { coinbase = coinbase }

  unfoldable pub set_prev_randao : ℕ → HardhatNode Data → HardhatNode Data
  set_prev_randao value n = record n { mix_hash_generator = value }

  -- The key is the number of the latest block. A node has at least its first block.
  unfoldable pub persist_irregular_world_state : HardhatNode Data → HardhatNode Data
  persist_irregular_world_state n = record n {
    irregular_states_by_block_number =
        Map.put (n.blockchain.length - 1) n.state_root n.irregular_states_by_block_number;
  }

module _ {Data : Type 0} (ext : Externals Data) (vm : Vm) where
  unfoldable pub set_node_block_gas_limit : ℕ → M Data (Unit {0})
  unfolding set_block_gas_limit update_pending_and_queued
  set_node_block_gas_limit limit = do
    modify (λ n. set_pool (set_block_gas_limit limit n.tx_pool) n)
    n ← get_state
    on_pool (update_pending_and_queued ext (vm.account_at n.state_root))

  unfoldable pub is_transaction_mined : ℕ → HardhatNode Data → Bool
  unfolding get_transaction_receipt
  is_transaction_mined hash n = elim (get_transaction_receipt hash n.blockchain) [
    | none ↦ false
    | some receipt ↦ true
  ]

  unfoldable pub drop_transaction : ℕ → M Data Bool
  unfolding remove_transaction is_transaction_mined
  drop_transaction hash = do
    removed ← on_pool (remove_transaction ext hash)
    n ← get_state
    throw_if (not removed && is_transaction_mined hash n) already_mined
    return removed

  abbrev pub write_account : ℕ → Account → HardhatNode Data → HardhatNode Data
  write_account address a n = record n { state_root = vm.put_account n.state_root address a }

  unfoldable pub set_account_balance : ℕ → ℕ → HardhatNode Data → HardhatNode Data
  unfolding persist_irregular_world_state
  set_account_balance address balance n = persist_irregular_world_state (
      write_account address
        (record { nonce = nonce_of (vm.account_at n.state_root address); balance = balance }) n)

  unfoldable pub set_next_confirmed_nonce : ℕ → ℕ → M Data (Unit {0})
  unfolding is_empty persist_irregular_world_state
  set_next_confirmed_nonce address new_nonce = do
    n ← get_state
    throw_if (not (is_empty n.tx_pool)) pool_not_empty
    let account = vm.account_at n.state_root address
    throw_if (ltb new_nonce (nonce_of account)) nonce_below_existing
    modify (write_account address (record { nonce = new_nonce; balance = balance_of account }))
    modify persist_irregular_world_state
