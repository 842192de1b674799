-- ===== src/Node/Contexts.antt =====
-- provider/node.ts: running something on the state of another block, or of a block that is mined
-- for it and dropped again.
use polkahat.Prelude.{ℕ, ◌+◌, Option, none, some, ◌==◌, if◌then◌else◌}
use polkahat.Prelude.Outcome.{Result, ok, throw, bind, ◌>>=◌, ◌>>◌, return, fail, get_state, modify}
use polkahat.Map
use polkahat.Transaction.{Externals}
use polkahat.TxPool.State.{next_pending_nonce, nonce_of, balance_of}
use polkahat.TransactionQueue.{Heap}
use polkahat.Blockchain.Data.{Block, BlockLib, block_not_found}
use polkahat.Blockchain.Chain.{by_number, get_block, get_latest_block}
use polkahat.Node.State.{HardhatNode, M, Error, chain_error, on_chain}
use polkahat.Node.Snapshots.{or_else, take_snapshot, revert_to_snapshot}
use polkahat.Node.Building.{Vm}
use polkahat.Node.Mining.{mine_block}

pub data BlockNumberOrPending : Type 0 where
  pending : BlockNumberOrPending
  number : ℕ → BlockNumberOrPending

module _ {Data : Type 0} where
  -- `try { … } catch { return undefined; }`
  abbrev pub or_undefined :
      {A : Type 0} → Result Error A × HardhatNode Data → Result Error (Option A) × HardhatNode Data
  or_undefined (ok a, n) = (ok (some a), n)
  or_undefined (throw e, n) = (ok none, n)

  -- `try { … } finally { … }`: an error of the last part takes the place of what was to come.
  abbrev pub finally :
      {A B : Type 0}
      → M Data B
      → Result Error A × HardhatNode Data
      → Result Error A × HardhatNode Data
  finally last (r, n) = bind (λ done n'. (r, n')) (last n)

  abbrev pub set_state_root : ℕ → HardhatNode Data → HardhatNode Data
  set_state_root root n = record n { state_root = root }

  -- What is undefined and used with `!` is an error.
  abbrev pub existing : Option Block → M Data Block
  existing none = fail (chain_error block_not_found)
  existing (some b) = return b

module _ {Data : Type 0} (ext : Externals Data) (lib : BlockLib) (vm : Vm) (heap : Heap)
    (now : ℕ) where
  unfoldable pub run_in_pending_block_context : {A : Type 0} → M Data A → M Data A
  unfolding take_snapshot mine_block revert_to_snapshot
  run_in_pending_block_context action = do
    snapshot_id ← take_snapshot lib now
    λ n.
        finally (revert_to_snapshot lib now snapshot_id)
          ((do mined ← mine_block ext lib vm heap now none; action) n)

  unfoldable pub get_block_by_number_or_pending : BlockNumberOrPending → M Data (Option Block)
  unfolding run_in_pending_block_context get_block
  get_block_by_number_or_pending pending n =
      (do
        block ← run_in_pending_block_context (on_chain (get_latest_block lib))
        return (some block))
        n
  get_block_by_number_or_pending (number i) n =
      or_undefined (on_chain (get_block lib (by_number i)) n)

  -- A local chain: with no fork the context is just the state root.
  unfoldable pub run_in_block_context : {A : Type 0} → BlockNumberOrPending → M Data A → M Data A
  unfolding run_in_pending_block_context get_block_by_number_or_pending
  run_in_block_context pending action = run_in_pending_block_context action
  run_in_block_context (number i) action = do
    n ← get_state
    if i + 1 == n.blockchain.length then action else (do
      found ← get_block_by_number_or_pending (number i)
      block ← existing found
      n ← get_state
      let current_state_root = n.state_root
      modify (
          set_state_root
            (or_else (Map.get block.number n.irregular_states_by_block_number) block.state_root))
      λ n. finally (λ n. (ok tt, set_state_root current_state_root n)) (action n))

  unfoldable pub get_account_balance : ℕ → BlockNumberOrPending → M Data ℕ
  unfolding run_in_block_context
  get_account_balance address block =
      run_in_block_context block
        (do n ← get_state; return (balance_of (vm.account_at n.state_root address)))

  unfoldable pub get_next_confirmed_nonce : ℕ → BlockNumberOrPending → M Data ℕ
  unfolding run_in_block_context
  get_next_confirmed_nonce address block =
      run_in_block_context block
        (do n ← get_state; return (nonce_of (vm.account_at n.state_root address)))

  unfoldable pub get_nonce : ℕ → BlockNumberOrPending → M Data ℕ
  unfolding get_next_confirmed_nonce
  get_nonce address pending n =
      (ok (next_pending_nonce ext (vm.account_at n.state_root) n.tx_pool address), n)
  get_nonce address (number i) n = get_next_confirmed_nonce address (number i) n
