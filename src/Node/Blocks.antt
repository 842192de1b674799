-- ===== src/Node/Blocks.antt =====
-- provider/node.ts: mining many blocks, most of which are only reserved. `clock` is the time when
-- the chain has a length; `left` counts the blocks that are still to come.
use polkahat.Prelude.{
  ℕ, zero, suc, ◌+◌, ◌-◌, List, [], ◌∷◌, ◌++◌, Option, none, some, leb, if◌then◌else◌,
}
use polkahat.Prelude.Outcome.{◌>>=◌, ◌>>◌, return, get_state, modify}
use polkahat.Transaction.{Externals}
use polkahat.TxPool.State.{has_pending_transactions}
use polkahat.TransactionQueue.{Heap}
use polkahat.Blockchain.Data.{BlockLib}
use polkahat.Blockchain.Chain.{get_latest_block, get_total_difficulty, reserve_blocks}
use polkahat.Node.State.{M, on_chain, set_chain}
use polkahat.Node.Building.{Vm, MinedBlock}
use polkahat.Node.Mining.{mine_block}

module _ {Data : Type 0} (ext : Externals Data) (lib : BlockLib) (vm : Vm) (heap : Heap)
    (clock : ℕ → ℕ) where
  abbrev pub mine_now : Option ℕ → M Data MinedBlock
  mine_now timestamp = do
    n ← get_state
    mine_block ext lib vm heap (clock n.blockchain.length) timestamp

  -- The helper inside `mineBlocks`.
  unfoldable pub mine_after : ℕ → M Data MinedBlock
  mine_after interval = do
    latest_block ← on_chain (get_latest_block lib)
    mine_now (some (latest_block.timestamp + interval))

  -- `while (count > mined && pending)`: the results, and how many are left.
  unfoldable pub mine_while_pending : ℕ → ℕ → List MinedBlock → M Data (ℕ × List MinedBlock)
  mine_while_pending interval zero results = return (zero, results)
  mine_while_pending interval (suc left) results = do
    n ← get_state
    if has_pending_transactions n.tx_pool
        then (do
          mined ← mine_after interval
          mine_while_pending interval left (results ++ mined ∷ []))
        else return (suc left, results)

  -- `while (count > mined)`
  unfoldable pub mine_each : ℕ → ℕ → List MinedBlock → M Data (List MinedBlock)
  mine_each interval zero results = return results
  mine_each interval (suc left) results = do
    mined ← mine_after interval
    mine_each interval left (results ++ mined ∷ [])

  -- At least one block is left: one is mined, and of a long rest all but the last are reserved.
  unfoldable pub mine_rest : ℕ → ℕ → List MinedBlock → M Data (List MinedBlock)
  mine_rest interval zero results = return results
  mine_rest interval (suc left) results = do
    mined ← mine_after interval
    let so_far = results ++ mined ∷ []
    if leb left 5 then mine_each interval left so_far else (do
      latest_block ← on_chain (get_latest_block lib)
      n ← get_state
      difficulty ← on_chain (get_total_difficulty latest_block.hash)
      modify (λ n.
          set_chain
            (reserve_blocks (left - 1) interval n.state_root difficulty
              latest_block.base_fee_per_gas n.blockchain)
            n)
      last ← mine_after interval
      return (so_far ++ last ∷ []))

  unfoldable pub mine_blocks : ℕ → ℕ → M Data (List MinedBlock)
  mine_blocks zero interval = return []
  mine_blocks (suc left) interval = do
    first ← mine_now none
    (still, results) ← mine_while_pending interval left (first ∷ [])
    mine_rest interval still results
