-- ===== src/TxPool/Reorganize.antt =====
-- provider/utils/reorganizeTransactionsLists.ts: queued transactions that have become executable
-- move to the pending list.
use polkahat.Prelude.{ℕ, ◌+◌, List, [], ◌∷◌, ◌++◌, none, some, get_last?, drop, ◌==◌, if◌then◌else◌}
use polkahat.Prelude.Outcome.{Result, ok, throw}
use polkahat.Transaction.{SerializedTransaction, Externals}
use polkahat.TxPool.State.{Error, pending_empty}

module _ {Data : Type 0} (ext : Externals Data)
    (retrieve_nonce : SerializedTransaction Data → ℕ) where
  -- The loop: the pending list, and how many were moved.
  unfoldable pub move_queued :
      List (SerializedTransaction Data)
      → ℕ
      → ℕ
      → List (SerializedTransaction Data)
      → List (SerializedTransaction Data) × ℕ
  move_queued new_pending next_pending_nonce moved_count [] = (new_pending, moved_count)
  move_queued new_pending next_pending_nonce moved_count (tx ∷ txs) =
      let rest =
        move_queued (new_pending ++ tx ∷ []) (next_pending_nonce + 1) (moved_count + 1) txs in
      if next_pending_nonce == retrieve_nonce tx then rest else (new_pending, moved_count)

  unfoldable pub reorganize :
      List (SerializedTransaction Data)
      → List (SerializedTransaction Data)
      → Result Error (List (SerializedTransaction Data) × List (SerializedTransaction Data))
  unfolding move_queued
  reorganize pending queued = elim (get_last? pending) [
    | none ↦ throw pending_empty
    | some last ↦
        let new_queued = ext.sort_by retrieve_nonce queued in
        let (new_pending, moved_count) =
          move_queued pending (retrieve_nonce last + 1) 0 new_queued in
        ok (new_pending, drop moved_count new_queued)
  ]
