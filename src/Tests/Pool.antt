-- ===== src/Tests/Pool.antt =====
-- Tests and witnesses for provider/TxPool.ts.
use mathlib.Core.List.{Permᴰ}
use native.Mathlib.Decide.{ℕ_discrete}
use polkahat.Prelude.{
  ℕ, ◌+◌, ◌*◌, ◌≤◌, ◌≡◌, ◌≢◌, ◌↔◌, refl, inl, inr, Bool-cases, ◌==◌, List, [], ◌∷◌, ◌++◌, Option,
  none, some, arith, length,
}
use polkahat.Prelude.Outcome.{ok}
use polkahat.Map
use polkahat.Transaction.{
  TypedTransaction, SerializedTransaction, serialize_transaction, deserialize_transaction,
  serialized_eq, IsSortedBy, fake, OrderedTransaction,
}
use polkahat.Samples.{plain, tx_0, tx_1, tx_2, insert, sort, tx_eq, TypedTransaction-discrete}
use polkahat.TxPool.State.{
  Account, TxPool, new_pool, nonce_in, pending_for, queued_for, snapshot, revert,
  remove_snapshots_after, next_pending_nonce, get_sender_address, raw_sender_address,
  get_transaction_by_hash, set_block_gas_limit,
}
use polkahat.TxPool.Reorganize.{reorganize, move_queued}
use polkahat.TxPool.Nonces.{Run}
use polkahat.TxPool.Add.{
  get_min_new_fee_price, transaction_exists, is_known_transaction, validate_transaction, replace_at,
  replace_tx, replace_pending_tx, replace_queued_tx, append_pending, append_queued,
  add_pending_transaction, add_queued_transaction, add_transaction,
}
use polkahat.TxPool.Remove.{
  remove_from_lists, remove_transaction, remove_tx, is_tx_valid, update_pending_tx,
  update_pending_txs, update_pending, update_queued_txs, update_queued, update_pending_and_queued,
}
use polkahat.TxPool.Replacement.{Replacement, get_min_new_fee_price-least}
use polkahat.TxPool.Promotion.{reorganize_lem}
use polkahat.TxPool.Placement.{ordered}
use polkahat.TxPool.Admission.{IsAcceptable}
use polkahat.TxPool.Invariant.{HasNoGaps, add_transaction-HasNoGaps}
use polkahat.TxPool.Effects.{SameButCounter, add_transaction-throw, add_transaction-ok}
use polkahat.TxPool.Snapshots.{Reverts, revert_lem}
use polkahat.TxPool.Removal.{remove_transaction-HasNoGaps}
use polkahat.TxPool.History.{add, remove, save, limit, run, revert-run-snapshot}

program : Unit {0}
unfolding deserialize_transaction serialize_transaction serialized_eq new_pool snapshot revert
    remove_snapshots_after next_pending_nonce get_sender_address raw_sender_address
    get_transaction_by_hash set_block_gas_limit reorganize move_queued get_min_new_fee_price
    transaction_exists is_known_transaction validate_transaction replace_at replace_tx
    replace_pending_tx replace_queued_tx append_pending append_queued add_pending_transaction
    add_queued_transaction add_transaction remove_from_lists remove_transaction remove_tx
    is_tx_valid update_pending_tx update_pending_txs update_pending update_queued_txs update_queued
    update_pending_and_queued insert sort tx_eq TypedTransaction-discrete Map.get Map.put Map.delete
    ℕ_discrete
program = tt

abbrev rich : ℕ → Option Account
rich a = some (record { nonce = 0; balance = 1000000000 })

abbrev Pool : Type 0
Pool = TxPool TypedTransaction

abbrev stored : ℕ → TypedTransaction → SerializedTransaction TypedTransaction
stored id tx = record { order_id = id; fake_from = none; rlp = tx; tx_type = 2 }

-- Nonce 2 waits for nonce 1; the first transaction is pending.
gapped : Pool
unfolding program
gapped = (add_transaction plain rich tx_2 (add_transaction plain rich tx_0 (new_pool 30000000)).1).1

gapped_lists :
    (pending_for gapped 7 ≡ some (stored 0 tx_0 ∷ []))
    × (queued_for gapped 7 ≡ some (stored 1 tx_2 ∷ []))
unfolding gapped
gapped_lists = (refl, refl)

-- The missing nonce makes both executable.
filled : Pool
unfolding gapped
filled = (add_transaction plain rich tx_1 gapped).1

filled_lists :
    (pending_for filled 7 ≡ some (stored 0 tx_0 ∷ stored 2 tx_1 ∷ stored 1 tx_2 ∷ []))
    × (queued_for filled 7 ≡ some [])
unfolding filled
filled_lists = (refl, refl)

-- A pending transaction becomes unaffordable: it is dropped, and the one behind it moves to the
-- queued list, where it is no longer found by its hash.
abbrev costly_1 : TypedTransaction
costly_1 = record tx_1 { upfront_cost = 5 }

abbrev poor : ℕ → Option Account
poor a = some (record { nonce = 0; balance = 3 })

updated : Pool
unfolding gapped
updated = (update_pending_and_queued plain poor (add_transaction plain rich costly_1 gapped).1).1

updated_lists :
    (pending_for updated 7 ≡ some (stored 0 tx_0 ∷ []))
    × (queued_for updated 7 ≡ some (stored 1 tx_2 ∷ []))
    × (get_transaction_by_hash plain 1002 updated ≡ none)
unfolding updated
updated_lists = (refl, refl, refl)

underpriced_replacement :
    (add_transaction plain rich (record tx_0 { hash = 3000 }) gapped).1.state ≡ gapped.state
unfolding gapped
underpriced_replacement = refl

gapped-HasNoGaps : HasNoGaps plain gapped
unfolding gapped
gapped-HasNoGaps a = elim (Bool-cases (7 == a)) [ inl e ↦ rw e tt | inr e ↦ rw e tt ]

get_min_new_fee_price-least_example : (get_min_new_fee_price 101 ≤ 112) ↔ (101 * 110 ≤ 112 * 100)
get_min_new_fee_price-least_example = get_min_new_fee_price-least 101 112

abbrev faked : OrderedTransaction
faked = record { order_id = 3; tx = record tx_1 { origin = fake 7; tx_type = 2 } }

reorganize_lem_example :
    (moved : List (SerializedTransaction TypedTransaction)) × (rest : List
      (SerializedTransaction TypedTransaction))
    × (reorganize plain (nonce_in plain) (stored 0 tx_0 ∷ []) (stored 2 tx_2 ∷ stored 1 tx_1 ∷ [])
        ≡ ok ((stored 0 tx_0 ∷ []) ++ moved, rest))
    × Run (nonce_in plain) (nonce_in plain (stored 0 tx_0) + 1) moved
    × Permᴰ (moved ++ rest) (stored 2 tx_2 ∷ stored 1 tx_1 ∷ [])
    × IsSortedBy (nonce_in plain) rest
    × ((y : SerializedTransaction TypedTransaction)
          (ys : List (SerializedTransaction TypedTransaction))
        → rest ≡ y ∷ ys
        → nonce_in plain y ≢ nonce_in plain (stored 0 tx_0) + 1 + length moved)
reorganize_lem_example =
    reorganize_lem plain (nonce_in plain) (stored 0 tx_0 ∷ []) (stored 2 tx_2 ∷ stored 1 tx_1 ∷ [])
      (stored 0 tx_0) refl

add_transaction-HasNoGaps_example : HasNoGaps plain (add_transaction plain rich tx_1 gapped).1
unfolding gapped
add_transaction-HasNoGaps_example =
    add_transaction-HasNoGaps plain rich gapped tx_1 7 refl gapped-HasNoGaps (omega arith)

add_transaction-throw_example :
    SameButCounter gapped (add_transaction plain rich (record tx_0 { hash = 3000 }) gapped).1
unfolding gapped
add_transaction-throw_example =
    add_transaction-throw plain rich gapped (record tx_0 { hash = 3000 }) 7 _ _ refl refl

add_transaction-ok_example :
    IsAcceptable plain rich gapped tx_1 7
    × (get_transaction_by_hash plain 1001 filled ≡ some (ordered gapped tx_1))
    × ((a : ℕ)
        → 7 ≢ a
        → (pending_for filled a ≡ pending_for gapped a)
          × (queued_for filled a ≡ queued_for gapped a))
unfolding filled
add_transaction-ok_example = add_transaction-ok plain rich gapped tx_1 7 filled refl refl

revert_lem_example : Reverts 0 (snapshot gapped).1 (some gapped.state)
unfolding gapped
revert_lem_example = revert_lem 0 (snapshot gapped).1 (some gapped.state) refl

remove_transaction-HasNoGaps_example : HasNoGaps plain (remove_transaction plain 1001 filled).1
unfolding filled
remove_transaction-HasNoGaps_example =
    remove_transaction-HasNoGaps plain filled 1001 7 (stored 2 tx_1) refl refl refl
      add_transaction-HasNoGaps_example

revert-run-snapshot_example :
    (q : Pool) × (revert 0
        (run plain (add rich tx_1 ∷ save ∷ remove 1000 ∷ limit 5 ∷ []) (snapshot gapped).1)
      ≡ (ok tt, q))
    × (q.state ≡ gapped.state)
unfolding gapped
revert-run-snapshot_example =
    revert-run-snapshot plain (add rich tx_1 ∷ save ∷ remove 1000 ∷ limit 5 ∷ []) gapped
