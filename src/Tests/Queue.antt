-- ===== src/Tests/Queue.antt =====
-- Tests and witnesses for provider/TransactionQueue.ts.
use polkahat.Prelude.{◌≡◌, refl, List, [], ◌∷◌, none, some, All, arith}
use polkahat.Prelude.Outcome.{ok}
use polkahat.Map
use polkahat.BigInt.{min_ℤ, cmp_ℤ}
use polkahat.Transaction.{OrderedTransaction}
use polkahat.Samples.{scan, pop_first, transfer, ordered_tx, tx_0, tx_1}
use polkahat.TransactionQueue.{
  TransactionQueue, priority, get_effective_miner_fee, effective_miner_fee_comparator,
  order_comparator, ordered_transaction_comparator, enqueue_all, new_queue,
  move_first_enqueued_transaction_to_heap, pop_next, get_next_transaction,
  remove_last_sender_transactions,
}
use polkahat.TransactionQueue.First.{IsFirst, get_next_transaction-IsFirst}
use polkahat.TransactionQueue.Next.{IsValid, Serves, remaining, get_next_transaction-Serves}
use polkahat.TransactionQueue.Start.{Entry, new_queue-IsValid}

program : Unit {0}
unfolding min_ℤ cmp_ℤ get_effective_miner_fee effective_miner_fee_comparator order_comparator
    ordered_transaction_comparator enqueue_all new_queue move_first_enqueued_transaction_to_heap
    pop_next get_next_transaction remove_last_sender_transactions pop_first Map.get Map.put
    Map.delete
program = tt

-- Account 8 pays more than account 7.
abbrev first_7 : OrderedTransaction
first_7 = ordered_tx 0 tx_0

abbrev second_7 : OrderedTransaction
second_7 = ordered_tx 1 tx_1

abbrev first_8 : OrderedTransaction
first_8 = ordered_tx 2 (transfer 8 0 20 5000)

abbrev entries : List Entry
entries = (7, (first_7, second_7 ∷ [])) ∷ (8, (first_8, [])) ∷ []

abbrev start : TransactionQueue
start = record {
  queued_transactions = (7, second_7 ∷ []) ∷ (8, []) ∷ [];
  heap = first_8 ∷ first_7 ∷ [];
  comparator = effective_miner_fee_comparator (some 5);
  last_transaction_sender = none;
}

abbrev served_8 : TransactionQueue
served_8 = record start { heap = first_7 ∷ []; last_transaction_sender = some 8 }

abbrev served_7 : TransactionQueue
served_7 = record served_8 { heap = []; last_transaction_sender = some 7 }

serves_in_order :
    (new_queue entries priority (some 5) ≡ ok start)
    × (get_next_transaction scan start ≡ (ok (some first_8), served_8))
    × (get_next_transaction scan served_8 ≡ (ok (some first_7), served_7))
    × ((get_next_transaction scan served_7).0 ≡ ok (some second_7))
    × ((get_next_transaction scan (remove_last_sender_transactions served_7).1).0 ≡ ok none)
unfolding program
serves_in_order = (refl, refl, refl, refl, refl)

new_queue-IsValid_example : IsValid start × All (λ e. remaining start e.0 ≡ e.1.0 ∷ e.1.1) entries
unfolding program
new_queue-IsValid_example =
    new_queue-IsValid entries priority (some 5) start
      ((refl, (refl, tt)), (omega arith, tt), ((refl, tt), tt, tt)) refl

get_next_transaction-Serves_example : IsValid served_8 × Serves start served_8 first_8
unfolding program
get_next_transaction-Serves_example =
    get_next_transaction-Serves scan start first_8 served_8 new_queue-IsValid_example.0 refl

get_next_transaction-IsFirst_example : All (IsFirst priority (some 5) first_8) (first_7 ∷ [])
unfolding program
get_next_transaction-IsFirst_example =
    get_next_transaction-IsFirst scan entries priority (some 5) [] start served_8 first_8 refl refl
