-- ===== src/TxPool/Effects.antt =====
-- What a call of `addTransaction` has written when it returns and when it throws.
use polkahat.Prelude.{ℕ, ◌≡◌, ◌≢◌, refl, Option, some, arith}
use polkahat.Prelude.Outcome.{Result, ok, throw}
use polkahat.Map
use polkahat.Map.{get-put, get-put_self, get-put_ne}
use polkahat.Transaction.{
  TypedTransaction, Externals, sender_of, serialize_transaction, deserialize-serialize,
}
use polkahat.TxPool.State.{Error, Account, TxPool, pending_for, queued_for, get_transaction_by_hash}
use polkahat.TxPool.Add.{add_transaction}
use polkahat.TxPool.Placement.{AddedPending, AddedQueued, ordered}
use polkahat.TxPool.Admission.{IsAcceptable, Added, add_transaction_lem}

-- Nothing but the order counter may differ.
abbrev pub SameButCounter : {Data : Type 0} → TxPool Data → TxPool Data → Type 0
SameButCounter q r =
    (r.state ≡ q.state) × (r.snapshots ≡ q.snapshots) × (r.next_snapshot_id ≡ q.next_snapshot_id)

module _ {Data : Type 0} (ext : Externals Data) (accounts : ℕ → Option Account) (p : TxPool Data)
    (tx : TypedTransaction) (sender : ℕ) where
  throw_cases :
      (e : Error) (q : TxPool Data) (r : Result Error (Unit {0}) × TxPool Data)
      → r ≡ (throw e, q)
      → Added ext accounts p tx sender r
      → SameButCounter p q
  throw_cases e q r h (Added.refused e' bad eq) = ground arith
  throw_cases e q r h (Added.queued good later (AddedQueued.too_low i old e' at same few eq)) =
      ground arith
  throw_cases e q r h (Added.queued good later (AddedQueued.overwrote i old at_i same more eq)) =
      absurd (cc)
  throw_cases e q r h (Added.queued good later (AddedQueued.appended missing eq)) = absurd (cc)
  throw_cases e q r h (Added.pending good now (AddedPending.too_low i old e' at same few eq)) =
      ground arith
  throw_cases e q r h (Added.pending good now (AddedPending.overwrote i old at_i same more eq)) =
      absurd (cc)
  throw_cases e q r h
        (Added.pending good now
          (AddedPending.appended missing moved rest run perm sorted stops eq)) =
      absurd (cc)

  -- For a known sender, an `addTransaction` that throws leaves the lists, the hash table, the limit
  -- and the snapshots as they were.
  pub add_transaction-throw :
      (e : Error) (q : TxPool Data)
      → sender_of tx.origin ≡ some sender
      → add_transaction ext accounts tx p ≡ (throw e, q)
      → SameButCounter p q
  add_transaction-throw e q from h =
      throw_cases e q _ h (add_transaction_lem ext accounts p tx sender from)

  ok_cases :
      (q : TxPool Data) (r : Result Error (Unit {0}) × TxPool Data)
      → r ≡ (ok tt, q)
      → Added ext accounts p tx sender r
      → IsAcceptable ext accounts p tx sender
        × (Map.get tx.hash q.state.hash_to_transaction
            ≡ some (serialize_transaction ext (ordered p tx)))
        × ((a : ℕ)
            → sender ≢ a
            → (pending_for q a ≡ pending_for p a) × (queued_for q a ≡ queued_for p a))
  ok_cases q r h (Added.refused e' bad eq) = absurd (cc)
  ok_cases q r h (Added.queued good later (AddedQueued.too_low i old e' at same few eq)) =
      absurd (cc)
  ok_cases q r h (Added.queued good later (AddedQueued.overwrote i old at_i same more eq)) =
      let e : q ≡ r.1 = cc in
      rw (e, eq) (good, get-put_self tx.hash _ _, λ a ne. (refl, get-put_ne sender a _ _ ne))
  ok_cases q r h (Added.queued good later (AddedQueued.appended missing eq)) =
      let e : q ≡ r.1 = cc in
      rw (e, eq) (good, get-put_self tx.hash _ _, λ a ne. (refl, get-put_ne sender a _ _ ne))
  ok_cases q r h (Added.pending good now (AddedPending.too_low i old e' at same few eq)) =
      absurd (cc)
  ok_cases q r h (Added.pending good now (AddedPending.overwrote i old at_i same more eq)) =
      let e : q ≡ r.1 = cc in
      rw (e, eq) (good, get-put_self tx.hash _ _, λ a ne. (get-put_ne sender a _ _ ne, refl))
  ok_cases q r h
        (Added.pending good now
          (AddedPending.appended missing moved rest run perm sorted stops eq)) =
      let e : q ≡ r.1 = cc in
      rw (e, eq)
        (
          good,
          get-put_self tx.hash _ _,
          λ a ne. (get-put_ne sender a _ _ ne, get-put_ne sender a _ _ ne),
        )

  -- If `addTransaction` returns for a known sender, the transaction was acceptable, it is found by
  -- its hash, under the next order id, and the lists of every other sender are as they were.
  pub add_transaction-ok :
      (q : TxPool Data)
      → sender_of tx.origin ≡ some sender
      → add_transaction ext accounts tx p ≡ (ok tt, q)
      → IsAcceptable ext accounts p tx sender
        × (get_transaction_by_hash ext tx.hash q ≡ some (ordered p tx))
        × ((a : ℕ)
            → sender ≢ a
            → (pending_for q a ≡ pending_for p a) × (queued_for q a ≡ queued_for p a))
  unfolding get_transaction_by_hash
  add_transaction-ok q from h =
      let (good, found, others) =
        ok_cases q _ h (add_transaction_lem ext accounts p tx sender from) in
      (
        good,
        rw (found, get_transaction_by_hash, (deserialize-serialize ext (ordered p tx)).1) refl,
        others,
      )
