-- ===== src/TxPool/Invariant.antt =====
-- What `addTransaction` keeps true of the pool, and what it leaves alone.
use polkahat.Prelude.{
  ℕ, ◌≤◌, ◌≡◌, sym, ◌∙◌, inl, inr, List, [], ◌∷◌, ◌++◌, Option, some, set, ◌==◌, Bool-cases,
}
use polkahat.Prelude.Outcome.{Result}
use polkahat.Map
use polkahat.Map.{get-put, get-put_self, get-put_ne}
use polkahat.Transaction.{
  TypedTransaction, SerializedTransaction, Externals, sender_of, serialize_transaction,
}
use polkahat.TxPool.State.{
  Error, Account, TxPool, get_or_empty, nonce_of, nonce_in, pending_for, next_pending_nonce,
}
use polkahat.TxPool.Nonces.{IsConsecutive, HeadLe, IsConsecutive-set, IsConsecutive-extend}
use polkahat.TxPool.Add.{add_transaction}
use polkahat.TxPool.Placement.{
  AddedPending, AddedQueued, too_low, overwrote, appended, ordered, nonce_in-serialize,
}
use polkahat.TxPool.Admission.{Added, add_transaction_lem}

module _ {Data : Type 0} (ext : Externals Data) where
  -- Every sender's pending transactions have consecutive nonces.
  abbrev pub HasNoGaps : TxPool Data → Type 0
  HasNoGaps p = (a : ℕ) → IsConsecutive (nonce_in ext) (get_or_empty (pending_for p a))

  pub HasNoGaps-put :
      (p q : TxPool Data) (sender : ℕ) (txs : List (SerializedTransaction Data))
      → q.state.pending_transactions ≡ Map.put sender txs p.state.pending_transactions
      → HasNoGaps p
      → IsConsecutive (nonce_in ext) txs
      → HasNoGaps q
  HasNoGaps-put p q sender txs e h c a = elim (Bool-cases (sender == a)) [
    | inl same ↦ rw (e, get-put sender a txs p.state.pending_transactions, same) c
    | inr other ↦ rw (e, get-put sender a txs p.state.pending_transactions, other) (h a)
  ]

  module _ (accounts : ℕ → Option Account) (p : TxPool Data) (tx : TypedTransaction)
      (sender : ℕ) where
    queued_keeps :
        (r : Result Error (Unit {0}) × TxPool Data)
        → AddedQueued ext tx sender p r
        → r.1.state.pending_transactions ≡ p.state.pending_transactions
    queued_keeps r (too_low i old e at same few eq) = rw eq
    queued_keeps r (overwrote i old at_i same more eq) = rw eq
    queued_keeps r (appended missing eq) = rw eq

    pending_keeps :
        (r : Result Error (Unit {0}) × TxPool Data)
        → HasNoGaps p
        → HeadLe (nonce_in ext) (nonce_of (accounts sender)) (get_or_empty (pending_for p sender))
        → nonce_of (accounts sender) ≤ tx.nonce
        → tx.nonce ≤ next_pending_nonce ext accounts p sender
        → AddedPending ext tx sender p r
        → HasNoGaps r.1
    unfolding next_pending_nonce
    pending_keeps r h first low high (AddedPending.too_low i old e at same few eq) = rw eq h
    pending_keeps r h first low high (AddedPending.overwrote i old at_i same more eq) =
        let s = serialize_transaction ext (ordered p tx) in
        let pending = get_or_empty (pending_for p sender) in
        HasNoGaps-put p r.1 sender (set pending i s) (rw eq) h (
          IsConsecutive-set (nonce_in ext) pending i old s (h sender) at_i
            (nonce_in-serialize ext tx sender p.next_order_id ∙ sym same))
    pending_keeps r h first low high
          (AddedPending.appended missing moved rest run perm sorted stops eq) =
        let s = serialize_transaction ext (ordered p tx) in
        let pending = get_or_empty (pending_for p sender) in
        let same : nonce_in ext s ≡ tx.nonce = nonce_in-serialize ext tx sender p.next_order_id in
        HasNoGaps-put p r.1 sender ((pending ++ s ∷ []) ++ moved) (rw eq) h (
          IsConsecutive-extend (nonce_in ext) pending (nonce_of (accounts sender)) s moved
            (h sender) first (rw same low) (rw same high) (rw same missing) (rw same run))

    Added-keeps :
        (r : Result Error (Unit {0}) × TxPool Data)
        → HasNoGaps p
        → HeadLe (nonce_in ext) (nonce_of (accounts sender)) (get_or_empty (pending_for p sender))
        → Added ext accounts p tx sender r
        → HasNoGaps r.1
    Added-keeps r h first (Added.refused e bad eq) = rw eq h
    Added-keeps r h first (Added.queued good later q) = λ a. rw (queued_keeps r q) (h a)
    Added-keeps r h first (Added.pending good now q) = pending_keeps r h first good.is_next now q

    -- If every sender's pending transactions have consecutive nonces, and the sender's do not begin
    -- above the account's nonce, then every sender's still have them after the call, whether it
    -- took the transaction or threw.
    pub add_transaction-HasNoGaps :
        sender_of tx.origin ≡ some sender
        → HasNoGaps p
        → HeadLe (nonce_in ext) (nonce_of (accounts sender)) (get_or_empty (pending_for p sender))
        → HasNoGaps (add_transaction ext accounts tx p).1
    add_transaction-HasNoGaps from h first =
        Added-keeps _ h first (add_transaction_lem ext accounts p tx sender from)
