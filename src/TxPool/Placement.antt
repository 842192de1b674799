-- ===== src/TxPool/Placement.antt =====
-- Where `_addPendingTransaction` and `_addQueuedTransaction` put a transaction whose sender is known.
use mathlib.Core.List.{Permᴰ}
use polkahat.Prelude.{
  ℕ, ◌+◌, ◌≡◌, ◌≢◌, refl, subst, ap, List, [], ◌∷◌, ◌++◌, Option, none, some, set, get_elem?,
  length, arith, get_last?-append,
}
use polkahat.Prelude.Outcome.{Result, ok, throw}
use polkahat.Transaction.{
  TypedTransaction, OrderedTransaction, SerializedTransaction, Externals, sender_of, IsSortedBy,
  serialize_transaction, deserialize_transaction, deserialize-serialize,
}
use polkahat.TxPool.State.{
  Error, TxPool, get_or_empty, nonce_in, pending_for, queued_for, set_pending_for, set_queued_for,
  set_transaction_by_hash, delete_transaction_by_hash, raw_sender_address,
}
use polkahat.TxPool.Nonces.{Run}
use polkahat.TxPool.Promotion.{reorganize_lem}
use polkahat.TxPool.Add.{
  existing_index, replace_tx, replace_pending_tx, replace_queued_tx, append_pending, append_queued,
  add_pending_transaction, add_queued_transaction,
}
use polkahat.TxPool.Replacement.{
  Replacement, absent, underpriced, replaced, PaysMore, replace_tx_lem,
}

module _ {Data : Type 0} where
  -- The transaction under the next order id, and the pool that has given that id away.
  abbrev pub ordered : TxPool Data → TypedTransaction → OrderedTransaction
  ordered p tx = record { order_id = p.next_order_id; tx = tx }

  abbrev pub numbered : TxPool Data → TxPool Data
  numbered p = record p { next_order_id = p.next_order_id + 1 }

module _ {Data : Type 0} (ext : Externals Data) (tx : TypedTransaction) (sender : ℕ) where
  pub nonce_in-serialize :
      (id : ℕ)
      → nonce_in ext (serialize_transaction ext (record { order_id = id; tx = tx })) ≡ tx.nonce
  nonce_in-serialize id =
      ap (λ (o : OrderedTransaction). o.tx.nonce)
        (deserialize-serialize ext (record { order_id = id; tx = tx })).1

  pub data AddedPending (p : TxPool Data) (r : Result Error (Unit {0}) × TxPool Data) : Type 0 where
    too_low :
        (i : ℕ) (old : SerializedTransaction Data) (e : Error)
        → get_elem? (get_or_empty (pending_for p sender)) i ≡ some old
        → nonce_in ext old ≡ tx.nonce
        → ¬ PaysMore ext (deserialize_transaction ext old).tx tx
        → r ≡ (throw e, numbered p)
        → AddedPending p r
    overwrote :
        (i : ℕ) (old : SerializedTransaction Data)
        → get_elem? (get_or_empty (pending_for p sender)) i ≡ some old
        → nonce_in ext old ≡ tx.nonce
        → PaysMore ext (deserialize_transaction ext old).tx tx
        → r ≡ (
          ok tt,
          set_transaction_by_hash tx.hash (serialize_transaction ext (ordered p tx)) (
              set_pending_for sender
                (set
                  (get_or_empty (pending_for p sender))
                  i
                  (serialize_transaction ext (ordered p tx)))
                (delete_transaction_by_hash
                  (deserialize_transaction ext old).tx.hash
                  (numbered p))),
        )
        → AddedPending p r
    appended :
        existing_index ext (get_or_empty (pending_for p sender)) (ordered p tx) ≡ none
        → (moved rest : List (SerializedTransaction Data)) → Run (nonce_in ext) (tx.nonce + 1) moved
        → Permᴰ (moved ++ rest) (get_or_empty (queued_for p sender))
        → IsSortedBy (nonce_in ext) rest
        → ((y : SerializedTransaction Data) (ys : List (SerializedTransaction Data))
            → rest ≡ y ∷ ys
            → nonce_in ext y ≢ tx.nonce + 1 + length moved)
        → r ≡ (
          ok tt,
          set_transaction_by_hash tx.hash (serialize_transaction ext (ordered p tx)) (
              set_queued_for sender rest (
                set_pending_for sender
                  ((get_or_empty (pending_for p sender)
                      ++ serialize_transaction ext (ordered p tx) ∷ [])
                    ++ moved)
                  (numbered p))),
        )
        → AddedPending p r

  module _ (p : TxPool Data) (from : sender_of tx.origin ≡ some sender) where
    add_pending_cases :
        (r : Result Error (Option (List (SerializedTransaction Data))) × TxPool Data)
        → replace_tx ext (pending_for p sender) (ordered p tx) (numbered p) ≡ r
        → Replacement ext (get_or_empty (pending_for p sender)) (ordered p tx) (numbered p) r
        → AddedPending p (add_pending_transaction ext tx p)
    unfolding add_pending_transaction replace_pending_tx append_pending raw_sender_address
    add_pending_cases r e (absent missing eq) =
        let s = serialize_transaction ext (ordered p tx) in
        let pending = get_or_empty (pending_for p sender) in
        let (moved, rest, done, run, perm, sorted, stops) =
          reorganize_lem ext (nonce_in ext) (pending ++ s ∷ []) (get_or_empty (queued_for p sender))
            s (get_last?-append pending s) in
        let same : nonce_in ext s ≡ tx.nonce = nonce_in-serialize p.next_order_id in
        AddedPending.appended missing moved rest
          (subst (λ n. Run (nonce_in ext) (n + 1) moved) same run) perm sorted
          (subst
            (λ n.
              (y : SerializedTransaction Data) (ys : List (SerializedTransaction Data))
              → rest ≡ y ∷ ys
              → nonce_in ext y ≢ n + 1 + length moved)
            same stops)
          (ground arith)
    add_pending_cases r e (underpriced i old error at_i same few eq) =
        AddedPending.too_low i old error at_i same few (ground arith)
    add_pending_cases r e (replaced i old at_i same more eq) =
        AddedPending.overwrote i old at_i same more (ground arith)

    -- A transaction that goes to the pending list is refused, and only an order id is used up, where
    -- it has the nonce of a pending one and does not pay 110% of both its fees; or it takes the place of one with its nonce; or it goes to the end of the list, and the queued
    -- transactions that it makes executable follow it.
    pub add_pending_transaction_lem : AddedPending p (add_pending_transaction ext tx p)
    add_pending_transaction_lem =
        add_pending_cases _ refl
          (replace_tx_lem ext (pending_for p sender) (ordered p tx) (numbered p))

  pub data AddedQueued (p : TxPool Data) (r : Result Error (Unit {0}) × TxPool Data) : Type 0 where
    too_low :
        (i : ℕ) (old : SerializedTransaction Data) (e : Error)
        → get_elem? (get_or_empty (queued_for p sender)) i ≡ some old
        → nonce_in ext old ≡ tx.nonce
        → ¬ PaysMore ext (deserialize_transaction ext old).tx tx
        → r ≡ (throw e, numbered p)
        → AddedQueued p r
    overwrote :
        (i : ℕ) (old : SerializedTransaction Data)
        → get_elem? (get_or_empty (queued_for p sender)) i ≡ some old
        → nonce_in ext old ≡ tx.nonce
        → PaysMore ext (deserialize_transaction ext old).tx tx
        → r ≡ (
          ok tt,
          set_transaction_by_hash tx.hash (serialize_transaction ext (ordered p tx)) (
              set_queued_for sender
                (set
                  (get_or_empty (queued_for p sender))
                  i
                  (serialize_transaction ext (ordered p tx)))
                (delete_transaction_by_hash
                  (deserialize_transaction ext old).tx.hash
                  (numbered p))),
        )
        → AddedQueued p r
    appended :
        existing_index ext (get_or_empty (queued_for p sender)) (ordered p tx) ≡ none
        → r ≡ (
          ok tt,
          set_transaction_by_hash tx.hash (serialize_transaction ext (ordered p tx)) (
              set_queued_for sender
                (get_or_empty (queued_for p sender)
                  ++ serialize_transaction ext (ordered p tx) ∷ [])
                (numbered p)),
        )
        → AddedQueued p r

  module _ (p : TxPool Data) (from : sender_of tx.origin ≡ some sender) where
    add_queued_cases :
        (r : Result Error (Option (List (SerializedTransaction Data))) × TxPool Data)
        → replace_tx ext (queued_for p sender) (ordered p tx) (numbered p) ≡ r
        → Replacement ext (get_or_empty (queued_for p sender)) (ordered p tx) (numbered p) r
        → AddedQueued p (add_queued_transaction ext tx p)
    unfolding add_queued_transaction replace_queued_tx append_queued raw_sender_address
    add_queued_cases r e (absent missing eq) = AddedQueued.appended missing (ground arith)
    add_queued_cases r e (underpriced i old error at_i same few eq) =
        AddedQueued.too_low i old error at_i same few (ground arith)
    add_queued_cases r e (replaced i old at_i same more eq) =
        AddedQueued.overwrote i old at_i same more (ground arith)

    -- The same for the queued list, where nothing else moves.
    pub add_queued_transaction_lem : AddedQueued p (add_queued_transaction ext tx p)
    add_queued_transaction_lem =
        add_queued_cases _ refl
          (replace_tx_lem ext (queued_for p sender) (ordered p tx) (numbered p))
