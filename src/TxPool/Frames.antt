-- ===== src/TxPool/Frames.antt =====
-- No method but `snapshot` and `revert` touches the snapshots, so that a snapshot outlives all that
-- the pool does in between.
use polkahat.Prelude.{
  ℕ, ◌≡◌, refl, ◌∙◌, inl, inr, Bool, true, false, Option, List, [], ◌∷◌, arith, Bool-cases,
  Option-cases,
}
use polkahat.Prelude.Outcome.{Result, ok, throw, bind}
use polkahat.Transaction.{
  OrderedTransaction, SerializedTransaction, Externals, Origin, deserialize_transaction,
}
use polkahat.TxPool.State.{
  Error, Account, PoolState, TxPool, M, nonce_of, balance_of, sender_or_throw, get_sender_address,
  get_transaction_by_hash,
}
use polkahat.TxPool.Remove.{
  remove_from_lists, remove_transaction, remove_tx, is_tx_valid, update_pending_tx,
  update_pending_txs, update_pending, update_queued_txs, update_queued, update_pending_and_queued,
}

module _ {Data : Type 0} where
  -- The snapshots with their counter.
  abbrev pub saved : TxPool Data → List (ℕ × PoolState Data) × ℕ
  saved p = (p.snapshots, p.next_snapshot_id)

  abbrev pub Keeps : {A : Type 0} → M Data A → Type 0
  Keeps m = (p : TxPool Data) → saved (m p).1 ≡ saved p

  bind-Keeps :
      {A B : Type 0} (f : A → M Data B) (r : Result Error A × TxPool Data)
      → ((a : A) → Keeps (f a))
      → saved (bind f r).1 ≡ saved r.1
  bind-Keeps f (ok a, p) h = h a p
  bind-Keeps f (throw e, p) h = refl

module _ {Data : Type 0} (ext : Externals Data) where
  remove_tx-Keeps :
      (m : List (ℕ × List (SerializedTransaction Data))) (a : ℕ) (tx : OrderedTransaction)
      → Keeps (remove_tx ext m a tx)
  unfolding remove_tx
  remove_tx-Keeps m a tx p = ground arith

  remove_from_lists-Keeps :
      (a : ℕ) (s : SerializedTransaction Data) → Keeps (remove_from_lists ext a s)
  unfolding remove_from_lists
  remove_from_lists-Keeps a s p = ground arith

  sender_then-Keeps :
      (o : Origin) (f : ℕ → M Data Bool) (p : TxPool Data)
      → ((a : ℕ) → Keeps (f a))
      → saved (bind f (sender_or_throw o, p)).1 ≡ saved p
  sender_then-Keeps o f p h = bind-Keeps f (sender_or_throw o, p) h

  pub remove_transaction-Keeps : (h : ℕ) → Keeps (remove_transaction ext h)
  unfolding remove_transaction get_sender_address
  remove_transaction-Keeps h p = elim (Option-cases (get_transaction_by_hash ext h p)) [
    | inl e ↦ rw (e, remove_transaction)
    | inr (tx, e) ↦
        rw (e, remove_transaction)
          (sender_then-Keeps tx.tx.origin _ _ (λ a. remove_from_lists-Keeps a _))
  ]

  update_pending_tx-Keeps :
      (a n b : ℕ) (moved : Bool) (tx : SerializedTransaction Data)
      (m : List (ℕ × List (SerializedTransaction Data)))
      → Keeps (update_pending_tx ext a n b moved tx m)
  unfolding update_pending_tx
  update_pending_tx-Keeps a n b true tx m p =
      bind-Keeps _ (remove_tx ext m a (deserialize_transaction ext tx) p) (λ _ _. refl)
      ∙ remove_tx-Keeps m a (deserialize_transaction ext tx) p
  update_pending_tx-Keeps a n b false tx m p =
      let d = deserialize_transaction ext tx in
      elim (Bool-cases (is_tx_valid d p.state.block_gas_limit d.tx.nonce n b)) [
        | inl e ↦ rw (e, update_pending_tx)
        | inr e ↦
            rw (e, update_pending_tx)
              (bind-Keeps _ (remove_tx ext m a d p) (λ _ _. refl) ∙ remove_tx-Keeps m a d p)
      ]

  update_pending_txs-Keeps :
      (a n b : ℕ) (moved : Bool) (txs : List (SerializedTransaction Data))
      (m : List (ℕ × List (SerializedTransaction Data)))
      → Keeps (update_pending_txs ext a n b moved txs m)
  unfolding update_pending_txs
  update_pending_txs-Keeps a n b moved [] m p = refl
  update_pending_txs-Keeps a n b moved (tx ∷ txs) m p =
      bind-Keeps _ (update_pending_tx ext a n b moved tx m p)
        (λ r. update_pending_txs-Keeps a n b r.0 txs r.1)
      ∙ update_pending_tx-Keeps a n b moved tx m p

  update_pending-Keeps :
      (accounts : ℕ → Option Account) (entries m : List (ℕ × List (SerializedTransaction Data)))
      → Keeps (update_pending ext accounts entries m)
  unfolding update_pending
  update_pending-Keeps accounts [] m p = refl
  update_pending-Keeps accounts ((a, txs) ∷ entries) m p =
      bind-Keeps _
        (update_pending_txs ext a (nonce_of (accounts a)) (balance_of (accounts a)) false txs m p)
        (λ r. update_pending-Keeps accounts entries r)
      ∙ update_pending_txs-Keeps a (nonce_of (accounts a)) (balance_of (accounts a)) false txs m p

  update_queued_txs-Keeps :
      (a n b : ℕ) (txs : List (SerializedTransaction Data))
      (m : List (ℕ × List (SerializedTransaction Data)))
      → Keeps (update_queued_txs ext a n b txs m)
  unfolding update_queued_txs
  update_queued_txs-Keeps a n b [] m p = refl
  update_queued_txs-Keeps a n b (tx ∷ txs) m p =
      let d = deserialize_transaction ext tx in
      elim (Bool-cases (is_tx_valid d p.state.block_gas_limit d.tx.nonce n b)) [
        | inl e ↦ rw (e, update_queued_txs) (update_queued_txs-Keeps a n b txs m p)
        | inr e ↦
            rw (e, update_queued_txs)
              (bind-Keeps _ (remove_tx ext m a d p) (λ r. update_queued_txs-Keeps a n b txs r)
                ∙ remove_tx-Keeps m a d p)
      ]

  update_queued-Keeps :
      (accounts : ℕ → Option Account) (entries m : List (ℕ × List (SerializedTransaction Data)))
      → Keeps (update_queued ext accounts entries m)
  unfolding update_queued
  update_queued-Keeps accounts [] m p = refl
  update_queued-Keeps accounts ((a, txs) ∷ entries) m p =
      bind-Keeps _
        (update_queued_txs ext a (nonce_of (accounts a)) (balance_of (accounts a)) txs m p)
        (λ r. update_queued-Keeps accounts entries r)
      ∙ update_queued_txs-Keeps a (nonce_of (accounts a)) (balance_of (accounts a)) txs m p

  pub update_pending_and_queued-Keeps :
      (accounts : ℕ → Option Account) → Keeps (update_pending_and_queued ext accounts)
  unfolding update_pending_and_queued
  update_pending_and_queued-Keeps accounts p =
      bind-Keeps _ (update_pending ext accounts (ext.entries pending) pending p) (λ r q.
        bind-Keeps _
          (update_queued ext accounts (ext.entries q.state.queued_transactions)
            q.state.queued_transactions
            (record q { state = record (q.state) { pending_transactions = r } }))
          (λ _ _. refl)
        ∙ update_queued-Keeps accounts (ext.entries q.state.queued_transactions)
            q.state.queued_transactions _)
      ∙ update_pending-Keeps accounts (ext.entries pending) pending p
    where
      pending : List (ℕ × List (SerializedTransaction Data))
      pending = p.state.pending_transactions
