-- ===== src/TxPool/Removal.antt =====
-- What `removeTransaction` does to the lists of the sender.
use native.Mathlib.Numerals.{add-one}
use polkahat.Prelude.{
  ℕ, suc, ◌≡◌, refl, subst, ap, inl, inr, none, some, List, [], ◌∷◌, ◌++◌, Bool, true, false, take,
  drop, remove_at, find_index, arith, Bool-cases, Option-cases,
}
use polkahat.Prelude.Outcome.{Result, ok, throw}
use polkahat.Map
use polkahat.Map.{get-put}
use polkahat.Transaction.{
  SerializedTransaction, Externals, sender_of, serialize_transaction, deserialize_transaction,
  serialized_eq, serialized_eq→eq,
}
use polkahat.TxPool.State.{
  Error, not_in_lists, TxPool, get_or_empty, pending_for, queued_for, set_pending_for,
  set_queued_for, delete_transaction_by_hash, get_transaction_by_hash, get_sender_address, nonce_in,
}
use polkahat.TxPool.Nonces.{IsConsecutive-left}
use polkahat.TxPool.Remove.{index_of, remove_from_lists, remove_transaction}
use polkahat.TxPool.Admission.{sender_known}
use polkahat.TxPool.Invariant.{HasNoGaps, HasNoGaps-put}

-- The first element that passes a test, found at its position.
pub find_index-Split {ℓ} :
    {A : Type ℓ} (test : A → Bool) (xs : List A) (i : ℕ)
    → find_index test xs ≡ some i
    → (x : A) × (test x ≡ true)
      × (xs ≡ take i xs ++ x ∷ drop (suc i) xs)
      × (remove_at xs i ≡ take i xs ++ drop (suc i) xs)
find_index-Split test [] i h = absurd (cc)
find_index-Split test (x ∷ xs) i h = elim (Bool-cases (test x)) [
  | inl e ↦ let z : ◌≡◌ {A = ℕ} i 0 = ground arith in (x, e, rw z refl, rw z refl)
  | inr e ↦ elim (Option-cases (find_index test xs)) [
    | inl f ↦ absurd (ground arith)
    | inr (j, f) ↦
        let z : i ≡ suc j = ground arith in
        let (y, passes, whole, rest) = find_index-Split test xs j f in
        (y, passes, rw z (ap (◌∷◌ x) whole), rw z (ap (◌∷◌ x) rest))
  ]
]

module _ {Data : Type 0} (ext : Externals Data) (p : TxPool Data) (sender : ℕ)
    (tx : SerializedTransaction Data) where
  pub data Removed (r : Result Error Bool × TxPool Data) : Type 0 where
    was_pending :
        (before after : List (SerializedTransaction Data))
        → get_or_empty (pending_for p sender) ≡ before ++ tx ∷ after
        → r ≡ (
          ok true,
          set_queued_for sender
              (get_or_empty (queued_for p sender) ++ after)
              (set_pending_for sender before p),
        )
        → Removed r
    was_queued :
        (before after : List (SerializedTransaction Data))
        → get_or_empty (queued_for p sender) ≡ before ++ tx ∷ after
        → r ≡ (ok true, set_queued_for sender (before ++ after) p)
        → Removed r
    in_neither :
        index_of ext tx (get_or_empty (pending_for p sender)) ≡ none
        → index_of ext tx (get_or_empty (queued_for p sender)) ≡ none
        → r ≡ (throw not_in_lists, p)
        → Removed r

  -- The lists of the sender lose the transaction: from the pending list it goes with all that
  -- stood behind it, which joins the queued list; from the queued list it goes alone. On neither
  -- list, the call throws.
  pub remove_from_lists_lem : Removed (remove_from_lists ext sender tx p)
  unfolding remove_from_lists
  remove_from_lists_lem = elim (Option-cases (index_of ext tx pending)) [
    | inr (i, e) ↦
        let (x, hit, whole, rest) = find_index-Split (λ s. serialized_eq ext s tx) pending i e in
        let same : x ≡ tx = serialized_eq→eq ext x tx hit in
        was_pending (take i pending) (drop (suc i) pending)
          (subst (λ y. pending ≡ take i pending ++ y ∷ drop (suc i) pending) same whole)
          (rw (e, remove_from_lists, add-one))
    | inl e ↦ elim (Option-cases (index_of ext tx queued)) [
      | inr (i, f) ↦
          let (x, hit, whole, rest) = find_index-Split (λ s. serialized_eq ext s tx) queued i f in
          let same : x ≡ tx = serialized_eq→eq ext x tx hit in
          was_queued (take i queued) (drop (suc i) queued)
            (subst (λ y. queued ≡ take i queued ++ y ∷ drop (suc i) queued) same whole)
            (rw (e, f, remove_from_lists, rest))
      | inl f ↦ in_neither e f (rw (e, f, remove_from_lists))
    ]
  ]
    where
      pending : List (SerializedTransaction Data)
      pending = get_or_empty (pending_for p sender)

      queued : List (SerializedTransaction Data)
      queued = get_or_empty (queued_for p sender)

module _ {Data : Type 0} (ext : Externals Data) (p : TxPool Data) where
  -- A hash that the pool does not know: the answer is false and nothing changes.
  pub remove_transaction_unknown :
      (hash : ℕ)
      → Map.get hash p.state.hash_to_transaction ≡ none
      → remove_transaction ext hash p ≡ (ok false, p)
  unfolding remove_transaction get_transaction_by_hash
  remove_transaction_unknown hash e = rw (e, remove_transaction)

  pub remove_transaction_lem :
      (hash sender : ℕ) (s : SerializedTransaction Data)
      → Map.get hash p.state.hash_to_transaction ≡ some s
      → serialize_transaction ext (deserialize_transaction ext s) ≡ s
      → sender_of (deserialize_transaction ext s).tx.origin ≡ some sender
      → Removed ext (delete_transaction_by_hash hash p) sender s (remove_transaction ext hash p)
  unfolding remove_transaction get_transaction_by_hash get_sender_address
  remove_transaction_lem hash sender s e stored from =
      let call : remove_transaction ext hash p
          ≡ remove_from_lists ext sender s (delete_transaction_by_hash hash p) =
        ground (arith, sender_known (deserialize_transaction ext s).tx.origin sender from) in
      rw call (remove_from_lists_lem ext (delete_transaction_by_hash hash p) sender s)

  Removed-HasNoGaps :
      (q : TxPool Data) (sender : ℕ) (s : SerializedTransaction Data)
      (r : Result Error Bool × TxPool Data)
      → HasNoGaps ext q
      → Removed ext q sender s r
      → HasNoGaps ext r.1
  Removed-HasNoGaps q sender s r h (was_pending before after whole eq) =
      HasNoGaps-put ext q r.1 sender before (rw eq) h
        (IsConsecutive-left (nonce_in ext) before (s ∷ after) (rw whole at (h sender)))
  Removed-HasNoGaps q sender s r h (was_queued before after whole eq) = λ a. rw eq (h a)
  Removed-HasNoGaps q sender s r h (in_neither a b eq) = rw eq h

  -- If every sender's pending transactions have consecutive nonces, they still have them after a
  -- transaction that the pool knows, of a known sender and stored as it was serialized, is removed.
  pub remove_transaction-HasNoGaps :
      (hash sender : ℕ) (s : SerializedTransaction Data)
      → Map.get hash p.state.hash_to_transaction ≡ some s
      → serialize_transaction ext (deserialize_transaction ext s) ≡ s
      → sender_of (deserialize_transaction ext s).tx.origin ≡ some sender
      → HasNoGaps ext p
      → HasNoGaps ext (remove_transaction ext hash p).1
  remove_transaction-HasNoGaps hash sender s e stored from h =
      Removed-HasNoGaps (delete_transaction_by_hash hash p) sender s _ h
        (remove_transaction_lem hash sender s e stored from)
