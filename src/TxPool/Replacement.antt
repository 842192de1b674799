-- ===== src/TxPool/Replacement.antt =====
-- Replacement by a transaction of the same nonce that pays more: `_getMinNewFeePrice` and
-- `_replaceTx`.
use polkahat.Prelude.{
  ℕ, ◌*◌, ◌≤◌, ◌≡◌, ◌↔◌, refl, inl, inr, List, Option, none, some, set, get_elem?, ltb, ◌==◌,
  ==_iff, arith, Bool-cases, Option-cases,
}
use polkahat.Prelude.Outcome.{Result, ok, throw}
use polkahat.Transaction.{
  TypedTransaction, OrderedTransaction, SerializedTransaction, Externals, max_fee_of,
  priority_fee_of, serialize_transaction, deserialize_transaction,
}
use polkahat.TxPool.State.{
  Error, underpriced_max_fee, underpriced_priority_fee, TxPool, get_or_empty, nonce_in,
  delete_transaction_by_hash,
}
use polkahat.TxPool.Nonces.{find_index-some}
use polkahat.TxPool.Add.{get_min_new_fee_price, existing_index, replace_at, replace_tx}

-- The new price is the least one that is at least 110% of the old.
pub get_min_new_fee_price-least :
    (old new : ℕ) → (get_min_new_fee_price old ≤ new) ↔ (old * 110 ≤ new * 100)
unfolding get_min_new_fee_price
get_min_new_fee_price-least old new = ground arith

module _ {Data : Type 0} (ext : Externals Data) where
  -- Both fees of the new transaction are at least 110% of the old ones.
  abbrev pub PaysMore : TypedTransaction → TypedTransaction → Type 0
  PaysMore old new =
      (max_fee_of old.fees * 110 ≤ max_fee_of new.fees * 100)
      × (priority_fee_of old.fees * 110 ≤ priority_fee_of new.fees * 100)

  pub data Replacement (txs : List (SerializedTransaction Data)) (new_tx : OrderedTransaction)
      (p : TxPool Data)
      (r : Result Error (Option (List (SerializedTransaction Data))) × TxPool Data) : Type 0 where
    absent : existing_index ext txs new_tx ≡ none → r ≡ (ok none, p) → Replacement txs new_tx p r
    underpriced :
        (i : ℕ) (old : SerializedTransaction Data) (e : Error)
        → get_elem? txs i ≡ some old
        → nonce_in ext old ≡ new_tx.tx.nonce
        → ¬ PaysMore (deserialize_transaction ext old).tx new_tx.tx
        → r ≡ (throw e, p)
        → Replacement txs new_tx p r
    replaced :
        (i : ℕ) (old : SerializedTransaction Data)
        → get_elem? txs i ≡ some old
        → nonce_in ext old ≡ new_tx.tx.nonce
        → PaysMore (deserialize_transaction ext old).tx new_tx.tx
        → r ≡ (
          ok (some (set txs i (serialize_transaction ext new_tx))),
          delete_transaction_by_hash (deserialize_transaction ext old).tx.hash p,
        )
        → Replacement txs new_tx p r

  -- The two price checks.
  data Priced (txs : List (SerializedTransaction Data)) (new_tx : OrderedTransaction) (i : ℕ)
      (existing : OrderedTransaction) (p : TxPool Data)
      (r : Result Error (Option (List (SerializedTransaction Data))) × TxPool Data) : Type 0 where
    too_low :
        (e : Error)
        → ¬ PaysMore existing.tx new_tx.tx
        → r ≡ (throw e, p)
        → Priced txs new_tx i existing p r
    enough :
        PaysMore existing.tx new_tx.tx
        → r ≡ (
          ok (some (set txs i (serialize_transaction ext new_tx))),
          delete_transaction_by_hash existing.tx.hash p,
        )
        → Priced txs new_tx i existing p r

  replace_at_lem :
      (txs : List (SerializedTransaction Data)) (new_tx : OrderedTransaction) (i : ℕ)
      (existing : OrderedTransaction) (p : TxPool Data)
      → Priced txs new_tx i existing p (replace_at ext txs new_tx i existing p)
  unfolding replace_at
  replace_at_lem txs new_tx i existing p =
      elim (Bool-cases (ltb new_max (get_min_new_fee_price old_max))) [
        | inl low ↦
            too_low underpriced_max_fee
              (λ more. ground (arith, (get_min_new_fee_price-least old_max new_max).1))
              (rw (low, replace_at))
        | inr high ↦ elim (Bool-cases (ltb new_priority (get_min_new_fee_price old_priority))) [
          | inl low ↦
              too_low underpriced_priority_fee
                (λ more. ground (arith, (get_min_new_fee_price-least old_priority new_priority).1))
                (rw (high, low, replace_at))
          | inr fine ↦
              enough
                (
                  ground (arith, (get_min_new_fee_price-least old_max new_max).0),
                  ground (arith, (get_min_new_fee_price-least old_priority new_priority).0),
                )
                (rw (high, fine, replace_at))
        ]
      ]
    where
      old_max : ℕ
      old_max = max_fee_of existing.tx.fees

      new_max : ℕ
      new_max = max_fee_of new_tx.tx.fees

      old_priority : ℕ
      old_priority = priority_fee_of existing.tx.fees

      new_priority : ℕ
      new_priority = priority_fee_of new_tx.tx.fees

  replaced_at :
      (txs : List (SerializedTransaction Data)) (new_tx : OrderedTransaction) (i : ℕ)
      (old : SerializedTransaction Data) (p : TxPool Data)
      {r : Result Error (Option (List (SerializedTransaction Data))) × TxPool Data}
      → get_elem? txs i ≡ some old
      → nonce_in ext old ≡ new_tx.tx.nonce
      → Priced txs new_tx i (deserialize_transaction ext old) p r
      → Replacement txs new_tx p r
  replaced_at txs new_tx i old p at_i same (too_low e few eq) = underpriced i old e at_i same few eq
  replaced_at txs new_tx i old p at_i same (enough more eq) = replaced i old at_i same more eq

  pub replace_tx_lem :
      (txs : Option (List (SerializedTransaction Data))) (new_tx : OrderedTransaction)
      (p : TxPool Data)
      → Replacement (get_or_empty txs) new_tx p (replace_tx ext txs new_tx p)
  unfolding replace_tx
  replace_tx_lem none new_tx p = absent refl refl
  replace_tx_lem (some txs) new_tx p = elim (Option-cases (existing_index ext txs new_tx)) [
    | inl e ↦ absent e (rw (e, replace_tx))
    | inr (i, e) ↦
        let (old, at_i, same) = find_index-some (λ s. nonce_in ext s == new_tx.tx.nonce) txs i e in
        rw (e, at_i, replace_tx)
          (replaced_at txs new_tx i old p at_i ((==_iff _ _).0 same)
            (replace_at_lem txs new_tx i (deserialize_transaction ext old) p))
  ]
