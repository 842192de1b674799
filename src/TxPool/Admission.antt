-- ===== src/TxPool/Admission.antt =====
-- `addTransaction` as a whole: which transactions it takes, and where they go.
use polkahat.Prelude.{
  ℕ, ◌+◌, ◌*◌, ◌≤◌, ◌<◌, ◌≡◌, ◌≢◌, ◌↔◌, inl, inr, refl, List, false, Option, some, ltb, ltb→lt,
  ltb→le, ==→ne, arith, Bool-cases, All, All-map, any-false, All-any,
}
use polkahat.Prelude.Outcome.{Result, ok, throw}
use polkahat.Transaction.{
  TypedTransaction, SerializedTransaction, Externals, Origin, sender_of, max_fee_of,
  deserialize_transaction,
}
use polkahat.TxPool.State.{
  Error, known_transaction, creation_without_data, not_enough_funds, nonce_too_low,
  gas_below_base_fee, gas_above_block_limit, Account, TxPool, get_or_empty, nonce_of, balance_of,
  pending_for, queued_for, next_pending_nonce, get_sender_address, sender_or_throw,
  raw_sender_address,
}
use polkahat.TxPool.Add.{
  creates_without_data, transaction_exists, is_known_transaction, validate_transaction,
  add_transaction, add_queued_transaction, add_pending_transaction,
}
use polkahat.TxPool.Placement.{
  AddedPending, AddedQueued, add_pending_transaction_lem, add_queued_transaction_lem,
}

pub sender_known :
    (o : Origin) (sender : ℕ) → sender_of o ≡ some sender → sender_or_throw o ≡ ok sender
sender_known o sender h = ground arith

module _ {Data : Type 0} (ext : Externals Data) where
  -- No transaction of the list has the hash.
  abbrev pub IsNewTo : TypedTransaction → List (SerializedTransaction Data) → Type 0
  IsNewTo tx txs = All (λ s. (deserialize_transaction ext s).tx.hash ≢ tx.hash) txs

  pub record IsAcceptable (accounts : ℕ → Option Account) (p : TxPool Data) (tx : TypedTransaction)
      (sender : ℕ) : Type 0 where
    pub not_pending : IsNewTo tx (get_or_empty (pending_for p sender))
    pub not_queued : IsNewTo tx (get_or_empty (queued_for p sender))
    pub has_content : creates_without_data tx.to tx.data_length ≡ false
    pub is_funded : tx.gas_limit * max_fee_of tx.fees + tx.value ≤ balance_of (accounts sender)
    pub is_next : nonce_of (accounts sender) ≤ tx.nonce
    pub covers_base : tx.base_fee ≤ tx.gas_limit
    pub fits : tx.gas_limit ≤ p.state.block_gas_limit

  transaction_exists-false :
      (tx : TypedTransaction) (txs : Option (List (SerializedTransaction Data)))
      → (transaction_exists ext tx txs ≡ false) ↔ IsNewTo tx (get_or_empty txs)
  unfolding transaction_exists
  transaction_exists-false tx txs = (
    λ h. All-map _ (λ s e. ==→ne _ _ e) (get_or_empty txs) (any-false _ (get_or_empty txs) h),
    λ h. All-any _ (get_or_empty txs) (All-map _ (λ s n. ground arith) (get_or_empty txs) h),
  )

  module _ (accounts : ℕ → Option Account) (p : TxPool Data) (tx : TypedTransaction)
      (sender : ℕ) where
    -- Validation passes just the acceptable transactions, and writes nothing either way.
    pub data Validated (r : Result Error (Unit {0}) × TxPool Data) : Type 0 where
      passed : IsAcceptable accounts p tx sender → r ≡ (ok tt, p) → Validated r
      refused : (e : Error) → ¬ IsAcceptable accounts p tx sender → r ≡ (throw e, p) → Validated r

    validate_transaction_lem :
        sender_of tx.origin ≡ some sender
        → Validated (validate_transaction ext accounts tx sender (nonce_of (accounts sender)) p)
    unfolding validate_transaction is_known_transaction raw_sender_address
    validate_transaction_lem from =
        elim (Bool-cases (transaction_exists ext tx (pending_for p sender))) [
          | inl a ↦
              refused known_transaction
                (λ v. cc ((transaction_exists-false tx (pending_for p sender)).1 v.not_pending))
                (ground arith)
          | inr a ↦ elim (Bool-cases (transaction_exists ext tx (queued_for p sender))) [
            | inl b ↦
                refused known_transaction
                  (λ v. cc ((transaction_exists-false tx (queued_for p sender)).1 v.not_queued))
                  (ground arith)
            | inr b ↦
                checked ((transaction_exists-false tx (pending_for p sender)).0 a)
                  ((transaction_exists-false tx (queued_for p sender)).0 b) a b
          ]
        ]
      where
        checked :
            IsNewTo tx (get_or_empty (pending_for p sender))
            → IsNewTo tx (get_or_empty (queued_for p sender))
            → transaction_exists ext tx (pending_for p sender) ≡ false
            → transaction_exists ext tx (queued_for p sender) ≡ false
            → Validated (validate_transaction ext accounts tx sender (nonce_of (accounts sender)) p)
        checked new_p new_q a b = elim (Bool-cases (creates_without_data tx.to tx.data_length)) [
          | inl c ↦ refused creation_without_data (λ v. cc v.has_content) (ground arith)
          | inr c ↦
              elim (Bool-cases (
                ltb (balance_of (accounts sender))
                  (tx.gas_limit * max_fee_of tx.fees + tx.value))) [
                    | inl d ↦
                        refused not_enough_funds (λ v. ground (arith, v.is_funded)) (ground arith)
                    | inr d ↦ elim (Bool-cases (ltb tx.nonce (nonce_of (accounts sender)))) [
                      | inl e ↦
                          refused nonce_too_low (λ v. ground (arith, v.is_next)) (ground arith)
                      | inr e ↦ elim (Bool-cases (ltb tx.gas_limit tx.base_fee)) [
                        | inl f ↦
                            refused gas_below_base_fee (λ v. ground (arith, v.covers_base))
                              (ground arith)
                        | inr f ↦ elim (Bool-cases (ltb p.state.block_gas_limit tx.gas_limit)) [
                          | inl g ↦
                              refused gas_above_block_limit (λ v. ground (arith, v.fits))
                                (ground arith)
                          | inr g ↦
                              passed
                                (record {
                                  not_pending = new_p;
                                  not_queued = new_q;
                                  has_content = c;
                                  is_funded = ltb→le _ _ d;
                                  is_next = ltb→le _ _ e;
                                  covers_base = ltb→le _ _ f;
                                  fits = ltb→le _ _ g;
                                })
                                (ground arith)
                        ]
                      ]
                    ]
                  ]
        ]

    pub data Added (r : Result Error (Unit {0}) × TxPool Data) : Type 0 where
      refused : (e : Error) → ¬ IsAcceptable accounts p tx sender → r ≡ (throw e, p) → Added r
      queued :
          IsAcceptable accounts p tx sender
          → next_pending_nonce ext accounts p sender < tx.nonce
          → AddedQueued ext tx sender p r
          → Added r
      pending :
          IsAcceptable accounts p tx sender
          → tx.nonce ≤ next_pending_nonce ext accounts p sender
          → AddedPending ext tx sender p r
          → Added r

    after_validation :
        (r : Result Error (Unit {0}) × TxPool Data)
        → sender_of tx.origin ≡ some sender
        → validate_transaction ext accounts tx sender (nonce_of (accounts sender)) p ≡ r
        → Validated r
        → Added (add_transaction ext accounts tx p)
    unfolding add_transaction get_sender_address
    after_validation r from e (refused error bad eq) =
        Added.refused error bad (ground (arith, sender_known tx.origin sender from))
    after_validation r from e (passed good eq) =
        elim (Bool-cases (ltb (next_pending_nonce ext accounts p sender) tx.nonce)) [
          | inl later ↦
              let to_queued : add_transaction ext accounts tx p ≡ add_queued_transaction ext tx p =
                ground (arith, sender_known tx.origin sender from) in
              Added.queued good (ltb→lt _ _ later)
                (rw to_queued (add_queued_transaction_lem ext tx sender p from))
          | inr now ↦
              let to_pending : add_transaction ext accounts tx p
                  ≡ add_pending_transaction ext tx p =
                ground (arith, sender_known tx.origin sender from) in
              Added.pending good (ltb→le _ _ now)
                (rw to_pending (add_pending_transaction_lem ext tx sender p from))
        ]

    pub add_transaction_lem :
        sender_of tx.origin ≡ some sender → Added (add_transaction ext accounts tx p)
    add_transaction_lem from = after_validation _ from refl (validate_transaction_lem from)
