-- ===== src/Transaction/FakeSender.antt =====
-- provider/transactions/FakeSender….ts: transactions of senders whose key is not known, and
-- provider/utils/makeFakeSignature.ts. ethereumjs' constructors, RLP and the hash are the parameter
-- `Codec`.
use polkahat.Prelude.{
  ℕ, ◌+◌, ◌*◌, ◌≡◌, ◌≢◌, refl, sym, subst, ap, ◌∙◌, inl, inr, Option, none, some, List, [], ◌∷◌,
  ◌==◌, ==_iff, Bool-cases, if◌then◌else◌, get_elem?,
}
use polkahat.Prelude.Outcome.{Result, ok, throw}
use polkahat.Transaction.Types.{TypedTransaction, Origin, fake}
use polkahat.Transaction.Values.{
  Decoded, malformed, single, many, FakeError, invalid_arguments, invalid_values, library_error,
  Kind, legacy, access_list, fee_market, Number, int, TxData, Part, empty_text, address_text,
  bytes_text, access_list_text, Raw, values_of, all_bytes, legacy_values, int_or_none,
  access_list_values, fee_market_values, data_of,
}

abbrev pub kind_of : ℕ → Kind
kind_of ty = if ty == 1 then access_list else if ty == 2 then fee_market else legacy

-- The packages: `construct` is the constructor of the class that is extended, `digest` the md5 of
-- the joined texts, `first_byte` and `after_first` read and drop the byte of a transaction's type.
-- An encoding that ethereumjs makes is decoded to the values, in the order of the transaction's
-- type, and a transaction that is made of another's values has the same getters but for the
-- sender. The md5's first two words, with which alone a faked sender's transaction is signed, are
-- taken not to be 0.
pub record Codec (Data : Type 0) : Type 0 where
  pub serialize : TypedTransaction → Data
  pub rlp_decode : Data → Decoded Data
  pub first_byte : Data → Option ℕ
  pub after_first : Data → Data
  pub bytes_to_int : List ℕ → ℕ
  pub digest : List (Part Data) → List ℕ
  pub construct : Kind → TxData Data → TypedTransaction
  pub raw : TypedTransaction → Raw Data
  pub decode_legacy :
      (t : TypedTransaction)
      → kind_of t.tx_type ≡ legacy
      → rlp_decode (serialize t) ≡ many (values_of legacy (raw t))
  pub typed_first :
      (t : TypedTransaction)
      → kind_of t.tx_type ≢ legacy
      → first_byte (serialize t) ≡ some t.tx_type
  pub decode_typed :
      (t : TypedTransaction) (k : Kind)
      → kind_of t.tx_type ≡ k
      → k ≢ legacy
      → rlp_decode (after_first (serialize t)) ≡ many (values_of k (raw t))
  pub construct_raw :
      (t : TypedTransaction) (o : Origin)
      → record (construct (kind_of t.tx_type) (data_of bytes_to_int (kind_of t.tx_type) (raw t))) {
        origin = o;
      }
        ≡ record t { origin = o }
  pub signed :
      (t : TypedTransaction) (a : ℕ) → t.origin ≡ fake a → ((raw t).r ≢ []) × ((raw t).s ≢ [])

abbrev pub byte_or_zero : Option ℕ → ℕ
byte_or_zero none = 0
byte_or_zero (some b) = b

-- `readUInt32LE`
unfoldable pub read_u_int32_le : List ℕ → ℕ → ℕ
read_u_int32_le bs i =
    byte_or_zero (get_elem? bs i)
    + 256 * byte_or_zero (get_elem? bs (i + 1))
    + 65536 * byte_or_zero (get_elem? bs (i + 2))
    + 16777216 * byte_or_zero (get_elem? bs (i + 3))

abbrev or_else : Option Number → Number → Number
or_else none n = n
or_else (some m) n = m

module _ {Data : Type 0} where
  abbrev pub text_of : Option (List ℕ) → Part Data
  text_of none = empty_text
  text_of (some b) = bytes_text b

  abbrev pub text_of_access_list : Option Data → Part Data
  text_of_access_list none = empty_text
  text_of_access_list (some l) = access_list_text l

module _ {Data : Type 0} (codec : Codec Data) where
  unfoldable pub make_fake_signature : TxData Data → ℕ → ℕ × ℕ
  unfolding read_u_int32_le
  make_fake_signature tx sender =
      let hash_digest : List ℕ = codec.digest (
        address_text sender
        ∷ bytes_text tx.nonce
        ∷ bytes_text tx.gas_limit
        ∷ bytes_text tx.value
        ∷ text_of tx.to
        ∷ bytes_text tx.payload
        ∷ text_of tx.gas_price
        ∷ text_of tx.chain_id
        ∷ text_of tx.max_priority_fee_per_gas
        ∷ text_of tx.max_fee_per_gas
        ∷ text_of_access_list tx.access_list
        ∷ []) in
      (read_u_int32_le hash_digest 0, read_u_int32_le hash_digest 4)

  -- The default of `v`, by class.
  abbrev pub default_v : Kind → ℕ
  default_v legacy = 27
  default_v access_list = 1
  default_v fee_market = 1

  -- The constructors, and `getSenderAddress`.
  unfoldable pub new_fake_sender : Kind → ℕ → TxData Data → TypedTransaction
  unfolding make_fake_signature
  new_fake_sender kind sender tx =
      record (codec.construct kind (record tx {
        v = some (or_else tx.v (int (default_v kind)));
        r = some (or_else tx.r (int (make_fake_signature tx sender).0));
        s = some (or_else tx.s (int (make_fake_signature tx sender).1));
      })) { origin = fake sender }

  abbrev constructed :
      Kind → ℕ → FakeError → Option (TxData Data) → Result FakeError TypedTransaction
  constructed kind sender e none = throw e
  constructed kind sender e (some tx) = ok (new_fake_sender kind sender tx)

  abbrev pub legacy_of_values : ℕ → Option (List (List ℕ)) → Result FakeError TypedTransaction
  legacy_of_values sender none = throw invalid_arguments
  legacy_of_values sender (some values) =
      constructed legacy sender invalid_values (legacy_values values)

  -- `FakeSenderTransaction.fromSenderAndRlpSerializedTx`
  unfoldable pub fake_legacy : ℕ → Data → Result FakeError TypedTransaction
  unfolding all_bytes legacy_values new_fake_sender
  fake_legacy sender serialized = elim (codec.rlp_decode serialized) [
    | malformed ↦ throw library_error
    | single b ↦ throw invalid_arguments
    | many values ↦ legacy_of_values sender (all_bytes values)
  ]

  -- `FakeSenderAccessListEIP2930Transaction.fromSenderAndRlpSerializedTx`
  unfoldable pub fake_access_list : ℕ → Data → Result FakeError TypedTransaction
  unfolding access_list_values new_fake_sender
  fake_access_list sender serialized =
      if byte_or_zero (codec.first_byte serialized) == 1
      then elim (codec.rlp_decode (codec.after_first serialized))
          as (λ d. Result FakeError TypedTransaction) [
            | malformed ↦ throw library_error
            | single b ↦ throw invalid_arguments
            | many values ↦
                constructed access_list sender invalid_arguments
                  (access_list_values codec.bytes_to_int values)
          ]
      else throw invalid_arguments

  -- `FakeSenderEIP1559Transaction.fromSenderAndRlpSerializedTx`
  unfoldable pub fake_eip1559 : ℕ → Data → Result FakeError TypedTransaction
  unfolding fee_market_values new_fake_sender
  fake_eip1559 sender serialized =
      if byte_or_zero (codec.first_byte serialized) == 2
      then elim (codec.rlp_decode (codec.after_first serialized))
          as (λ d. Result FakeError TypedTransaction) [
            | malformed ↦ throw library_error
            | single b ↦ throw invalid_arguments
            | many values ↦
                constructed fee_market sender invalid_arguments
                  (fee_market_values codec.bytes_to_int values)
          ]
      else throw invalid_arguments

  -- ethereumjs' classes by the type of the transaction, as `deserializeTransaction` chooses.
  unfoldable pub from_sender_and_rlp_serialized_tx :
      ℕ → ℕ → Data → Result FakeError TypedTransaction
  unfolding fake_legacy fake_access_list fake_eip1559
  from_sender_and_rlp_serialized_tx ty sender serialized =
      if ty == 1
      then fake_access_list sender serialized
      else if ty == 2
      then fake_eip1559 sender serialized
      else fake_legacy sender serialized

  int_or_none_signed :
      (bs : List ℕ)
      → bs ≢ []
      → int_or_none codec.bytes_to_int bs ≡ some (int (codec.bytes_to_int bs))
  int_or_none_signed [] h = absurd (h refl)
  int_or_none_signed (b ∷ bs) h = refl

  module _ (t : TypedTransaction) (a : ℕ) (from : t.origin ≡ fake a) where
    same_getters :
        (k : Kind)
        → kind_of t.tx_type ≡ k
        → record (codec.construct k (data_of codec.bytes_to_int k (codec.raw t))) {
          origin = fake a;
        }
          ≡ t
    same_getters k e =
        subst
          (λ k.
            record (codec.construct k (data_of codec.bytes_to_int k (codec.raw t))) {
              origin = fake a;
            }
            ≡ record t { origin = fake a })
          e (codec.construct_raw t (fake a))
        ∙ (λ i. record t { origin = sym from i })

    fake_legacy-serialize : kind_of t.tx_type ≡ legacy → fake_legacy a (codec.serialize t) ≡ ok t
    unfolding fake_legacy all_bytes legacy_values new_fake_sender
    fake_legacy-serialize k =
        rw (codec.decode_legacy t k, fake_legacy) (ap ok (same_getters legacy k))

    fake_access_list-serialize : t.tx_type ≡ 1 → fake_access_list a (codec.serialize t) ≡ ok t
    unfolding fake_access_list access_list_values new_fake_sender
    fake_access_list-serialize e =
        let k : kind_of t.tx_type ≡ access_list = rw e refl in
        let first : codec.first_byte (codec.serialize t) ≡ some 1 =
          codec.typed_first t (rw e (λ x. cc)) ∙ ap some e in
        rw
          (
            fake_access_list,
            first,
            codec.decode_typed t access_list k (λ x. cc),
            int_or_none_signed (codec.raw t).r (codec.signed t a from).0,
            int_or_none_signed (codec.raw t).s (codec.signed t a from).1,
          )
          (ap ok (same_getters access_list k))

    fake_eip1559-serialize : t.tx_type ≡ 2 → fake_eip1559 a (codec.serialize t) ≡ ok t
    unfolding fake_eip1559 fee_market_values new_fake_sender
    fake_eip1559-serialize e =
        let k : kind_of t.tx_type ≡ fee_market = rw e refl in
        let first : codec.first_byte (codec.serialize t) ≡ some 2 =
          codec.typed_first t (rw e (λ x. cc)) ∙ ap some e in
        rw
          (
            fake_eip1559,
            first,
            codec.decode_typed t fee_market k (λ x. cc),
            int_or_none_signed (codec.raw t).r (codec.signed t a from).0,
            int_or_none_signed (codec.raw t).s (codec.signed t a from).1,
          )
          (ap ok (same_getters fee_market k))

    -- The class of the transaction's type makes a faked sender's transaction again from its
    -- encoding.
    pub from_sender_and_rlp_serialized_tx-serialize :
        from_sender_and_rlp_serialized_tx t.tx_type a (codec.serialize t) ≡ ok t
    unfolding from_sender_and_rlp_serialized_tx
    from_sender_and_rlp_serialized_tx-serialize = elim (Bool-cases (t.tx_type == 1)) [
      | inl one ↦ rw one (fake_access_list-serialize ((==_iff t.tx_type 1).0 one))
      | inr not_one ↦ elim (Bool-cases (t.tx_type == 2)) [
        | inl two ↦ rw (not_one, two) (fake_eip1559-serialize ((==_iff t.tx_type 2).0 two))
        | inr not_two ↦ rw (not_one, not_two) (fake_legacy-serialize (rw (not_one, not_two) refl))
      ]
    ]
