-- ===== src/Transaction/Coding.antt =====
-- The form that the pool keeps transactions in: `serializeTransaction` and `deserializeTransaction`
-- (the head of provider/TxPool.ts). ethereumjs' coding and immutable's `sortBy` and iteration are not
-- this program's code: they are the parameter `Externals`.
use mathlib.Core.List.{Permᴰ}
use polkahat.Prelude.{
  ℕ, ◌≡◌, ◌↔◌, Bool, true, false, ◌&&◌, Option, none, some, List, ◌==◌, ap, refl, arith,
}
use polkahat.Prelude.Outcome.{Result, ok, throw}
use polkahat.Transaction.Types.{
  TypedTransaction, OrderedTransaction, SerializedTransaction, Origin, fake, recovered, unverified,
  fake_sender_of, IsSortedBy,
}
use polkahat.Transaction.Values.{FakeError}
use polkahat.Transaction.FakeSender.{
  Codec, from_sender_and_rlp_serialized_tx, from_sender_and_rlp_serialized_tx-serialize,
}

-- The library calls: decoding what was encoded from a signed transaction gives it back, texts are
-- compared by value, immutable goes through a map's entries in some order, and its `sortBy`
-- rearranges a list in the order of its keys.
pub record Externals (Data : Type 0) : Type 0 where
  pub codec : Codec Data
  pub from_serialized_data : Data → TypedTransaction
  pub data_eq : Data → Data → Bool
  pub entries :
      List (ℕ × List (SerializedTransaction Data)) → List (ℕ × List (SerializedTransaction Data))
  pub sort_by :
      (SerializedTransaction Data → ℕ)
      → List (SerializedTransaction Data)
      → List (SerializedTransaction Data)
  pub decode :
      (t : TypedTransaction)
      → fake_sender_of t.origin ≡ none
      → from_serialized_data (codec.serialize t) ≡ t
  pub data_eq_iff : (d e : Data) → (data_eq d e ≡ true) ↔ (d ≡ e)
  pub entries-perm : (m : List (ℕ × List (SerializedTransaction Data))) → Permᴰ (entries m) m
  pub sort_by-perm :
      (key : SerializedTransaction Data → ℕ) (xs : List (SerializedTransaction Data))
      → Permᴰ (sort_by key xs) xs
  pub sort_by-IsSortedBy :
      (key : SerializedTransaction Data → ℕ) (xs : List (SerializedTransaction Data))
      → IsSortedBy key (sort_by key xs)

-- `undefined` or an address, compared by value.
abbrev pub option_eq : Option ℕ → Option ℕ → Bool
option_eq none none = true
option_eq none (some b) = false
option_eq (some a) none = false
option_eq (some a) (some b) = a == b

module _ {Data : Type 0} (ext : Externals Data) where
  unfoldable pub serialize_transaction : OrderedTransaction → SerializedTransaction Data
  serialize_transaction o = record {
    order_id = o.order_id;
    fake_from = fake_sender_of o.tx.origin;
    rlp = ext.codec.serialize o.tx;
    tx_type = o.tx.tx_type;
  }

  -- The branch on `fakeFrom` and `txType`.
  unfoldable pub decode_data : Option ℕ → ℕ → Data → Result FakeError TypedTransaction
  unfolding from_sender_and_rlp_serialized_tx
  decode_data (some sender) ty d = from_sender_and_rlp_serialized_tx ext.codec ty sender d
  decode_data none ty d = ok (ext.from_serialized_data d)

  abbrev ok_or : TypedTransaction → Result FakeError TypedTransaction → TypedTransaction
  ok_or t (ok x) = x
  ok_or t (throw e) = t

  -- Where this throws, so does the source; here what ethereumjs decodes is taken instead. The pool
  -- decodes only what `serialize_transaction` made.
  unfoldable pub deserialize_data : Option ℕ → ℕ → Data → TypedTransaction
  unfolding decode_data
  deserialize_data sender ty d = ok_or (ext.from_serialized_data d) (decode_data sender ty d)

  unfoldable pub deserialize_transaction : SerializedTransaction Data → OrderedTransaction
  unfolding deserialize_data
  deserialize_transaction s = record {
    order_id = s.order_id;
    tx = deserialize_data s.fake_from s.tx_type s.rlp;
  }

  -- immutable's `is` on two records.
  unfoldable pub serialized_eq : SerializedTransaction Data → SerializedTransaction Data → Bool
  serialized_eq a b =
      a.order_id == b.order_id
      && option_eq a.fake_from b.fake_from
      && ext.data_eq a.rlp b.rlp
      && a.tx_type == b.tx_type

  decode_origin :
      (t : TypedTransaction) (o : Origin)
      → t.origin ≡ o
      → decode_data (fake_sender_of o) t.tx_type (ext.codec.serialize t) ≡ ok t
  unfolding decode_data
  decode_origin t (fake a) e = from_sender_and_rlp_serialized_tx-serialize ext.codec t a e
  decode_origin t (recovered a) e = ap ok (ext.decode t (ap fake_sender_of e))
  decode_origin t (unverified s) e = ap ok (ext.decode t (ap fake_sender_of e))

  pub deserialize-serialize :
      (o : OrderedTransaction)
      → (decode_data
            (serialize_transaction o).fake_from
            (serialize_transaction o).tx_type
            (serialize_transaction o).rlp
          ≡ ok o.tx)
        × (deserialize_transaction (serialize_transaction o) ≡ o)
  unfolding deserialize_transaction serialize_transaction deserialize_data
  deserialize-serialize o =
      let back = decode_origin o.tx o.tx.origin refl in
      (
        back,
        λ i. record {
          order_id = o.order_id;
          tx = ok_or (ext.from_serialized_data (ext.codec.serialize o.tx)) (back i);
        },
      )

  option_eq→eq : (a b : Option ℕ) → option_eq a b ≡ true → a ≡ b
  option_eq→eq a b h = ground arith

  option_eq_self : (a : Option ℕ) → option_eq a a ≡ true
  option_eq_self a = ground arith

  pub serialized_eq→eq : (a b : SerializedTransaction Data) → serialized_eq a b ≡ true → a ≡ b
  unfolding serialized_eq
  serialized_eq→eq a b h =
      ground (arith, option_eq→eq a.fake_from b.fake_from, (ext.data_eq_iff a.rlp b.rlp).0)

  pub serialized_eq_self : (a : SerializedTransaction Data) → serialized_eq a a ≡ true
  unfolding serialized_eq
  serialized_eq_self a =
      ground (arith, option_eq_self a.fake_from, (ext.data_eq_iff a.rlp a.rlp).1 refl)
