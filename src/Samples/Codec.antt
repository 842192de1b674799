-- ===== src/Samples/Codec.antt =====
-- A concrete coding of transactions for the tests.
use polkahat.Prelude.{ℕ, ◌≡◌, ◌≢◌, refl, List, [], ◌∷◌, true, Option, none, some, get_elem?}
use polkahat.Transaction.{TypedTransaction, Origin, unverified, Fees, gas_price, eip1559}
use polkahat.Transaction.Values.{
  many, Kind, legacy, access_list, fee_market, TxData, Raw, values_of, non_empty, data_of,
}
use polkahat.Transaction.FakeSender.{Codec, kind_of, byte_or_zero}

-- Values arrays that hold the fields of a transaction; what ethereumjs computes from the others
-- stands in the payload.
abbrev fee_values : Fees → List ℕ
fee_values (gas_price p) = p ∷ []
fee_values (eip1559 m t) = m ∷ t ∷ []

abbrev fees_of : List ℕ → Fees
fees_of (m ∷ t ∷ ts) = eip1559 m t
fees_of (p ∷ []) = gas_price p
fees_of [] = gas_price 0

abbrev address_values : Option ℕ → List ℕ
address_values none = []
address_values (some a) = a ∷ []

abbrev address_of : Option (List ℕ) → Option ℕ
address_of (some (a ∷ rest)) = some a
address_of other = none

abbrev number_of : List ℕ → ℕ
number_of [] = 0
number_of (n ∷ ns) = n

abbrev raw_of : TypedTransaction → Raw TypedTransaction
raw_of t = record {
  chain_id = 1 ∷ [];
  nonce = t.nonce ∷ [];
  gas_price = fee_values t.fees;
  max_priority_fee_per_gas = [];
  max_fee_per_gas = fee_values t.fees;
  gas_limit = t.gas_limit ∷ [];
  to = address_values t.to;
  value = t.value ∷ [];
  payload = t.data_length ∷ t.tx_type ∷ t.base_fee ∷ t.upfront_cost ∷ t.hash ∷ [];
  access_list = t;
  v = 27 ∷ [];
  r = 1 ∷ [];
  s = 1 ∷ [];
}

abbrev price_values : Option (List ℕ) → Option (List ℕ) → List ℕ
price_values (some p) m = p
price_values none (some m) = m
price_values none none = []

abbrev payload_at : ℕ → List ℕ → ℕ
payload_at i d = byte_or_zero (get_elem? d i)

abbrev made_of : Kind → TxData TypedTransaction → TypedTransaction
made_of kind d = record {
  origin = unverified true;
  nonce = number_of d.nonce;
  gas_limit = number_of d.gas_limit;
  value = number_of d.value;
  fees = fees_of (price_values d.gas_price d.max_fee_per_gas);
  to = address_of d.to;
  data_length = payload_at 0 d.payload;
  tx_type = payload_at 1 d.payload;
  base_fee = payload_at 2 d.payload;
  upfront_cost = payload_at 3 d.payload;
  hash = payload_at 4 d.payload;
}

fees_of_values : (f : Fees) → fees_of (fee_values f) ≡ f
fees_of_values (gas_price p) = refl
fees_of_values (eip1559 m t) = refl

address_of_values : (o : Option ℕ) → address_of (non_empty (address_values o)) ≡ o
address_of_values none = refl
address_of_values (some a) = refl

pub made_of-raw_of :
    (t : TypedTransaction) (o : Origin) (k : Kind)
    → record (made_of k (data_of number_of k (raw_of t))) { origin = o } ≡ record t { origin = o }
made_of-raw_of t o legacy =
    λ i. record t { origin = o; fees = fees_of_values t.fees i; to = address_of_values t.to i }
made_of-raw_of t o access_list =
    λ i. record t { origin = o; fees = fees_of_values t.fees i; to = address_of_values t.to i }
made_of-raw_of t o fee_market =
    λ i. record t { origin = o; fees = fees_of_values t.fees i; to = address_of_values t.to i }

pub one_ne_nil : ◌≢◌ {A = List ℕ} (1 ∷ []) []
one_ne_nil x = cc

abbrev pub plain_codec : Codec TypedTransaction
plain_codec = record {
  serialize = λ t. t;
  rlp_decode = λ d. many (values_of (kind_of d.tx_type) (raw_of d));
  first_byte = λ d. some d.tx_type;
  after_first = λ d. d;
  bytes_to_int = number_of;
  digest = λ parts. 1 ∷ 0 ∷ 0 ∷ 0 ∷ 1 ∷ 0 ∷ 0 ∷ 0 ∷ [];
  construct = made_of;
  raw = raw_of;
  decode_legacy = λ t e. rw e refl;
  typed_first = λ t n. refl;
  decode_typed = λ t k e n. rw e refl;
  construct_raw = λ t o. made_of-raw_of t o (kind_of t.tx_type);
  signed = λ t a from. (one_ne_nil, one_ne_nil);
}
