-- ===== src/Transaction/Values.antt =====
-- provider/transactions/FakeSender….ts: the checks of decoded values, and what the classes of
-- transactions with a faked sender are made of. A text is what it spells.
use polkahat.Prelude.{ℕ, Option, none, some, List, [], ◌∷◌}

-- What RLP spells in a list: bytes, or again a list, here by its encoding.
pub data Item (Data : Type 0) : Type 0 where
  bytes : List ℕ → Item Data
  nested : Data → Item Data

-- What `rlp.decode` returns, if it returns.
pub data Decoded (Data : Type 0) : Type 0 where
  malformed : Decoded Data
  single : List ℕ → Decoded Data
  many : List (Item Data) → Decoded Data

pub data FakeError : Type 0 where
  invalid_arguments invalid_values library_error : FakeError

-- The class that is extended.
pub data Kind : Type 0 where
  legacy access_list fee_market : Kind

-- A part of a signature, as bytes or as a number.
pub data Number : Type 0 where
  raw_number : List ℕ → Number
  int : ℕ → Number

-- What the constructors are given; a field that a class does not have is absent.
pub record TxData (Data : Type 0) : Type 0 where
  pub chain_id : Option (List ℕ)
  pub nonce : List ℕ
  pub gas_price : Option (List ℕ)
  pub max_priority_fee_per_gas : Option (List ℕ)
  pub max_fee_per_gas : Option (List ℕ)
  pub gas_limit : List ℕ
  pub to : Option (List ℕ)
  pub value : List ℕ
  pub payload : List ℕ
  pub access_list : Option Data
  pub v : Option Number
  pub r : Option Number
  pub s : Option Number

-- What `makeFakeSignature` joins to the text that it hashes.
pub data Part (Data : Type 0) : Type 0 where
  empty_text : Part Data
  address_text : ℕ → Part Data
  bytes_text : List ℕ → Part Data
  access_list_text : Data → Part Data

-- The values array of a signed ethereumjs transaction, whatever its class.
pub record Raw (Data : Type 0) : Type 0 where
  pub chain_id : List ℕ
  pub nonce : List ℕ
  pub gas_price : List ℕ
  pub max_priority_fee_per_gas : List ℕ
  pub max_fee_per_gas : List ℕ
  pub gas_limit : List ℕ
  pub to : List ℕ
  pub value : List ℕ
  pub payload : List ℕ
  pub access_list : Data
  pub v : List ℕ
  pub r : List ℕ
  pub s : List ℕ

-- `to !== undefined && to.length > 0 ? to : undefined`
abbrev pub non_empty : List ℕ → Option (List ℕ)
non_empty [] = none
non_empty (b ∷ bs) = some (b ∷ bs)

module _ {Data : Type 0} where
  -- The order of the values in the encodings of the three classes.
  abbrev pub values_of : Kind → Raw Data → List (Item Data)
  values_of legacy w =
      bytes w.nonce
      ∷ bytes w.gas_price
      ∷ bytes w.gas_limit
      ∷ bytes w.to
      ∷ bytes w.value
      ∷ bytes w.payload
      ∷ bytes w.v
      ∷ bytes w.r
      ∷ bytes w.s
      ∷ []
  values_of access_list w =
      bytes w.chain_id
      ∷ bytes w.nonce
      ∷ bytes w.gas_price
      ∷ bytes w.gas_limit
      ∷ bytes w.to
      ∷ bytes w.value
      ∷ bytes w.payload
      ∷ nested w.access_list
      ∷ bytes w.v
      ∷ bytes w.r
      ∷ bytes w.s
      ∷ []
  values_of fee_market w =
      bytes w.chain_id
      ∷ bytes w.nonce
      ∷ bytes w.max_priority_fee_per_gas
      ∷ bytes w.max_fee_per_gas
      ∷ bytes w.gas_limit
      ∷ bytes w.to
      ∷ bytes w.value
      ∷ bytes w.payload
      ∷ nested w.access_list
      ∷ bytes w.v
      ∷ bytes w.r
      ∷ bytes w.s
      ∷ []

  unfoldable pub all_bytes : List (Item Data) → Option (List (List ℕ))
  all_bytes [] = some []
  all_bytes (bytes b ∷ items) = elim (all_bytes items) [ none ↦ none | some bs ↦ some (b ∷ bs) ]
  all_bytes (nested d ∷ items) = none

  abbrev pub legacy_data :
      List ℕ
      → List ℕ
      → List ℕ
      → List ℕ
      → List ℕ
      → List ℕ
      → Option Number
      → Option Number
      → Option Number
      → TxData Data
  legacy_data nonce gas_price gas_limit to value payload v r s = record {
    chain_id = none;
    nonce = nonce;
    gas_price = some gas_price;
    max_priority_fee_per_gas = none;
    max_fee_per_gas = none;
    gas_limit = gas_limit;
    to = non_empty to;
    value = value;
    payload = payload;
    access_list = none;
    v = v;
    r = r;
    s = s;
  }

  -- The test of the length and the destructuring of `FakeSenderTransaction`.
  unfoldable pub legacy_values : List (List ℕ) → Option (TxData Data)
  legacy_values (nonce ∷ price ∷ limit ∷ to ∷ value ∷ payload ∷ []) =
      some (legacy_data nonce price limit to value payload none none none)
  legacy_values (nonce ∷ price ∷ limit ∷ to ∷ value ∷ payload ∷ v ∷ r ∷ s ∷ []) = some (
      legacy_data nonce price limit to value payload (some (raw_number v)) (some (raw_number r))
        (some (raw_number s)))
  legacy_values other = none

-- `r !== undefined && r.length !== 0 ? bytesToInt(r) : undefined`
abbrev pub int_or_none : (List ℕ → ℕ) → List ℕ → Option Number
int_or_none bytes_to_int [] = none
int_or_none bytes_to_int (b ∷ bs) = some (int (bytes_to_int (b ∷ bs)))

module _ {Data : Type 0} (bytes_to_int : List ℕ → ℕ) where
  abbrev pub access_list_data :
      List ℕ
      → List ℕ
      → List ℕ
      → List ℕ
      → List ℕ
      → List ℕ
      → List ℕ
      → Data
      → Option Number
      → Option Number
      → Option Number
      → TxData Data
  access_list_data chain_id nonce gas_price gas_limit to value payload list v r s = record {
    chain_id = some chain_id;
    nonce = nonce;
    gas_price = some gas_price;
    max_priority_fee_per_gas = none;
    max_fee_per_gas = none;
    gas_limit = gas_limit;
    to = non_empty to;
    value = value;
    payload = payload;
    access_list = some list;
    v = v;
    r = r;
    s = s;
  }

  abbrev pub fee_market_data :
      List ℕ
      → List ℕ
      → List ℕ
      → List ℕ
      → List ℕ
      → List ℕ
      → List ℕ
      → List ℕ
      → Data
      → Option Number
      → Option Number
      → Option Number
      → TxData Data
  fee_market_data chain_id nonce priority_fee max_fee gas_limit to value payload list v r s =
      record {
        chain_id = some chain_id;
        nonce = nonce;
        gas_price = none;
        max_priority_fee_per_gas = some priority_fee;
        max_fee_per_gas = some max_fee;
        gas_limit = gas_limit;
        to = non_empty to;
        value = value;
        payload = payload;
        access_list = some list;
        v = v;
        r = r;
        s = s;
      }

  -- The check of the values and their destructuring in `FakeSenderAccessListEIP2930Transaction`.
  unfoldable pub access_list_values : List (Item Data) → Option (TxData Data)
  access_list_values
        (bytes c ∷ bytes n ∷ bytes p ∷ bytes g ∷ bytes t ∷ bytes x ∷ bytes d ∷ nested l ∷ []) =
      some (access_list_data c n p g t x d l none none none)
  access_list_values
        (bytes c
          ∷ bytes n
          ∷ bytes p
          ∷ bytes g
          ∷ bytes t
          ∷ bytes x
          ∷ bytes d
          ∷ nested l
          ∷ bytes v
          ∷ bytes r
          ∷ bytes s
          ∷ []) =
      some (
        access_list_data c n p g t x d l (some (int (bytes_to_int v))) (int_or_none bytes_to_int r)
          (int_or_none bytes_to_int s))
  access_list_values other = none

  -- The same in `FakeSenderEIP1559Transaction`.
  unfoldable pub fee_market_values : List (Item Data) → Option (TxData Data)
  fee_market_values
        (bytes c
          ∷ bytes n
          ∷ bytes q
          ∷ bytes m
          ∷ bytes g
          ∷ bytes t
          ∷ bytes x
          ∷ bytes d
          ∷ nested l
          ∷ []) =
      some (fee_market_data c n q m g t x d l none none none)
  fee_market_values
        (bytes c
          ∷ bytes n
          ∷ bytes q
          ∷ bytes m
          ∷ bytes g
          ∷ bytes t
          ∷ bytes x
          ∷ bytes d
          ∷ nested l
          ∷ bytes v
          ∷ bytes r
          ∷ bytes s
          ∷ []) =
      some (
        fee_market_data c n q m g t x d l (some (int (bytes_to_int v))) (int_or_none bytes_to_int r)
          (int_or_none bytes_to_int s))
  fee_market_values other = none

  -- The fields of a signed transaction, as its class is given them again.
  abbrev pub data_of : Kind → Raw Data → TxData Data
  data_of legacy w =
      legacy_data w.nonce w.gas_price w.gas_limit w.to w.value w.payload (some (raw_number w.v))
        (some (raw_number w.r)) (some (raw_number w.s))
  data_of access_list w =
      access_list_data w.chain_id w.nonce w.gas_price w.gas_limit w.to w.value w.payload
        w.access_list (some (int (bytes_to_int w.v))) (some (int (bytes_to_int w.r)))
        (some (int (bytes_to_int w.s)))
  data_of fee_market w =
      fee_market_data w.chain_id w.nonce w.max_priority_fee_per_gas w.max_fee_per_gas w.gas_limit
        w.to w.value w.payload w.access_list (some (int (bytes_to_int w.v)))
        (some (int (bytes_to_int w.r))) (some (int (bytes_to_int w.s)))
