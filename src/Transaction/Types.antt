-- ===== src/Transaction/Types.antt =====
-- Transactions as the pool and the queue see them (provider/PoolState.ts, and the head of
-- provider/TxPool.ts). `TypedTransaction` holds what the getters of ethereumjs' transaction classes
-- return; an address or a hash is the number that its bytes spell, and its lower-case hex text, by
-- which the maps are keyed, is one to one with it.
use polkahat.Prelude.{ℕ, ◌≤◌, Bool, Option, none, some, List, [], ◌∷◌, All}

-- `"gasPrice" in tx`, or the two fees of EIP-1559.
pub data Fees : Type 0 where
  gas_price : ℕ → Fees
  eip1559 : ℕ → ℕ → Fees

-- Where `getSenderAddress` gets the sender: from the object (the FakeSender… classes), from the
-- signature, or nowhere, and then the flag says whether there is a signature at all.
pub data Origin : Type 0 where
  fake : ℕ → Origin
  recovered : ℕ → Origin
  unverified : Bool → Origin

pub record TypedTransaction : Type 0 where
  pub origin : Origin
  pub nonce : ℕ
  pub gas_limit : ℕ
  pub value : ℕ
  pub fees : Fees
  pub to : Option ℕ
  pub data_length : ℕ
  pub tx_type : ℕ
  pub base_fee : ℕ
  pub upfront_cost : ℕ
  pub hash : ℕ

-- `"gasPrice" in tx ? tx.gasPrice : tx.maxFeePerGas`
abbrev pub max_fee_of : Fees → ℕ
max_fee_of (gas_price p) = p
max_fee_of (eip1559 m t) = m

-- `"gasPrice" in tx ? tx.gasPrice : tx.maxPriorityFeePerGas`
abbrev pub priority_fee_of : Fees → ℕ
priority_fee_of (gas_price p) = p
priority_fee_of (eip1559 m t) = t

abbrev pub sender_of : Origin → Option ℕ
sender_of (fake a) = some a
sender_of (recovered a) = some a
sender_of (unverified s) = none

abbrev pub fake_sender_of : Origin → Option ℕ
fake_sender_of (fake a) = some a
fake_sender_of (recovered a) = none
fake_sender_of (unverified s) = none

pub record OrderedTransaction : Type 0 where
  pub order_id : ℕ
  pub tx : TypedTransaction

-- `Data` stands for the hex texts of RLP encodings.
pub record SerializedTransaction (Data : Type 0) : Type 0 where
  pub order_id : ℕ
  pub fake_from : Option ℕ
  pub rlp : Data
  pub tx_type : ℕ

-- No element's key is above a later one's.
abbrev pub IsSortedBy {ℓ} : {A : Type ℓ} → (A → ℕ) → List A → Type 0
IsSortedBy key [] = Unit {0}
IsSortedBy key (x ∷ xs) = All (λ y. key x ≤ key y) xs × IsSortedBy key xs
