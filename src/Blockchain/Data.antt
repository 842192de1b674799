-- ===== src/Blockchain/Data.antt =====
-- provider/BlockchainData.ts: blocks by number, by hash and by transaction, receipts, and stretches
-- of reserved blocks, which are made when one is asked for. A reservation stores `after_last`, the
-- source's `last + 1`, which is not negative even for an empty reservation at 0.
use polkahat.Prelude.{
  ℕ, ◌+◌, ◌-◌, List, [], ◌∷◌, ◌++◌, Bool, Option, none, ◌==◌, if◌then◌else◌, ◌≡◌,
}
use polkahat.Map
use polkahat.Transaction.{TypedTransaction}
use polkahat.Filter.{RpcLogOutput}

pub record Block : Type 0 where
  pub number : ℕ
  pub hash : ℕ
  pub parent_hash : ℕ
  pub difficulty : ℕ
  pub timestamp : ℕ
  pub state_root : ℕ
  pub gas_limit : ℕ
  pub gas_used : ℕ
  pub base_fee_per_gas : Option ℕ
  pub logs_bloom : ℕ
  pub transactions : List TypedTransaction

pub record RpcReceiptOutput : Type 0 where
  pub transaction_hash : ℕ
  pub gas_used : ℕ
  pub logs : List RpcLogOutput

-- ethereumjs: `Block.fromBlockData` keeps the header fields it is given, and `check` is the test of
-- a `Bloom` made of a header's bytes.
pub record BlockLib : Type 0 where
  pub from_block_data : ℕ → ℕ → Option ℕ → ℕ → Block
  pub check : ℕ → ℕ → Bool
  pub from_block_data-number :
      (number state_root : ℕ) (base_fee_per_gas : Option ℕ) (timestamp : ℕ)
      → (from_block_data number state_root base_fee_per_gas timestamp).number ≡ number
  pub from_block_data-timestamp :
      (number state_root : ℕ) (base_fee_per_gas : Option ℕ) (timestamp : ℕ)
      → (from_block_data number state_root base_fee_per_gas timestamp).timestamp ≡ timestamp

pub record Reservation : Type 0 where
  pub first : ℕ
  pub after_last : ℕ
  pub interval : ℕ
  pub previous_block_state_root : ℕ
  pub previous_block_total_difficulty : ℕ
  pub previous_block_base_fee_per_gas : Option ℕ

pub record BlockchainData : Type 0 where
  pub blocks_by_number : List (ℕ × Block)
  pub blocks_by_hash : List (ℕ × Block)
  pub blocks_by_transactions : List (ℕ × Block)
  pub transactions : List (ℕ × TypedTransaction)
  pub transaction_receipts : List (ℕ × RpcReceiptOutput)
  pub total_difficulty : List (ℕ × ℕ)
  pub block_reservations : List Reservation

pub data Error : Type 0 where
  block_not_found invalid_block invalid_block_number invalid_parent_hash : Error
  no_reservation_to_fill not_reserved block_before_missing reservation_missing : Error
  parent_difficulty_missing out_of_fuel : Error

unfoldable pub new_blockchain_data : BlockchainData
new_blockchain_data = record {
  blocks_by_number = [];
  blocks_by_hash = [];
  blocks_by_transactions = [];
  transactions = [];
  transaction_receipts = [];
  total_difficulty = [];
  block_reservations = [];
}

abbrev pub push_reservation : Reservation → BlockchainData → BlockchainData
push_reservation r d = record d { block_reservations = d.block_reservations ++ r ∷ [] }

unfoldable pub reserve_range : ℕ → ℕ → ℕ → ℕ → ℕ → Option ℕ → BlockchainData → BlockchainData
reserve_range first count interval root difficulty base_fee d =
    push_reservation
      (record {
        first = first;
        after_last = first + count;
        interval = interval;
        previous_block_state_root = root;
        previous_block_total_difficulty = difficulty;
        previous_block_base_fee_per_gas = base_fee;
      })
      d

abbrev pub get_block_by_number : ℕ → BlockchainData → Option Block
get_block_by_number n d = Map.get n d.blocks_by_number

abbrev pub get_block_by_hash : ℕ → BlockchainData → Option Block
get_block_by_hash hash d = Map.get hash d.blocks_by_hash

-- `getBlockByNumber(n - 1n)`; there is no block -1.
unfoldable pub get_block_before : ℕ → BlockchainData → Option Block
get_block_before n d = if n == 0 then none else get_block_by_number (n - 1) d

-- The loop of `addBlock`.
unfoldable pub index_transactions : Block → List TypedTransaction → BlockchainData → BlockchainData
index_transactions block [] d = d
index_transactions block (tx ∷ txs) d = index_transactions block txs (record d {
  transactions = Map.put tx.hash tx d.transactions;
  blocks_by_transactions = Map.put tx.hash block d.blocks_by_transactions;
})

unfoldable pub store_block : Block → ℕ → BlockchainData → BlockchainData
store_block block total_difficulty d = index_transactions block block.transactions (record d {
  blocks_by_number = Map.put block.number block d.blocks_by_number;
  blocks_by_hash = Map.put block.hash block d.blocks_by_hash;
  total_difficulty = Map.put block.hash total_difficulty d.total_difficulty;
})

-- The loop of `removeBlock`.
unfoldable pub unindex_transactions : List TypedTransaction → BlockchainData → BlockchainData
unindex_transactions [] d = d
unindex_transactions (tx ∷ txs) d = unindex_transactions txs (record d {
  transactions = Map.delete tx.hash d.transactions;
  transaction_receipts = Map.delete tx.hash d.transaction_receipts;
  blocks_by_transactions = Map.delete tx.hash d.blocks_by_transactions;
})

unfoldable pub remove_block : Block → BlockchainData → BlockchainData
remove_block block d = unindex_transactions block.transactions (record d {
  blocks_by_number = Map.delete block.number d.blocks_by_number;
  blocks_by_hash = Map.delete block.hash d.blocks_by_hash;
  total_difficulty = Map.delete block.hash d.total_difficulty;
})

unfoldable pub add_transaction_receipt : RpcReceiptOutput → BlockchainData → BlockchainData
add_transaction_receipt receipt d = record d {
  transaction_receipts = Map.put receipt.transaction_hash receipt d.transaction_receipts;
}

unfoldable pub add_local_transaction : TypedTransaction → BlockchainData → BlockchainData
add_local_transaction tx d = record d { transactions = Map.put tx.hash tx d.transactions }

-- The getters that the chain passes on.
abbrev pub get_block_with_transaction : ℕ → BlockchainData → Option Block
get_block_with_transaction hash d = Map.get hash d.blocks_by_transactions

abbrev pub get_stored_transaction : ℕ → BlockchainData → Option TypedTransaction
get_stored_transaction hash d = Map.get hash d.transactions

abbrev pub get_stored_receipt : ℕ → BlockchainData → Option RpcReceiptOutput
get_stored_receipt hash d = Map.get hash d.transaction_receipts

abbrev pub get_stored_difficulty : ℕ → BlockchainData → Option ℕ
get_stored_difficulty hash d = Map.get hash d.total_difficulty
