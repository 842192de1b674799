-- ===== src/Blockchain/Stores.antt =====
-- What storing and removing a block leaves of the blocks by number and by hash and of the reservations.
use polkahat.Prelude.{ℕ, ◌≡◌, refl, List, [], ◌∷◌}
use polkahat.Map
use polkahat.Transaction.{TypedTransaction}
use polkahat.Blockchain.Data.{
  Block, BlockchainData, index_transactions, store_block, unindex_transactions, remove_block,
}

-- The fields that the loops over a block's transactions do not write.
pub record SameBlocks (d e : BlockchainData) : Type 0 where
  pub numbers : e.blocks_by_number ≡ d.blocks_by_number
  pub hashes : e.blocks_by_hash ≡ d.blocks_by_hash
  pub difficulties : e.total_difficulty ≡ d.total_difficulty
  pub reservations : e.block_reservations ≡ d.block_reservations

pub index_transactions-SameBlocks :
    (block : Block) (txs : List TypedTransaction) (d : BlockchainData)
    → SameBlocks d (index_transactions block txs d)
unfolding index_transactions
index_transactions-SameBlocks block [] d = record {
  numbers = refl;
  hashes = refl;
  difficulties = refl;
  reservations = refl;
}
index_transactions-SameBlocks block (tx ∷ txs) d =
    let s = index_transactions-SameBlocks block txs (record d {
      transactions = Map.put tx.hash tx d.transactions;
      blocks_by_transactions = Map.put tx.hash block d.blocks_by_transactions;
    }) in
    record {
      numbers = s.numbers;
      hashes = s.hashes;
      difficulties = s.difficulties;
      reservations = s.reservations;
    }

pub unindex_transactions-SameBlocks :
    (txs : List TypedTransaction) (d : BlockchainData) → SameBlocks d (unindex_transactions txs d)
unfolding unindex_transactions
unindex_transactions-SameBlocks [] d = record {
  numbers = refl;
  hashes = refl;
  difficulties = refl;
  reservations = refl;
}
unindex_transactions-SameBlocks (tx ∷ txs) d =
    let s = unindex_transactions-SameBlocks txs (record d {
      transactions = Map.delete tx.hash d.transactions;
      transaction_receipts = Map.delete tx.hash d.transaction_receipts;
      blocks_by_transactions = Map.delete tx.hash d.blocks_by_transactions;
    }) in
    record {
      numbers = s.numbers;
      hashes = s.hashes;
      difficulties = s.difficulties;
      reservations = s.reservations;
    }

module _ (block : Block) (difficulty : ℕ) (d : BlockchainData) where
  pub store_block-numbers :
      (store_block block difficulty d).blocks_by_number
      ≡ Map.put block.number block d.blocks_by_number
  unfolding store_block
  store_block-numbers =
      (index_transactions-SameBlocks block block.transactions (record d {
        blocks_by_number = Map.put block.number block d.blocks_by_number;
        blocks_by_hash = Map.put block.hash block d.blocks_by_hash;
        total_difficulty = Map.put block.hash difficulty d.total_difficulty;
      })).numbers

  pub store_block-hashes :
      (store_block block difficulty d).blocks_by_hash ≡ Map.put block.hash block d.blocks_by_hash
  unfolding store_block
  store_block-hashes =
      (index_transactions-SameBlocks block block.transactions (record d {
        blocks_by_number = Map.put block.number block d.blocks_by_number;
        blocks_by_hash = Map.put block.hash block d.blocks_by_hash;
        total_difficulty = Map.put block.hash difficulty d.total_difficulty;
      })).hashes

  pub store_block-difficulties :
      (store_block block difficulty d).total_difficulty
      ≡ Map.put block.hash difficulty d.total_difficulty
  unfolding store_block
  store_block-difficulties =
      (index_transactions-SameBlocks block block.transactions (record d {
        blocks_by_number = Map.put block.number block d.blocks_by_number;
        blocks_by_hash = Map.put block.hash block d.blocks_by_hash;
        total_difficulty = Map.put block.hash difficulty d.total_difficulty;
      })).difficulties

  pub store_block-reservations :
      (store_block block difficulty d).block_reservations ≡ d.block_reservations
  unfolding store_block
  store_block-reservations =
      (index_transactions-SameBlocks block block.transactions (record d {
        blocks_by_number = Map.put block.number block d.blocks_by_number;
        blocks_by_hash = Map.put block.hash block d.blocks_by_hash;
        total_difficulty = Map.put block.hash difficulty d.total_difficulty;
      })).reservations

module _ (block : Block) (d : BlockchainData) where
  pub remove_block-numbers :
      (remove_block block d).blocks_by_number ≡ Map.delete block.number d.blocks_by_number
  unfolding remove_block
  remove_block-numbers =
      (unindex_transactions-SameBlocks block.transactions (record d {
        blocks_by_number = Map.delete block.number d.blocks_by_number;
        blocks_by_hash = Map.delete block.hash d.blocks_by_hash;
        total_difficulty = Map.delete block.hash d.total_difficulty;
      })).numbers

  pub remove_block-hashes :
      (remove_block block d).blocks_by_hash ≡ Map.delete block.hash d.blocks_by_hash
  unfolding remove_block
  remove_block-hashes =
      (unindex_transactions-SameBlocks block.transactions (record d {
        blocks_by_number = Map.delete block.number d.blocks_by_number;
        blocks_by_hash = Map.delete block.hash d.blocks_by_hash;
        total_difficulty = Map.delete block.hash d.total_difficulty;
      })).hashes

  pub remove_block-reservations : (remove_block block d).block_reservations ≡ d.block_reservations
  unfolding remove_block
  remove_block-reservations =
      (unindex_transactions-SameBlocks block.transactions (record d {
        blocks_by_number = Map.delete block.number d.blocks_by_number;
        blocks_by_hash = Map.delete block.hash d.blocks_by_hash;
        total_difficulty = Map.delete block.hash d.total_difficulty;
      })).reservations
