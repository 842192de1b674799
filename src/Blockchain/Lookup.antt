-- ===== src/Blockchain/Lookup.antt =====
-- What `getBlock` does with a number: a reserved block is made and returned, and asking again
-- returns the same block.
use polkahat.Prelude.{ℕ, suc, ◌≡◌, refl, true, false}
use polkahat.Prelude.Outcome.{ok}
use polkahat.Blockchain.Data.{BlockLib, BlockchainData, get_block_by_number}
use polkahat.Blockchain.Reservations.{is_reserved_block, calculate_timestamp}
use polkahat.Blockchain.Chain.{HardhatBlockchain, set_data, found, by_number, get_block}
use polkahat.Blockchain.Holders.{Disjoint}
use polkahat.Blockchain.Fulfilment.{Fulfilled, fulfill_block_reservation_lem}

module _ (lib : BlockLib) where
  pub get_block-unreserved :
      (n : ℕ) (c : HardhatBlockchain)
      → is_reserved_block n c.chain_data ≡ false
      → get_block lib (by_number n) c ≡ (found (get_block_by_number n c.chain_data), c)
  unfolding get_block
  get_block-unreserved n c h = rw h refl

  -- If no two reservations overlap, block `n` is reserved, and its timestamp is `t`, then `getBlock`
  -- returns a new block of that number and timestamp; asked again it returns that block and changes
  -- nothing, and all other blocks are stored or reserved as before.
  pub get_block-reserved :
      (n t : ℕ) (c : HardhatBlockchain)
      → Disjoint c.chain_data.block_reservations
      → is_reserved_block n c.chain_data ≡ true
      → calculate_timestamp (suc n) n c.chain_data ≡ ok t
      → (d : BlockchainData) × ((f : Fulfilled n t c.chain_data d) × ((get_block lib (by_number n) c
              ≡ (ok f.block, set_data d c))
            × (get_block lib (by_number n) (set_data d c) ≡ (ok f.block, set_data d c))))
  unfolding get_block
  get_block-reserved n t c dis res time =
      let (d, (run, f)) = fulfill_block_reservation_lem lib c.chain_data n t dis res time in
      (d, (f, (rw (res, run, f.stored) refl, rw (f.unreserved, f.stored) refl)))
