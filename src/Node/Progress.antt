-- ===== src/Node/Progress.antt =====
-- provider/node.ts: what mineBlock does to the chain and to the clock.
use polkahat.Prelude.{
  ℕ, ◌+◌, ◌≡◌, ◌≢◌, refl, sym, ap, subst, ◌∙◌, Bool, true, false, ◌&&◌, Option, none, if◌then◌else◌,
  arith,
}
use polkahat.Prelude.Int.{ℤ, pos, negsuc, ◌+ℤ◌, ◌-ℤ◌}
use polkahat.Prelude.Outcome.{Result, ok, throw, bind, return, Ends, Ended, bind-Ends, Ends-more}
use polkahat.Transaction.{Externals}
use polkahat.TransactionQueue.{Heap}
use polkahat.Blockchain.Data.{Block, BlockLib, Error as ChainError}
use polkahat.Blockchain.Chain.{HardhatBlockchain, get_latest_block}
use polkahat.Blockchain.Growth.{IsChain, Grown}
use polkahat.Node.State.{HardhatNode, map_error, chain_error, set_chain}
use polkahat.Node.Clock.{
  TimestampAndOffset, calculate_timestamp_and_offset, timestamp_clashes_with_previous_block_one,
  settle_clock, eq_ℤ, given, get_current_timestamp,
}
use polkahat.Node.Building.{Vm, MinedBlock}
use polkahat.Node.Mining.{mine_at, mine_block}
use polkahat.Node.Frames.{Within, HasChain, get_latest_block-IsChain}
use polkahat.Node.Settling.{moved_on, eq_ℤ_moved, settle_clock-GoesOn, settled_alone}
use polkahat.Node.Growth.{
  Mined, mine_block_with_pending_txs-Ends, save_block_as_successfully_run-Ends,
}

module _ {Data : Type 0} (lib : BlockLib) where
  -- Whether the time is the latest block's, where that is asked.
  abbrev pub Clashed : HardhatNode Data → ℤ → Bool → Type 0
  Clashed n t clashed =
      (n.allow_blocks_with_same_timestamp ≡ true → clashed ≡ false)
      × (n.allow_blocks_with_same_timestamp ≡ false
          → (latest : Block) (c : HardhatBlockchain)
          → get_latest_block lib n.blockchain ≡ (ok latest, c)
          → clashed ≡ eq_ℤ (pos latest.timestamp) t)

  -- What `mineBlock` does with a time that it was given or not, at the time `now`, on a chain of `k`
  -- blocks.
  pub record Advances (now : ℕ) (given : Option ℕ) (n : HardhatNode Data) (k : ℕ)
      (mined : MinedBlock) (m : HardhatNode Data) : Type 0 where
    pub grown : Grown (k + 1) m.blockchain
    pub number : mined.block.number ≡ k
    pub root : m.state_root ≡ mined.block.state_root
    pub next : m.next_block_timestamp ≡ 0
    pub base_fee : m.user_provided_next_block_base_fee_per_gas ≡ none
    pub clashed : Bool
    pub clash : Clashed n (calculate_timestamp_and_offset now given n).block_timestamp clashed
    pub timestamp :
        pos mined.block.timestamp
        ≡ moved_on clashed (calculate_timestamp_and_offset now given n).block_timestamp
    -- The time that a next block would have by default, at the time `later`: the clock has gone on
    -- from the block's time, but for a second that it has lost where the block's time was
    -- asked for and had to be moved on.
    pub next_default :
        (later : ℕ)
        → moved_on
            (clashed && (calculate_timestamp_and_offset now given n).offset_should_change)
            (calculate_timestamp_and_offset later none m).block_timestamp
          ≡ (pos mined.block.timestamp +ℤ pos (get_current_timestamp later))
            -ℤ pos (get_current_timestamp now)

  clashes-Ended :
      (n : HardhatNode Data) (t : ℤ) (k : ℕ) (r : Result ChainError Block × HardhatBlockchain)
      → get_latest_block lib n.blockchain ≡ r
      → n.allow_blocks_with_same_timestamp ≡ false
      → Grown k r.1
      → Ended
          (λ b m. Within n k m × Clashed n t b)
          HasChain
          (bind
            (λ latest m. (ok (eq_ℤ (pos latest.timestamp) t), m))
            (map_error chain_error r.0, set_chain r.1 n))
  clashes-Ended n t k (throw e, c) at strict g = g.0
  clashes-Ended n t k (ok latest, c) at strict g = (
    (record { offset = refl; next = refl; base_fee = refl }, g),
    (
      λ allowed. absurd (ground arith),
      λ s other d e. ap (λ r. eq_ℤ (pos (time_of r.0)) t) (sym at ∙ e),
    ),
  )
    where
      time_of : Result ChainError Block → ℕ
      time_of (ok b) = b.timestamp
      time_of (throw e) = 0

  clashes-Ends :
      (n : HardhatNode Data) (t : ℤ) (k : ℕ) (allowed : Bool)
      → n.allow_blocks_with_same_timestamp ≡ allowed
      → Grown k n.blockchain
      → Ends
          (λ b m. Within n k m × Clashed n t b)
          HasChain
          ((if allowed then return false else timestamp_clashes_with_previous_block_one lib t) n)
  unfolding timestamp_clashes_with_previous_block_one
  clashes-Ends n t k true e g = record {
    holds = (
      (record { offset = refl; next = refl; base_fee = refl }, g),
      (λ allowed. refl, λ strict. absurd (ground arith)),
    );
  }
  clashes-Ends n t k false e g = record {
    holds =
        clashes-Ended n t k (get_latest_block lib n.blockchain) refl e
          (get_latest_block-IsChain lib k n.blockchain g);
  }

module _ {Data : Type 0} where
  settle_clock-Advances :
      (lib : BlockLib) (now s k : ℕ) (timestamp : Option ℕ) (clashed : Bool)
      (n m : HardhatNode Data) (mined : MinedBlock)
      → Clashed lib n (calculate_timestamp_and_offset now timestamp n).block_timestamp clashed
      → pos s ≡ moved_on clashed (calculate_timestamp_and_offset now timestamp n).block_timestamp
      → Mined n k s mined m
      → Advances lib now timestamp n k mined
          (settle_clock clashed (calculate_timestamp_and_offset now timestamp n) m)
  unfolding settle_clock
  settle_clock-Advances lib now s k timestamp clashed n m mined clash at w =
      let t = calculate_timestamp_and_offset now timestamp n in
      let (chain, root) =
        settled_alone clashed t.offset_should_change t.block_timestamp t.new_offset m in
      record {
        grown = subst (Grown (k + 1)) (sym chain) w.grown;
        number = w.number;
        root = root ∙ w.root;
        next = refl;
        base_fee = refl;
        clashed = clashed;
        clash = clash;
        timestamp = ap (λ s. pos s) w.timestamp ∙ at;
        next_default = λ later.
            settle_clock-GoesOn now later s timestamp n m w.clock.offset clashed at
            ∙ ap
                (λ s.
                  (pos s +ℤ pos (get_current_timestamp later)) -ℤ pos (get_current_timestamp now))
                (sym w.timestamp);
      }

module _ {Data : Type 0} (ext : Externals Data) (lib : BlockLib) (vm : Vm) (heap : Heap) where
  mine_at-Ends :
      (n m : HardhatNode Data) (k : ℕ) (t : ℤ)
      → Within n k m
      → Ends
          (λ mined m. (s : ℕ) × (pos s ≡ t) × Mined n k s mined m)
          HasChain
          (mine_at ext lib vm heap t m)
  mine_at-Ends n m k (pos s) w =
      Ends-more _ (λ mined m' d. (s, refl, d)) (λ m' d. d)
        (mine_block_with_pending_txs-Ends ext lib vm heap s n m k w)
  mine_at-Ends n m k (negsuc s) w = record { holds = w.1.0 }

  -- A block on a valid chain makes it longer by one and keeps it valid, whatever happens.
  pub mine_block-Advances :
      (now : ℕ) (given : Option ℕ) (n : HardhatNode Data)
      → IsChain n.blockchain
      → Ends
          (Advances lib now given n n.blockchain.length)
          HasChain
          (mine_block ext lib vm heap now given n)
  unfolding mine_block
  mine_block-Advances now given n chain =
      bind-Ends _ _ (clashes-Ends lib n t.block_timestamp k _ refl (chain, refl))
        λ clashed m_1 (w_1, clash).
          bind-Ends _ _ (mine_at-Ends n m_1 k (moved_on clashed t.block_timestamp) w_1)
            λ mined m_2 (s, at, w_2).
              bind-Ends _ _
                (save_block_as_successfully_run-Ends ext lib vm heap now s k mined n m_2 w_2)
                λ u m_3 w_3. record {
                  holds = settle_clock-Advances lib now s k given clashed n m_3 mined clash at w_3;
                }
    where
      k : ℕ
      k = n.blockchain.length

      t : TimestampAndOffset
      t = calculate_timestamp_and_offset now given n

  -- On a valid chain that does not allow two blocks of one time, the timestamp of a block that
  -- `mineBlock` makes is not the one of the block that `getLatestBlock` gave before.
  pub mine_block-distinct :
      (now : ℕ) (timestamp : Option ℕ) (n : HardhatNode Data) (latest : Block)
      (c : HardhatBlockchain)
      → IsChain n.blockchain
      → n.allow_blocks_with_same_timestamp ≡ false
      → get_latest_block lib n.blockchain ≡ (ok latest, c)
      → Ends
          (λ mined m. mined.block.timestamp ≢ latest.timestamp)
          HasChain
          (mine_block ext lib vm heap now timestamp n)
  mine_block-distinct now timestamp n latest c chain strict at =
      let t = (calculate_timestamp_and_offset now timestamp n).block_timestamp in
      Ends-more _
        (λ mined m a.
          eq_ℤ_moved latest.timestamp t mined.block.timestamp
            (a.timestamp ∙ ap (λ b. moved_on b t) (a.clash.1 strict latest c at)))
        (λ m h. h) (mine_block-Advances now timestamp n chain)
