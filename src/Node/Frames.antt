-- ===== src/Node/Frames.antt =====
-- provider/node.ts: what the steps of mining a block leave as it was: the clock, and a valid chain.
use polkahat.Prelude.{ℕ, ◌-◌, ◌≡◌, refl, inl, inr, ◌==◌, Bool-cases, Option-cases}
use polkahat.Prelude.Outcome.{Result, ok, throw, Method, Ends, Ended, bind-Ends, Result-cases}
use polkahat.Transaction.{Externals}
use polkahat.TxPool.State.{TxPool, Error as PoolError}
use polkahat.TransactionQueue.{Heap}
use polkahat.Blockchain.Data.{Block, BlockLib, Error as ChainError}
use polkahat.Blockchain.Chain.{HardhatBlockchain, get_latest_block, by_number}
use polkahat.Blockchain.Growth.{IsChain, Grown}
use polkahat.Blockchain.Appending.{get_block-IsChain}
use polkahat.Node.State.{
  HardhatNode, chain_error, pool_error, map_error, on_pool, on_chain, set_chain, set_pool,
}
use polkahat.Node.Building.{HeaderData, Vm}
use polkahat.Node.Mining.{
  get_next_block_base_fee_per_gas, get_next_mix_hash, get_next_parent_beacon_block_root,
  choose_transactions, run_block_builder,
}

pub get_latest_block-IsChain :
    (lib : BlockLib) (k : ℕ) (c : HardhatBlockchain)
    → Grown k c
    → Grown k (get_latest_block lib c).1
unfolding get_latest_block
get_latest_block-IsChain lib k c g = elim (Bool-cases (c.length == 0)) [
  | inl e ↦ rw e g
  | inr e ↦ rw e (get_block-IsChain lib (by_number (c.length - 1)) k c g)
]

module _ {Data : Type 0} where
  -- The settings that mining a block reads and only its end writes.
  pub record SameClock (n m : HardhatNode Data) : Type 0 where
    pub offset : m.block_time_offset_seconds ≡ n.block_time_offset_seconds
    pub next : m.next_block_timestamp ≡ n.next_block_timestamp
    pub base_fee :
        m.user_provided_next_block_base_fee_per_gas ≡ n.user_provided_next_block_base_fee_per_gas

  pub SameClock-refl : (n : HardhatNode Data) → SameClock n n
  SameClock-refl n = record { offset = refl; next = refl; base_fee = refl }

  -- On the way from a node: the clock has not moved, and the chain is valid and has a length.
  abbrev pub Within : HardhatNode Data → ℕ → HardhatNode Data → Type 0
  Within n k m = SameClock n m × Grown k m.blockchain

  abbrev pub HasChain : HardhatNode Data → Type 0
  HasChain m = IsChain m.blockchain

  on_chain-Ended :
      {A : Type 0} (n m : HardhatNode Data) (k : ℕ) (r : Result ChainError A × HardhatBlockchain)
      → SameClock n m
      → Grown k r.1
      → Ended (λ a. Within n k) HasChain (map_error chain_error r.0, set_chain r.1 m)
  on_chain-Ended n m k (ok a, c) w g =
      (record { offset = w.offset; next = w.next; base_fee = w.base_fee }, g)
  on_chain-Ended n m k (throw e, c) w g = g.0

  -- A method of the chain that keeps it valid and as long.
  pub on_chain-Ends :
      {A : Type 0} (f : Method ChainError HardhatBlockchain A) (n m : HardhatNode Data) (k : ℕ)
      → SameClock n m
      → Grown k (f m.blockchain).1
      → Ends (λ a. Within n k) HasChain (on_chain f m)
  on_chain-Ends f n m k w g = record { holds = on_chain-Ended n m k (f m.blockchain) w g }

  pub run_block_builder-Ends :
      (ext : Externals Data) (lib : BlockLib) (vm : Vm) (heap : Heap) (parent : Block)
      (header : HeaderData) (n m : HardhatNode Data) (k : ℕ)
      → Within n k m
      → Ends (λ a. Within n k) HasChain (run_block_builder ext lib vm heap parent header m)
  unfolding run_block_builder
  run_block_builder-Ends ext lib vm heap parent header n m k w =
      elim (Result-cases (choose_transactions ext lib vm heap parent header m)) [
        | inl (e, h) ↦ rw h (record { holds = w.1.0 })
        | inr (b, h) ↦ rw h (record { holds = w })
      ]

  on_pool-Ended :
      {A : Type 0} (n m : HardhatNode Data) (k root : ℕ) (r : Result PoolError A × TxPool Data)
      → Within n k m
      → m.state_root ≡ root
      → Ended
          (λ a m. Within n k m × (m.state_root ≡ root))
          HasChain
          (map_error pool_error r.0, set_pool r.1 m)
  on_pool-Ended n m k root (ok a, p) w e =
      ((record { offset = w.0.offset; next = w.0.next; base_fee = w.0.base_fee }, w.1), e)
  on_pool-Ended n m k root (throw x, p) w e = w.1.0

  pub on_pool-Ends :
      {A : Type 0} (f : Method PoolError (TxPool Data) A) (n m : HardhatNode Data) (k root : ℕ)
      → Within n k m
      → m.state_root ≡ root
      → Ends (λ a m. Within n k m × (m.state_root ≡ root)) HasChain (on_pool f m)
  on_pool-Ends f n m k root w e = record { holds = on_pool-Ended n m k root (f m.tx_pool) w e }

  pub get_next_mix_hash-Ends :
      (ext : Externals Data) (lib : BlockLib) (vm : Vm) (heap : Heap) (n m : HardhatNode Data)
      (k : ℕ)
      → Within n k m
      → Ends (λ a. Within n k) HasChain (get_next_mix_hash ext lib vm heap m)
  unfolding get_next_mix_hash
  get_next_mix_hash-Ends ext lib vm heap n m k (c, g) = elim (Bool-cases vm.is_post_merge) [
    | inl e ↦
        rw e (record {
          holds = (record { offset = c.offset; next = c.next; base_fee = c.base_fee }, g);
        })
    | inr e ↦ rw e (record { holds = (c, g) })
  ]

  pub get_next_parent_beacon_block_root-Ends :
      (ext : Externals Data) (lib : BlockLib) (vm : Vm) (heap : Heap) (n m : HardhatNode Data)
      (k : ℕ)
      → Within n k m
      → Ends (λ a. Within n k) HasChain (get_next_parent_beacon_block_root ext lib vm heap m)
  unfolding get_next_parent_beacon_block_root
  get_next_parent_beacon_block_root-Ends ext lib vm heap n m k (c, g) =
      elim (Bool-cases vm.is_post_cancun) [
        | inl e ↦ rw e (record {
          holds = (record { offset = c.offset; next = c.next; base_fee = c.base_fee }, g);
        })
        | inr e ↦ rw e (record { holds = (c, g) })
      ]

  pub get_next_block_base_fee_per_gas-Ends :
      (ext : Externals Data) (lib : BlockLib) (vm : Vm) (heap : Heap) (n m : HardhatNode Data)
      (k : ℕ)
      → Within n k m
      → Ends (λ a. Within n k) HasChain (get_next_block_base_fee_per_gas ext lib vm heap m)
  unfolding get_next_block_base_fee_per_gas
  get_next_block_base_fee_per_gas-Ends ext lib vm heap n m k (c, g) =
      elim (Bool-cases vm.is_eip1559_active) [
        | inr e ↦ rw e (record { holds = (c, g) })
        | inl e ↦ elim (Option-cases m.user_provided_next_block_base_fee_per_gas) [
          | inr (fee, f) ↦ rw (e, f, get_next_block_base_fee_per_gas) (record { holds = (c, g) })
          | inl f ↦
              rw (e, f, get_next_block_base_fee_per_gas)
                (bind-Ends _ _
                  (on_chain-Ends (get_latest_block lib) n m k c
                    (get_latest_block-IsChain lib k m.blockchain g))
                  (λ a m' w. record { holds = w }))
        ]
      ]
