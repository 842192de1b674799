-- ===== src/Modules/NextBlock.antt =====
-- provider/modules/evm.ts: the timestamp that evm_setNextBlockTimestamp sets is that of the block
-- that is mined next.
use polkahat.Prelude.{
  ℕ, ◌-◌, ◌<◌, ◌≡◌, refl, sym, ap, subst, ◌∙◌, inl, inr, Bool, true, false, not, ◌&&◌, suc, Option,
  ltb, ◌==◌, arith, Bool-cases,
}
use polkahat.Prelude.Int.{ℤ, pos, pos_part}
use polkahat.Prelude.Outcome.{
  Result, ok, throw, Ends, Ended, Ends-more, bind, throw_if, Result-cases, ◌>>◌, modify, return,
}
use polkahat.Transaction.{Externals}
use polkahat.TransactionQueue.{Heap}
use polkahat.Blockchain.Data.{Block, BlockLib, Error as ChainError}
use polkahat.Blockchain.Appending.{get_block-IsChain}
use polkahat.Blockchain.Reservations.{is_reserved_block, calculate_timestamp}
use polkahat.Blockchain.Chain.{HardhatBlockchain, by_number, get_block, get_latest_block}
use polkahat.Blockchain.Lookup.{get_block-unreserved, get_block-reserved}
use polkahat.Blockchain.Serving.{get_block-thrown}
use polkahat.Blockchain.Growth.{IsChain, Grown}
use polkahat.Node.State.{HardhatNode, map_error, chain_error, set_chain}
use polkahat.Node.Building.{Vm}
use polkahat.Node.Clock.{is_unset, calculate_timestamp_and_offset, eq_ℤ, set_next_block_timestamp}
use polkahat.Node.Mining.{mine_block}
use polkahat.Node.Frames.{HasChain, get_latest_block-IsChain}
use polkahat.Node.Settling.{moved_on}
use polkahat.Node.Progress.{Clashed, mine_block-Advances}
use polkahat.Modules.Evm.{
  Session, node_error, timestamp_lower, timestamp_equal, wrap, on_node,
  set_next_block_timestamp_action,
}

-- Asked again, the chain answers the same block and does not change.
get_block-again :
    (lib : BlockLib) (i : ℕ) (c d : HardhatBlockchain) (b : Block)
    → IsChain c
    → get_block lib (by_number i) c ≡ (ok b, d)
    → get_block lib (by_number i) d ≡ (ok b, d)
get_block-again lib i c d b k e = elim (Bool-cases (is_reserved_block i c.chain_data)) [
  | inr free ↦
      let first = get_block-unreserved lib i c free in
      subst (λ r. get_block lib (by_number i) r.1 ≡ r) (sym first ∙ e) first
  | inl res ↦ elim (Result-cases (calculate_timestamp (suc i) i c.chain_data)) [
    | inl (x, thrown) ↦ absurd (let first = get_block-thrown lib i c x res thrown in cc)
    | inr (t, time) ↦
        let (d', (f, (first, again))) =
          get_block-reserved lib i t c k.consistent.disjoint res time in
        subst (λ r. get_block lib (by_number i) r.1 ≡ r) (sym first ∙ e) again
  ]
]

get_latest_block-again :
    (lib : BlockLib) (c d : HardhatBlockchain) (b : Block)
    → IsChain c
    → get_latest_block lib c ≡ (ok b, d)
    → get_latest_block lib d ≡ (ok b, d)
unfolding get_latest_block
get_latest_block-again lib c d b k e = elim (Bool-cases (c.length == 0)) [
  | inl none_there ↦ absurd (let e' = rw none_there at e in cc)
  | inr some_there ↦
      let e' : get_block lib (by_number (c.length - 1)) c ≡ (ok b, d) = (rw some_there at e) in
      let long : d.length ≡ c.length =
        (subst (λ r. Grown c.length r.1) e'
          (get_block-IsChain lib (by_number (c.length - 1)) c.length c (k, refl))).1 in
      let still_there : (d.length == 0) ≡ false = ap (λ l. l == 0) long ∙ some_there in
      rw still_there (
        subst (λ l. get_block lib (by_number (l - 1)) d ≡ (ok b, d)) (sym long)
          (get_block-again lib (c.length - 1) c d b k e'))
]

next_time :
    {Data : Type 0} (t now : ℕ) (timestamp : Option ℕ) (n : HardhatNode Data)
    → is_unset timestamp ≡ true
    → 0 < t
    → n.next_block_timestamp ≡ t
    → (calculate_timestamp_and_offset now timestamp n).block_timestamp ≡ pos t
unfolding calculate_timestamp_and_offset
next_time t now timestamp n unset positive next =
    let chosen : (n.next_block_timestamp == 0) ≡ false = ground arith in
    rw (unset, chosen, calculate_timestamp_and_offset) (ap (λ t. pos t) next)

module _ {Data : Type 0} (ext : Externals Data) (lib : BlockLib) (vm : Vm) (heap : Heap) where
  -- Mining, at any time and with no time given (none, or the default 0), makes a block of the
  -- timestamp.
  abbrev pub MinesAt : ℕ → HardhatNode Data → Type 0
  MinesAt t n =
      (now : ℕ) (timestamp : Option ℕ)
      → is_unset timestamp ≡ true
      → Ends (λ mined m. mined.block.timestamp ≡ t) HasChain
          (mine_block ext lib vm heap now timestamp n)

  MinesAt-after :
      (t now : ℕ) (timestamp : Option ℕ) (n : HardhatNode Data) (latest : Block)
      → is_unset timestamp ≡ true
      → IsChain n.blockchain
      → 0 < t
      → n.next_block_timestamp ≡ t
      → get_latest_block lib n.blockchain ≡ (ok latest, n.blockchain)
      → (n.allow_blocks_with_same_timestamp ≡ false → latest.timestamp < t)
      → Ends
          (λ mined m. mined.block.timestamp ≡ t)
          HasChain
          (mine_block ext lib vm heap now timestamp n)
  MinesAt-after t now timestamp n latest unset chain positive next at later =
      Ends-more _
        (λ mined m a. ap pos_part (
          a.timestamp
          ∙ ap (λ b. moved_on b (time now)) (no_clash a.clashed a.clash)
          ∙ next_time t now timestamp n unset positive next))
        (λ m h. h) (mine_block-Advances ext lib vm heap now timestamp n chain)
    where
      time : ℕ → ℤ
      time now = (calculate_timestamp_and_offset now timestamp n).block_timestamp

      differs : n.allow_blocks_with_same_timestamp ≡ false → (latest.timestamp == t) ≡ false
      differs strict = let less = later strict in ground (arith, less)

      no_clash : (b : Bool) → Clashed lib n (time now) b → b ≡ false
      no_clash b clash = elim (Bool-cases n.allow_blocks_with_same_timestamp) [
        | inl allowed ↦ clash.0 allowed
        | inr strict ↦
            clash.1 strict latest n.blockchain at
            ∙ ap (eq_ℤ (pos latest.timestamp)) (next_time t now timestamp n unset positive next)
            ∙ differs strict
      ]

  set_next-Ended :
      (t : ℕ) (allow : Bool) (s : Session Data) (latest : Block) (c : HardhatBlockchain)
      → IsChain c
      → s.node.allow_blocks_with_same_timestamp ≡ allow
      → 0 < t
      → get_latest_block lib c ≡ (ok latest, c)
      → Ended
          (λ r s'. MinesAt t s'.node)
          (λ s'. HasChain s'.node)
          ((do
            throw_if (ltb t latest.timestamp) timestamp_lower
            throw_if (not allow && (t == latest.timestamp)) timestamp_equal
            on_node (modify (set_next_block_timestamp t))
            return t)
            (record s { node = set_chain c s.node }))
  unfolding set_next_block_timestamp
  set_next-Ended t allow s latest c chain same positive at =
      elim (Bool-cases (ltb t latest.timestamp)) [
        | inl lower ↦ rw lower chain
        | inr fine ↦ elim (Bool-cases (not allow && (t == latest.timestamp))) [
          | inl equal ↦ rw (fine, equal) chain
          | inr differs ↦
              rw (fine, differs)
                (λ now timestamp unset.
                  MinesAt-after t now timestamp (set_next_block_timestamp t (set_chain c s.node))
                    latest unset chain positive refl at
                    (λ strict. let e = sym same ∙ strict in ground (arith, fine, differs, e)))
        ]
      ]

  -- `evm_setNextBlockTimestamp` on a valid chain, with a timestamp other than 0: when it returns, a
  -- block that is mined then with no timestamp given, none or the default 0, whenever that is, has the timestamp that was set, not moved on
  -- even where no two blocks may have the same.
  pub set_next_block_timestamp_action-MinesAt :
      (t : ℕ) (allow : Bool) (s : Session Data)
      → IsChain s.node.blockchain
      → s.node.allow_blocks_with_same_timestamp ≡ allow
      → 0 < t
      → Ends
          (λ r s'. MinesAt t s'.node)
          (λ s'. HasChain s'.node)
          (set_next_block_timestamp_action lib allow t s)
  unfolding set_next_block_timestamp_action
  set_next_block_timestamp_action-MinesAt t allow s chain same positive = record {
    holds =
        go (get_latest_block lib s.node.blockchain) refl
          (get_latest_block-IsChain lib s.node.blockchain.length s.node.blockchain (chain, refl));
  }
    where
      go :
          (r : Result ChainError Block × HardhatBlockchain)
          → get_latest_block lib s.node.blockchain ≡ r
          → Grown s.node.blockchain.length r.1
          → Ended
              (λ r s'. MinesAt t s'.node)
              (λ s'. HasChain s'.node)
              (bind
                (λ latest.
                  throw_if (ltb t latest.timestamp) timestamp_lower
                  >> (throw_if (not allow && (t == latest.timestamp)) timestamp_equal
                      >> (on_node (modify (set_next_block_timestamp t)) >> return t)))
                (
                  wrap node_error (map_error chain_error r.0),
                  record s { node = set_chain r.1 s.node },
                ))
      go (throw e, c) at g = g.0
      go (ok latest, c) at g =
          set_next-Ended t allow s latest c g.0 same positive
            (get_latest_block-again lib s.node.blockchain c latest chain at)
