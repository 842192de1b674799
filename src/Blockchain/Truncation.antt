-- ===== src/Blockchain/Truncation.antt =====
-- `_delBlock` and `deleteLaterBlocks`: the loop ends, and the chain is cut at the given block.
use polkahat.Prelude.{
  ℕ, zero, suc, ◌+◌, ◌-◌, ◌≤◌, ◌<◌, ◌≡◌, refl, sym, inl, inr, ◌∙◌, ap, none, some, ltb, arith,
  Bool-cases, ltb→lt, ltb→le,
}
use polkahat.Prelude.Outcome.{ok, throw}
use polkahat.Blockchain.Data.{
  Block, BlockchainData, invalid_block, get_block_by_number, get_block_by_hash,
}
use polkahat.Blockchain.Reservations.{is_reserved_block}
use polkahat.Blockchain.Chain.{
  HardhatBlockchain, set_data, del_blocks, del_block, delete_later_blocks,
}
use polkahat.Blockchain.Deletion.{
  IsConsistent, IsBorder, IsGone, IsKept, Unhashes, Unhashes-none, Drops, del_one-Round,
}

-- From `d` to `e` the blocks from `i` on and before `n` went, and the ones before `i` stayed.
pub record Emptied (i n : ℕ) (d e : BlockchainData) : Type 0 where
  pub gone : (m : ℕ) → i ≤ m → m < n → IsGone m e
  pub kept : (m : ℕ) → m < i → IsKept m d e
  pub hashes : Unhashes i n d e
  pub consistent : IsConsistent e

Emptied-none : (i n : ℕ) (d : BlockchainData) → IsConsistent d → n ≤ i → Emptied i n d d
Emptied-none i n d k h = record {
  gone = λ m le lt. absurd (omega arith);
  kept = λ m lt. (refl, refl);
  hashes = Unhashes-none i n d d (λ m le lt. absurd (omega arith)) refl;
  consistent = k;
}

Unhashes-Drops :
    (i j n : ℕ) (d e f : BlockchainData) → Drops i j d e → Unhashes j n e f → Unhashes i n d f
Unhashes-Drops i j n d e f s h = record {
  lost = λ m b le lt at. elim (Bool-cases (ltb m j)) [
    | inl before ↦ h.still_none b.hash (s.hashes.lost m b le (ltb→lt m j before) at)
    | inr after ↦ h.lost m b (ltb→le m j after) lt (s.behind m (ltb→le m j after) ∙ at)
  ];
  still_none = λ hash g. h.still_none hash (s.hashes.still_none hash g);
  still_there = λ hash g.
      h.still_there hash
        (λ m b le at. let later = s.later in g m b (omega arith) (sym (s.behind m le) ∙ at))
      ∙ s.hashes.still_there hash g;
}

Emptied-Drops :
    (i j n : ℕ) (d e f : BlockchainData) → Drops i j d e → Emptied j n e f → Emptied i n d f
Emptied-Drops i j n d e f s h = record {
  gone = λ m le lt. elim (Bool-cases (ltb m j)) [
    | inl b ↦
        let k = h.kept m (ltb→lt m j b) in
        let g = s.gone m le (ltb→lt m j b) in (k.0 ∙ g.0, k.1 ∙ g.1)
    | inr b ↦ h.gone m (ltb→le m j b) lt
  ];
  kept = λ m lt.
      let later = s.later in
      let k = h.kept m (omega arith) in let g = s.kept m lt in (k.0 ∙ g.0, k.1 ∙ g.1);
  hashes = Unhashes-Drops i j n d e f s h.hashes;
  consistent = h.consistent;
}

IsBorder-Drops : (i j : ℕ) (d e : BlockchainData) → Drops i j d e → IsBorder j e
IsBorder-Drops i j d e s m h = let later = s.later in (s.gone m (omega arith) (omega arith)).1

-- Fuel for the blocks that are left, and one round more, is enough.
pub del_blocks-Emptied :
    (fuel i : ℕ) (c : HardhatBlockchain)
    → suc (c.length - i) ≤ fuel
    → IsConsistent c.chain_data
    → IsBorder i c.chain_data
    → (e : BlockchainData) × ((del_blocks fuel i c ≡ (ok tt, set_data e c))
        × Emptied i c.length c.chain_data e)
unfolding del_blocks
del_blocks-Emptied zero i c h k b = absurd (omega arith)
del_blocks-Emptied (suc fuel) i c h k b = elim (Bool-cases (ltb i c.length)) [
  | inr e ↦
      (c.chain_data, (rw e refl, Emptied-none i c.length c.chain_data k (ltb→le i c.length e)))
  | inl e ↦
      let lt = ltb→lt i c.length e in
      let s = del_one-Round i c k b in
      let later = s.drops.later in
      let (f, (runs, emptied)) =
        del_blocks-Emptied fuel s.next (set_data s.data_after c) (omega arith) s.drops.consistent
          (IsBorder-Drops i s.next c.chain_data s.data_after s.drops) in
      (
        f,
        (
          rw (e, s.runs) runs,
          Emptied-Drops i s.next c.length c.chain_data s.data_after f s.drops emptied,
        ),
      )
]

del_block-Emptied :
    (n : ℕ) (c : HardhatBlockchain)
    → IsConsistent c.chain_data
    → IsBorder n c.chain_data
    → (e : BlockchainData) × ((del_block n c ≡ (ok tt, record { length = n; chain_data = e }))
        × Emptied n c.length c.chain_data e)
unfolding del_block
del_block-Emptied n c k b =
    let (e, (runs, emptied)) = del_blocks-Emptied (c.length + 1) n c (omega arith) k b in
    (e, (rw (del_block, runs) refl, emptied))

-- If the chain's data is consistent and the given block is stored, by its hash and its number,
-- `deleteLaterBlocks` returns; the chain then ends with that block: all blocks behind it that the
-- chain had are neither stored nor reserved and not found by their hashes, it and the ones before
-- stay as they were under their numbers, as do the blocks under all other hashes, and the data is
-- consistent.
pub delete_later_blocks_lem :
    (block actual : Block) (c : HardhatBlockchain)
    → IsConsistent c.chain_data
    → get_block_by_hash block.hash c.chain_data ≡ some actual
    → get_block_by_number actual.number c.chain_data ≡ some actual
    → (e : BlockchainData) × ((delete_later_blocks block c
          ≡ (ok tt, record { length = actual.number + 1; chain_data = e }))
        × Emptied (actual.number + 1) c.length c.chain_data e)
unfolding delete_later_blocks
delete_later_blocks_lem block actual c k by_hash stored =
    let (e, (runs, emptied)) = del_block-Emptied (actual.number + 1) c k (λ m h.
      let same : m ≡ actual.number = omega arith in
      ap (λ i. is_reserved_block i c.chain_data) same ∙ k.exclusive actual.number actual stored) in
    (
      e,
      (
        ap (λ o. elim o [ none ↦ (throw invalid_block, c) | some b ↦ del_block (b.number + 1) c ])
              by_hash
            ∙ runs,
        emptied,
      ),
    )
