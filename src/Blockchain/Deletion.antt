-- ===== src/Blockchain/Deletion.antt =====
-- What `_delBlock` removes: every block from the given one on, stored or reserved, and no other.
use polkahat.Prelude.{
  ℕ, ◌+◌, ◌-◌, ◌≤◌, ◌<◌, ◌≡◌, ap, refl, sym, inl, inr, ◌∙◌, true, false, Option, none, some, ◌≢◌,
  get_elem?, remove_at, ◌==◌, if◌then◌else◌, arith, Bool-cases, Option-cases,
}
use polkahat.Prelude.Outcome.{ok}
use polkahat.Map
use polkahat.Blockchain.Data.{
  Block, BlockchainData, Reservation, get_block_by_number, get_block_by_hash, remove_block,
}
use polkahat.Blockchain.Reservations.{
  covers, is_reserved_block, remove_reservation, cancel_reservation_with_block,
}
use polkahat.Blockchain.Chain.{HardhatBlockchain, set_data, del_one}
use polkahat.Blockchain.Holders.{
  one_if, holders, Disjoint, holders-remove_at, find_block_reservation-some, is_reserved_block-find,
  is_reserved_block-holders,
}
use polkahat.Blockchain.Stores.{
  remove_block-numbers, remove_block-hashes, remove_block-reservations,
}

-- Reservations do not overlap, and a block is filed under its own number, which is not reserved.
pub record IsConsistent (d : BlockchainData) : Type 0 where
  pub disjoint : Disjoint d.block_reservations
  pub numbered : (m : ℕ) (b : Block) → get_block_by_number m d ≡ some b → b.number ≡ m
  pub exclusive :
      (m : ℕ) (b : Block) → get_block_by_number m d ≡ some b → is_reserved_block m d ≡ false

-- No reservation reaches over the border below `i`.
abbrev pub IsBorder : ℕ → BlockchainData → Type 0
IsBorder i d = (m : ℕ) → m + 1 ≡ i → is_reserved_block m d ≡ false

abbrev pub IsGone : ℕ → BlockchainData → Type 0
IsGone m d = (get_block_by_number m d ≡ none) × (is_reserved_block m d ≡ false)

abbrev pub IsKept : ℕ → BlockchainData → BlockchainData → Type 0
IsKept m d e =
    (get_block_by_number m e ≡ get_block_by_number m d)
    × (is_reserved_block m e ≡ is_reserved_block m d)

-- What becomes of the blocks by hash: the ones that were stored from `i` on and before `j` are not
-- found any more, nothing new is, and what has the hash of no block from `i` on stays.
pub record Unhashes (i j : ℕ) (d e : BlockchainData) : Type 0 where
  pub lost :
      (m : ℕ) (b : Block)
      → i ≤ m
      → m < j
      → get_block_by_number m d ≡ some b
      → get_block_by_hash b.hash e ≡ none
  pub still_none : (hash : ℕ) → get_block_by_hash hash d ≡ none → get_block_by_hash hash e ≡ none
  pub still_there :
      (hash : ℕ)
      → ((m : ℕ) (b : Block) → i ≤ m → get_block_by_number m d ≡ some b → b.hash ≢ hash)
      → get_block_by_hash hash e ≡ get_block_by_hash hash d

-- Where nothing was stored, nothing changes.
pub Unhashes-none :
    (i j : ℕ) (d e : BlockchainData)
    → ((m : ℕ) → i ≤ m → m < j → get_block_by_number m d ≡ none)
    → e.blocks_by_hash ≡ d.blocks_by_hash
    → Unhashes i j d e
unfolding Map.get
Unhashes-none i j d e empty same = record {
  lost = λ m b le lt at. absurd (let h = empty m le lt in cc);
  still_none = λ hash h. rw same h;
  still_there = λ hash h. rw same refl;
}

abbrev hash_or_zero : Option Block → ℕ
hash_or_zero none = 0
hash_or_zero (some b) = b.hash

-- From `d` to `e` just the blocks from `i` on and before `j` went.
pub record Drops (i j : ℕ) (d e : BlockchainData) : Type 0 where
  pub later : i < j
  pub gone : (m : ℕ) → i ≤ m → m < j → IsGone m e
  pub kept : (m : ℕ) → m < i → IsKept m d e
  pub behind : (m : ℕ) → j ≤ m → get_block_by_number m e ≡ get_block_by_number m d
  pub hashes : Unhashes i j d e
  pub consistent : IsConsistent e

module _ (i index : ℕ) (d : BlockchainData) (r : Reservation) (ok_d : IsConsistent d)
    (border : IsBorder i d) (found : get_elem? d.block_reservations index ≡ some r)
    (held : covers i r ≡ true) where
  abbrev cancelled : BlockchainData
  cancelled = record d { block_reservations = remove_at d.block_reservations index }

  holders-cancelled :
      (m : ℕ)
      → holders m cancelled.block_reservations + one_if (covers m r)
        ≡ holders m d.block_reservations
  holders-cancelled m = holders-remove_at m d.block_reservations index r found

  unreserved_after : (m : ℕ) → is_reserved_block m d ≡ false → is_reserved_block m cancelled ≡ false
  unreserved_after m h =
      rw (is_reserved_block-holders m cancelled)
        (let k = sym (is_reserved_block-holders m d) ∙ h in ground (arith, holders-cancelled m, k))

  is_stored_reserved : (m : ℕ) → 1 ≤ holders m d.block_reservations → get_block_by_number m d ≡ none
  is_stored_reserved m h = elim (Option-cases (get_block_by_number m d)) [
    | inl e ↦ e
    | inr (b, e) ↦
        absurd (
          let k = sym (is_reserved_block-holders m d) ∙ ok_d.exclusive m b e in
          ground (arith, h, k))
  ]

  -- A block below the border is not in the reservation.
  not_below : (m : ℕ) → m < i → covers m r ≡ false
  not_below m lt = elim (Bool-cases (covers m r)) [
    | inr e ↦ e
    | inl e ↦
        let b = sym (is_reserved_block-holders (i - 1) d) ∙ border (i - 1) (omega arith) in
        let h = holders-cancelled (i - 1) in absurd (ground (arith, e, b, h, held, lt))
  ]

  cancelled-Drops : Drops i r.after_last d cancelled
  cancelled-Drops = record {
    later = ground (arith, held);
    gone = λ m le lt.
        let h = holders-cancelled m in
        let o = ok_d.disjoint m in
        (
          is_stored_reserved m (ground (arith, h, held, le, lt)),
          rw (is_reserved_block-holders m cancelled) (ground (arith, h, o, held, le, lt)),
        );
    kept = λ m lt. (
      refl,
      rw (is_reserved_block-holders m cancelled, is_reserved_block-holders m d)
          (ground (arith, holders-cancelled m, not_below m lt)),
    );
    behind = λ m le. refl;
    hashes =
        Unhashes-none i r.after_last d cancelled
          (λ m le lt. is_stored_reserved m (ground (arith, holders-cancelled m, held, le, lt)))
          refl;
    consistent = record {
      disjoint = λ m. let h = holders-cancelled m in let o = ok_d.disjoint m in omega arith;
      numbered = ok_d.numbered;
      exclusive = λ m b e. unreserved_after m (ok_d.exclusive m b e);
    };
  }

module _ (i : ℕ) (d : BlockchainData) (ok_d : IsConsistent d)
    (free : is_reserved_block i d ≡ false) where
  -- An unreserved number without a block: nothing is to be done.
  skipped-Drops : get_block_by_number i d ≡ none → Drops i (i + 1) d d
  skipped-Drops e = record {
    later = omega arith;
    gone = λ m le lt.
        let same : m ≡ i = omega arith in
        (ap (λ k. get_block_by_number k d) same ∙ e, ap (λ k. is_reserved_block k d) same ∙ free);
    kept = λ m lt. (refl, refl);
    behind = λ m le. refl;
    hashes =
        Unhashes-none i (i + 1) d d
          (λ m le lt. let same : m ≡ i = omega arith in ap (λ k. get_block_by_number k d) same ∙ e)
          refl;
    consistent = ok_d;
  }

  module _ (b : Block) (stored : get_block_by_number i d ≡ some b) where
    number_after :
        (m : ℕ)
        → get_block_by_number m (remove_block b d)
          ≡ (if i == m then none else get_block_by_number m d)
    number_after m =
        rw
          (
            remove_block-numbers b d,
            ok_d.numbered i b stored,
            Map.get-delete i m d.blocks_by_number,
          )
          refl

    reserved_after : (m : ℕ) → is_reserved_block m (remove_block b d) ≡ is_reserved_block m d
    reserved_after m =
        rw
          (
            is_reserved_block-holders m (remove_block b d),
            is_reserved_block-holders m d,
            remove_block-reservations b d,
          )
          refl

    stored_before :
        (m : ℕ) (x : Block)
        → get_block_by_number m (remove_block b d) ≡ some x
        → get_block_by_number m d ≡ some x
    stored_before m x e = ground (arith, number_after m, e)

    hash_after :
        (hash : ℕ)
        → get_block_by_hash hash (remove_block b d)
          ≡ (if b.hash == hash then none else get_block_by_hash hash d)
    hash_after hash = rw (remove_block-hashes b d, Map.get-delete b.hash hash d.blocks_by_hash) refl

    removed-Unhashes : Unhashes i (i + 1) d (remove_block b d)
    removed-Unhashes = record {
      lost = λ m x le lt at.
          let same : m ≡ i = omega arith in
          let at_i : some b ≡ some x =
            sym stored ∙ ap (λ k. get_block_by_number k d) (sym same) ∙ at in
          let b-x : b.hash ≡ x.hash = ap (λ (o : Option Block). hash_or_zero o) at_i in
          ground (arith, hash_after x.hash, b-x);
      still_none = λ hash h. ground (arith, hash_after hash, h);
      still_there =
          λ hash h. let ne = h i b (omega arith) stored in ground (arith, hash_after hash, ne);
    }

    removed-Drops : Drops i (i + 1) d (remove_block b d)
    removed-Drops = record {
      later = omega arith;
      gone = λ m le lt.
          let same : m ≡ i = omega arith in
          (
            ground (arith, number_after m, same),
            reserved_after m ∙ ap (λ k. is_reserved_block k d) same ∙ free,
          );
      kept = λ m lt. (ground (arith, number_after m, lt), reserved_after m);
      behind = λ m le. ground (arith, number_after m, le);
      hashes = removed-Unhashes;
      consistent = record {
        disjoint = rw (remove_block-reservations b d) ok_d.disjoint;
        numbered = λ m x e. ok_d.numbered m x (stored_before m x e);
        exclusive = λ m x e. reserved_after m ∙ ok_d.exclusive m x (stored_before m x e);
      };
    }

-- A round of `_delBlock` at `i` comes to a later number, and drops just the blocks between.
pub record Round (i : ℕ) (c : HardhatBlockchain) : Type 0 where
  pub next : ℕ
  pub data_after : BlockchainData
  pub runs : del_one i c ≡ (ok next, set_data data_after c)
  pub drops : Drops i next c.chain_data data_after

pub del_one-Round :
    (i : ℕ) (c : HardhatBlockchain)
    → IsConsistent c.chain_data
    → IsBorder i c.chain_data
    → Round i c
unfolding del_one cancel_reservation_with_block remove_reservation Map.get
del_one-Round i c ok_d border = elim (Bool-cases (is_reserved_block i c.chain_data)) [
  | inl res ↦
      let (index, e) = is_reserved_block-find i c.chain_data res in
      let (r, (g, held)) = find_block_reservation-some i c.chain_data index e in
      record {
        next = r.after_last;
        data_after = cancelled i index c.chain_data r ok_d border g held;
        runs = rw (res, e, g) refl;
        drops = cancelled-Drops i index c.chain_data r ok_d border g held;
      }
  | inr free ↦ elim (Option-cases (get_block_by_number i c.chain_data)) [
    | inl e ↦ record {
      next = i + 1;
      data_after = c.chain_data;
      runs = rw (free, e) refl;
      drops = skipped-Drops i c.chain_data ok_d free e;
    }
    | inr (b, e) ↦ record {
      next = i + 1;
      data_after = remove_block b c.chain_data;
      runs = rw (free, e) refl;
      drops = removed-Drops i c.chain_data ok_d free b e;
    }
  ]
]
