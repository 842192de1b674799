-- ===== src/Node/Activations.antt =====
-- provider/node.ts: which hardfork is chosen for a block before the fork.
use mathlib.Core.List.{Memᴰ}
use polkahat.Prelude.{
  ℕ, ◌≤◌, ◌<◌, ◌≡◌, refl, inl, inr, List, [], ◌∷◌, Bool, true, false, ◌&&◌, some, All, ltb, leb,
  arith, Bool-cases,
}
use polkahat.Prelude.Outcome.{Result, ok, throw}
use polkahat.Node.Hardforks.{
  HardforkName, SelectedHardfork, selected, HardforkError, no_hardfork_for_block,
  hardfork_not_supported, highest_activation, select_hardfork,
}

-- An entry of a history, none of whose activations up to the block is later.
pub record IsLatest (block_number : ℕ) (history : List (HardforkName × ℕ)) (e : HardforkName × ℕ)
    : Type 0 where
  pub reached : e.1 ≤ block_number
  pub latest : All (λ f. f.1 ≤ block_number → f.1 ≤ e.1) history

highest_activation-early :
    (block_number : ℕ) (best : HardforkName × ℕ) (rest : List (HardforkName × ℕ))
    → block_number < best.1
    → highest_activation block_number best rest ≡ best
unfolding highest_activation
highest_activation-early block_number best [] b = refl
highest_activation-early block_number best (e ∷ rest) b =
    let kept : (ltb best.1 e.1 && leb e.1 block_number) ≡ false = ground arith in
    rw (kept, highest_activation) (highest_activation-early block_number best rest b)

highest_activation_lem :
    (block_number : ℕ) (best : HardforkName × ℕ) (rest : List (HardforkName × ℕ))
    → best.1 ≤ block_number
    → (best.1 ≤ (highest_activation block_number best rest).1)
      × IsLatest block_number rest (highest_activation block_number best rest)
unfolding highest_activation
highest_activation_lem block_number best [] b = (omega arith, record { reached = b; latest = tt })
highest_activation_lem block_number best (e ∷ rest) b =
    elim (Bool-cases (ltb best.1 e.1 && leb e.1 block_number)) [
      | inl later ↦
          let (least, is_latest) =
            highest_activation_lem block_number e rest (ground (arith, later)) in
          rw (later, highest_activation)
            (
              ground (arith, later, least),
              record { reached = is_latest.reached; latest = (λ h. least, is_latest.latest) },
            )
      | inr kept ↦
          let (least, is_latest) = highest_activation_lem block_number best rest b in
          rw (kept, highest_activation)
            (
              least,
              record {
                reached = is_latest.reached;
                latest = (λ h. ground (arith, kept, least, h), is_latest.latest);
              },
            )
    ]

-- A member of a list is one of the list with another entry behind the first.
Memᴰ-skip :
    {x b e : HardforkName × ℕ} {rest : List (HardforkName × ℕ)}
    → Memᴰ x (b ∷ rest)
    → Memᴰ x (b ∷ e ∷ rest)
Memᴰ-skip (Memᴰ.head e) = Memᴰ.head e
Memᴰ-skip (Memᴰ.tail d) = Memᴰ.tail (Memᴰ.tail d)

highest_activation-Memᴰ :
    (block_number : ℕ) (best : HardforkName × ℕ) (rest : List (HardforkName × ℕ))
    → Memᴰ (highest_activation block_number best rest) (best ∷ rest)
unfolding highest_activation
highest_activation-Memᴰ block_number best [] = Memᴰ.head refl
highest_activation-Memᴰ block_number best (e ∷ rest) =
    elim (Bool-cases (ltb best.1 e.1 && leb e.1 block_number)) [
      | inl later ↦
          rw (later, highest_activation) (Memᴰ.tail (highest_activation-Memᴰ block_number e rest))
      | inr kept ↦
          rw (kept, highest_activation) (Memᴰ-skip (highest_activation-Memᴰ block_number best rest))
    ]

-- For a block before the fork, with a history whose first entry is `first`.
pub data Choice (is_supported : HardforkName → Bool) (block_number : ℕ) (first : HardforkName × ℕ)
    (rest : List (HardforkName × ℕ)) (r : Result HardforkError SelectedHardfork) : Type 0 where
  none_found :
      block_number < first.1
      → r ≡ throw no_hardfork_for_block
      → Choice is_supported block_number first rest r
  chosen :
      (e : HardforkName × ℕ)
      → Memᴰ e (first ∷ rest)
      → IsLatest block_number (first ∷ rest) e
      → is_supported e.0 ≡ true
      → r ≡ ok (selected e.0)
      → Choice is_supported block_number first rest r
  unsupported :
      (e : HardforkName × ℕ)
      → Memᴰ e (first ∷ rest)
      → IsLatest block_number (first ∷ rest) e
      → is_supported e.0 ≡ false
      → r ≡ throw hardfork_not_supported
      → Choice is_supported block_number first rest r

-- For a block before the fork the hardfork is that of the latest activation up to the block, if it
-- is supported and the first entry of the history is not behind the block; if the
-- first entry is, no hardfork is found, whatever the other entries say.
pub select_hardfork_lem :
    (is_supported : HardforkName → Bool) (current : SelectedHardfork)
    (fork_block_number block_number : ℕ) (first : HardforkName × ℕ) (rest : List (HardforkName × ℕ))
    → block_number < fork_block_number
    → Choice is_supported block_number first rest
        (select_hardfork is_supported current (some fork_block_number) (first ∷ rest) block_number)
unfolding select_hardfork
select_hardfork_lem is_supported current fork_block_number block_number first rest before =
    elim (Bool-cases (ltb block_number first.1)) [
      | inl early ↦
          let same = highest_activation-early block_number first rest (ground (arith, early)) in
          none_found (ground (arith, early)) (rw (old, same, early, select_hardfork) refl)
      | inr reached ↦
          let (least, l) =
            highest_activation_lem block_number first rest (ground (arith, reached)) in
          let found : ltb block_number best.1 ≡ false = (let r = l.reached in ground arith) in
          let is_latest : IsLatest block_number (first ∷ rest) best = record {
            reached = l.reached;
            latest = (λ h. least, l.latest);
          } in
          let member = highest_activation-Memᴰ block_number first rest in
          elim (Bool-cases (is_supported best.0)) [
            | inl fine ↦
                chosen best member is_latest fine (rw (old, found, fine, select_hardfork) refl)
            | inr bad ↦
                unsupported best member is_latest bad (rw (old, found, bad, select_hardfork) refl)
          ]
    ]
  where
    best : HardforkName × ℕ
    best = highest_activation block_number first rest

    old : leb fork_block_number block_number ≡ false
    old = ground arith
