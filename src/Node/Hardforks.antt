-- ===== src/Node/Hardforks.antt =====
-- packages/hardhat-core/src/internal/util/hardforks.ts, and the choice of a hardfork for a block in
-- provider/node.ts. A hardfork's name is its place in the order of the enum.
use polkahat.Prelude.{
  ℕ, List, [], ◌∷◌, Bool, ◌&&◌, Option, none, some, ltb, leb, if◌then◌else◌, not,
}
use polkahat.Prelude.Outcome.{Result, ok, throw}

pub data HardforkName : Type 0 where
  frontier homestead dao tangerine_whistle spurious_dragon byzantium : HardforkName
  constantinople petersburg istanbul muir_glacier berlin london : HardforkName
  arrow_glacier gray_glacier merge shanghai cancun : HardforkName

-- Its index in HARDFORKS_ORDER.
abbrev pub hardfork_index : HardforkName → ℕ
hardfork_index frontier = 0
hardfork_index homestead = 1
hardfork_index dao = 2
hardfork_index tangerine_whistle = 3
hardfork_index spurious_dragon = 4
hardfork_index byzantium = 5
hardfork_index constantinople = 6
hardfork_index petersburg = 7
hardfork_index istanbul = 8
hardfork_index muir_glacier = 9
hardfork_index berlin = 10
hardfork_index london = 11
hardfork_index arrow_glacier = 12
hardfork_index gray_glacier = 13
hardfork_index merge = 14
hardfork_index shanghai = 15
hardfork_index cancun = 16

unfoldable pub hardfork_gte : HardforkName → HardforkName → Bool
hardfork_gte a b = leb (hardfork_index b) (hardfork_index a)

-- The name that ethereumjs is given: "merge" is called "mergeForkIdTransition" there.
pub data SelectedHardfork : Type 0 where
  merge_fork_id_transition : SelectedHardfork
  named : HardforkName → SelectedHardfork

unfoldable pub selected : HardforkName → SelectedHardfork
selected merge = merge_fork_id_transition
selected other = named other

-- The texts of the errors that `_selectHardfork` throws.
pub data HardforkError : Type 0 where
  no_activation_history no_hardfork_for_block hardfork_not_supported : HardforkError
  transient_storage_not_compatible : HardforkError

-- One round of the `reduce`.
abbrev pub later_activation : ℕ → HardforkName × ℕ → HardforkName × ℕ → HardforkName × ℕ
later_activation block_number (highest, highest_block) (this, this_block) =
    if ltb highest_block this_block && leb this_block block_number
    then (this, this_block)
    else (highest, highest_block)

unfoldable pub highest_activation :
    ℕ → HardforkName × ℕ → List (HardforkName × ℕ) → HardforkName × ℕ
highest_activation block_number best [] = best
highest_activation block_number best (entry ∷ rest) =
    highest_activation block_number (later_activation block_number best entry) rest

-- HARDHAT_NETWORK_SUPPORTED_HARDFORKS is a constant of core/config/default-config.ts, given here.
unfoldable pub select_hardfork :
    (HardforkName → Bool)
    → SelectedHardfork
    → Option ℕ
    → List (HardforkName × ℕ)
    → ℕ
    → Result HardforkError SelectedHardfork
unfolding highest_activation selected
select_hardfork is_supported current none activations block_number = ok current
select_hardfork is_supported current (some fork_block_number) [] block_number =
    if leb fork_block_number block_number then ok current else throw no_activation_history
select_hardfork is_supported current (some fork_block_number) (first ∷ rest) block_number =
    let (hardfork, activation_block) = highest_activation block_number first rest in
    if leb fork_block_number block_number
    then ok current
    else if ltb block_number activation_block
    then throw no_hardfork_for_block
    else if not (is_supported hardfork)
    then throw hardfork_not_supported
    else ok (selected hardfork)

unfoldable pub assert_transient_storage_compatibility :
    Bool → HardforkName → Result HardforkError (Unit {0})
unfolding hardfork_gte
assert_transient_storage_compatibility enable_transient_storage hardfork =
    if enable_transient_storage && not (hardfork_gte hardfork cancun)
    then throw transient_storage_not_compatible
    else ok tt
