-- ===== src/Tests/Names.antt =====
-- Tests and a witness for utils/contract-names.ts.
use polkahat.Prelude.{ℕ, ◌≡◌, ◌↔◌, refl, List, [], ◌∷◌, some}
use polkahat.Prelude.Outcome.{ok, throw}
use polkahat.Names.{
  get_fully_qualified_name, split, join, parse_parts, parse_name, parse_fully_qualified_name,
  invalid_fully_qualified_name,
}
use polkahat.Names.RoundTrip.{IsBare, parse_name_iff}

-- "a:b" and "C"
abbrev source : List ℕ
source = 97 ∷ 58 ∷ 98 ∷ []

abbrev contract : List ℕ
contract = 67 ∷ []

parses : parse_fully_qualified_name (97 ∷ 58 ∷ 98 ∷ 58 ∷ 67 ∷ []) ≡ ok (source, contract)
unfolding split join parse_parts parse_name parse_fully_qualified_name
parses = refl

refuses : parse_fully_qualified_name contract ≡ throw invalid_fully_qualified_name
unfolding split join parse_parts parse_name parse_fully_qualified_name
refuses = refl

parse_name_iff_example :
    (parse_name (97 ∷ 58 ∷ 98 ∷ 58 ∷ 67 ∷ []) ≡ (some source, contract))
    ↔ ((97 ∷ 58 ∷ 98 ∷ 58 ∷ 67 ∷ [] ≡ get_fully_qualified_name source contract) × IsBare contract)
parse_name_iff_example = parse_name_iff (97 ∷ 58 ∷ 98 ∷ 58 ∷ 67 ∷ []) source contract
