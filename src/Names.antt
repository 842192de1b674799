-- ===== src/Names.antt =====
-- packages/hardhat-core/src/utils/contract-names.ts: fully qualified names. A string is the list of
-- its character codes.
pub mod RoundTrip
use polkahat.Prelude.{
  ℕ, ◌≡◌, ◌≢◌, ◌↔◌, refl, sym, ap, subst, ◌∙◌, inl, inr, List, [], ◌∷◌, ◌++◌, Bool, true, false,
  Option, none, some, All, All-append, any, ◌==◌, ==_iff, ==→ne, if◌then◌else◌, arith, Bool-cases,
  append-nil,
}
use polkahat.Prelude.Outcome.{Result, ok, throw}

abbrev pub colon : ℕ
colon = 58

unfoldable pub get_fully_qualified_name : List ℕ → List ℕ → List ℕ
get_fully_qualified_name source_name contract_name = source_name ++ colon ∷ contract_name

unfoldable pub is_fully_qualified_name : List ℕ → Bool
is_fully_qualified_name name = any (λ c. c == colon) name

abbrev pub onto_first : ℕ → List (List ℕ) → List (List ℕ)
onto_first c [] = (c ∷ []) ∷ []
onto_first c (part ∷ parts) = (c ∷ part) ∷ parts

-- `name.split(":")`
unfoldable pub split : List ℕ → List (List ℕ)
split [] = [] ∷ []
split (c ∷ name) = let parts = split name in if c == colon then [] ∷ parts else onto_first c parts

-- `parts.join(":")`
unfoldable pub join : List (List ℕ) → List ℕ
join [] = []
join (part ∷ []) = part
join (part ∷ next ∷ parts) = part ++ colon ∷ join (next ∷ parts)

-- `parts[parts.length - 1]` and `parts.slice(0, parts.length - 1)`
abbrev pub last_of : List ℕ → List (List ℕ) → List ℕ
last_of part [] = part
last_of part (next ∷ parts) = last_of next parts

abbrev pub all_but_last : List ℕ → List (List ℕ) → List (List ℕ)
all_but_last part [] = []
all_but_last part (next ∷ parts) = part ∷ all_but_last next parts

-- The source name, if there is one, and the contract's name.
unfoldable pub parse_parts : List (List ℕ) → Option (List ℕ) × List ℕ
unfolding join
parse_parts [] = (none, [])
parse_parts (part ∷ []) = (none, part)
parse_parts (part ∷ next ∷ parts) =
    (some (join (all_but_last part (next ∷ parts))), last_of part (next ∷ parts))

unfoldable pub parse_name : List ℕ → Option (List ℕ) × List ℕ
unfolding split parse_parts
parse_name name = parse_parts (split name)

pub data Error : Type 0 where
  invalid_fully_qualified_name : Error

abbrev pub with_source : Option (List ℕ) × List ℕ → Result Error (List ℕ × List ℕ)
with_source (none, contract_name) = throw invalid_fully_qualified_name
with_source (some source_name, contract_name) = ok (source_name, contract_name)

unfoldable pub parse_fully_qualified_name : List ℕ → Result Error (List ℕ × List ℕ)
unfolding parse_name
parse_fully_qualified_name name = with_source (parse_name name)
