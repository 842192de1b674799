-- ===== src/Names/RoundTrip.antt =====
-- What parseName answers, and the way back.
use polkahat.Prelude.{
  ℕ, ◌≡◌, ◌≢◌, ◌↔◌, refl, sym, ap, subst, ◌∙◌, inl, inr, List, [], ◌∷◌, ◌++◌, false, Option, none,
  some, All, ◌==◌, ==_iff, ==→ne, arith, Bool-cases, append_assoc,
}
use polkahat.Names.{
  colon, get_fully_qualified_name, onto_first, split, join, last_of, all_but_last, parse_parts,
  parse_name,
}

-- No colon stands in it.
abbrev pub IsBare : List ℕ → Type 0
IsBare = All (λ c. c ≢ colon)

split-cons :
    (name : List ℕ) → (part : List ℕ) × (parts : List (List ℕ)) × (split name ≡ part ∷ parts)
unfolding split
split-cons [] = ([], [], refl)
split-cons (c ∷ name) =
    let (part, parts, e) = split-cons name in
    elim (Bool-cases (c == colon)) [
      | inl here ↦ ([], split name, rw here refl)
      | inr other ↦ (c ∷ part, parts, rw (other, e) refl)
    ]

split-IsBare : (name : List ℕ) → All IsBare (split name)
unfolding split
split-IsBare [] = (tt, tt)
split-IsBare (c ∷ name) =
    let (part, parts, e) = split-cons name in
    let rest = split-IsBare name in
    let (bare, bares) = subst (All IsBare) e rest in
    elim (Bool-cases (c == colon)) [
      | inl here ↦ rw here (tt, rest)
      | inr other ↦ rw (other, e) ((==→ne c colon other, bare), bares)
    ]

split-bare : (name : List ℕ) → IsBare name → split name ≡ name ∷ []
unfolding split
split-bare [] b = refl
split-bare (c ∷ name) b =
    let other : (c == colon) ≡ false = (let ne = b.0 in ground arith) in
    rw (other, split-bare name b.1) refl

onto_first-append :
    (c : ℕ) (name : List ℕ) (more : List (List ℕ))
    → onto_first c (split name ++ more) ≡ onto_first c (split name) ++ more
onto_first-append c name more = let (part, parts, e) = split-cons name in rw e refl

split-append : (name more : List ℕ) → split (name ++ colon ∷ more) ≡ split name ++ split more
unfolding split
split-append [] more = refl
split-append (c ∷ name) more = elim (Bool-cases (c == colon)) [
  | inl here ↦ rw here (ap (λ ps. [] ∷ ps) (split-append name more))
  | inr other ↦
      rw other (ap (onto_first c) (split-append name more) ∙ onto_first-append c name (split more))
]

join-onto_first : (c : ℕ) (parts : List (List ℕ)) → join (onto_first c parts) ≡ c ∷ join parts
unfolding join
join-onto_first c [] = refl
join-onto_first c (part ∷ []) = refl
join-onto_first c (part ∷ next ∷ parts) = refl

join-split : (name : List ℕ) → join (split name) ≡ name
unfolding split join
join-split [] = refl
join-split (c ∷ name) = elim (Bool-cases (c == colon)) [
  | inl here ↦
      let (part, parts, e) = split-cons name in
      let back : join (part ∷ parts) ≡ name = ap join (sym e) ∙ join-split name in
      rw (here, e) (ap (λ n. colon ∷ n) back ∙ ap (λ d. d ∷ name) (sym ((==_iff c colon).0 here)))
  | inr other ↦ rw other (join-onto_first c (split name) ∙ ap (λ n. c ∷ n) (join-split name))
]

join-last :
    (part next : List ℕ) (parts : List (List ℕ))
    → join (part ∷ next ∷ parts)
      ≡ join (all_but_last part (next ∷ parts)) ++ colon ∷ last_of part (next ∷ parts)
unfolding join
join-last part next [] = refl
join-last part next (p ∷ parts) =
    ap (λ n. part ++ colon ∷ n) (join-last next p parts)
    ∙ sym (
        append_assoc part (colon ∷ join (all_but_last next (p ∷ parts)))
          (colon ∷ last_of next (p ∷ parts)))

last_of-IsBare :
    (part : List ℕ) (parts : List (List ℕ))
    → All IsBare (part ∷ parts)
    → IsBare (last_of part parts)
last_of-IsBare part [] b = b.0
last_of-IsBare part (next ∷ parts) b = last_of-IsBare next parts b.1

all_but_last-append :
    (part c : List ℕ) (parts : List (List ℕ)) → all_but_last part (parts ++ c ∷ []) ≡ part ∷ parts
all_but_last-append part c [] = refl
all_but_last-append part c (p ∷ parts) = ap (λ ps. part ∷ ps) (all_but_last-append p c parts)

last_of-append : (part c : List ℕ) (parts : List (List ℕ)) → last_of part (parts ++ c ∷ []) ≡ c
last_of-append part c [] = refl
last_of-append part c (p ∷ parts) = last_of-append p c parts

parse_parts-append :
    (part c : List ℕ) (parts : List (List ℕ))
    → parse_parts (part ∷ parts ++ c ∷ []) ≡ (some (join (part ∷ parts)), c)
unfolding parse_parts
parse_parts-append part c [] = refl
parse_parts-append part c (p ∷ parts) =
    let heads = all_but_last-append part c (p ∷ parts) in
    let last = last_of-append part c (p ∷ parts) in λ i. (some (join (heads i)), last i)

source_of : Option (List ℕ) → List ℕ
source_of none = []
source_of (some s) = s

parsed :
    (name s c part : List ℕ) (parts : List (List ℕ))
    → split name ≡ part ∷ parts
    → parse_parts (part ∷ parts) ≡ (some s, c)
    → (name ≡ get_fully_qualified_name s c) × IsBare c
unfolding parse_parts get_fully_qualified_name source_of
parsed name s c part [] e h = absurd (let none_there = ap (λ r. r.0) h in cc)
parsed name s c part (next ∷ parts) e h =
    let source : join (all_but_last part (next ∷ parts)) ≡ s = ap (λ r. source_of r.0) h in
    let contract : last_of part (next ∷ parts) ≡ c = ap (λ r. r.1) h in
    (
      sym (join-split name)
          ∙ ap join e
          ∙ join-last part next parts
          ∙ (λ i. source i ++ colon ∷ contract i),
      subst IsBare contract
          (last_of-IsBare part (next ∷ parts) (subst (All IsBare) e (split-IsBare name))),
    )

-- `parseName` finds a source name in a name just when the name is that source name and the contract's
-- name as `getFullyQualifiedName` puts them together, and no colon stands in the contract's name;
-- the source name may have colons.
pub parse_name_iff :
    (name s c : List ℕ)
    → (parse_name name ≡ (some s, c)) ↔ ((name ≡ get_fully_qualified_name s c) × IsBare c)
unfolding parse_name get_fully_qualified_name
parse_name_iff name s c = (
  λ h.
      (let (part, parts, e) = split-cons name in
        parsed name s c part parts e (ap parse_parts (sym e) ∙ h)),
  λ (same, bare).
      (let (part, parts, e) = split-cons s in
        ap (λ n. parse_parts (split n)) same
        ∙ ap parse_parts (split-append s c)
        ∙ (λ i. parse_parts (e i ++ split-bare c bare i))
        ∙ parse_parts-append part c parts
        ∙ ap (λ ps. (some (join ps), c)) (sym e)
        ∙ (λ i. (some (join-split s i), c))),
)
