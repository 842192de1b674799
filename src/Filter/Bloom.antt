-- ===== src/Filter/Bloom.antt =====
-- The bloom test never passes over a block that has a log for the filter, unless a position of the
-- filter lists `null` among its alternatives.
use polkahat.Prelude.{
  ℕ, ◌≡◌, ◌≢◌, refl, inl, inr, List, [], ◌∷◌, Bool, true, Option, none, some, All, any, arith,
  Bool-cases,
}
use polkahat.Filter.{
  RpcLogOutput, FilterCriteria, alternatives, check_topic, bloom_topics, bloom_filter,
}
use polkahat.Filter.Topics.{OneOf, FitsTopics}
use polkahat.Filter.Selection.{In, Accepts}

-- No position lists `null` among its alternatives.
abbrev pub HasNoNull : List (Option (List (Option ℕ))) → Type 0
HasNoNull subs = All (λ sub. All (λ t. t ≢ none) (alternatives sub)) subs

OneOf-check :
    (check : ℕ → Bool) (l : ℕ) (ts : List (Option ℕ))
    → check l ≡ true
    → All (λ t. t ≢ none) ts
    → OneOf l ts
    → any (check_topic check) ts ≡ true
OneOf-check check l [] c n h = absurd h
OneOf-check check l (none ∷ ts) c n h = absurd (n.0 refl)
OneOf-check check l (some t ∷ ts) c n (inl e) = rw (← e, c)
OneOf-check check l (some t ∷ ts) c n (inr h) = elim (Bool-cases (check t)) [
  | inl e ↦ rw e
  | inr e ↦ rw e (OneOf-check check l ts c n.1 h)
]

bloom_topics_complete :
    (check : ℕ → Bool) (subs : List (Option (List (Option ℕ)))) (ls : List ℕ)
    → All (λ l. check l ≡ true) ls
    → HasNoNull subs
    → FitsTopics subs ls
    → bloom_topics check subs ≡ true
unfolding bloom_topics
bloom_topics_complete check [] ls c n f = refl
bloom_topics_complete check (sub ∷ subs) [] c n f = absurd f
bloom_topics_complete check (none ∷ subs) (l ∷ ls) c n f =
    bloom_topics_complete check subs ls c.1 n.1 f.1
bloom_topics_complete check (some [] ∷ subs) (l ∷ ls) c n f =
    bloom_topics_complete check subs ls c.1 n.1 f.1
bloom_topics_complete check (some (t ∷ ts) ∷ subs) (l ∷ ls) c n f =
    rw (OneOf-check check l (t ∷ ts) c.0 n.0 f.0) (bloom_topics_complete check subs ls c.1 n.1 f.1)

In-any : (check : ℕ → Bool) (a : ℕ) (xs : List ℕ) → check a ≡ true → In a xs → any check xs ≡ true
In-any check a [] c h = absurd h
In-any check a (x ∷ xs) c (inl e) = rw (e, c)
In-any check a (x ∷ xs) c (inr h) = elim (Bool-cases (check x)) [
  | inl e ↦ rw e
  | inr e ↦ rw e (In-any check a xs c h)
]

-- If the bloom reports the log's address and topics, as the bloom of its block does, and no
-- position of the filter lists `null` among its alternatives, then a filter that accepts the log
-- does not pass the block over.
pub bloom_filter_complete :
    (check : ℕ → Bool) (criteria : FilterCriteria) (log : RpcLogOutput)
    → check log.address ≡ true
    → All (λ l. check l ≡ true) log.topics
    → HasNoNull criteria.normalized_topics
    → Accepts criteria log
    → bloom_filter check criteria.addresses criteria.normalized_topics ≡ true
unfolding bloom_filter
bloom_filter_complete check criteria log a c n v = elim v.from_address [
  | inl e ↦ rw e (bloom_topics_complete check criteria.normalized_topics log.topics c n v.fits)
  | inr i ↦
      let hit = In-any check log.address criteria.addresses a i in
      let rest = bloom_topics_complete check criteria.normalized_topics log.topics c n v.fits in
      ground (arith, hit, rest)
]
