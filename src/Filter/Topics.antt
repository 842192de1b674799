-- ===== src/Filter/Topics.antt =====
-- What `topicMatched` and `filterLogs` decide, against a description without indices.
use polkahat.Prelude.{
  ℕ, zero, suc, ◌+◌, ◌≤◌, ◌≡◌, ◌↔◌, ◌⊎◌, refl, sym, ap, ◌∙◌, ◌<◌, inl, inr, List, [], ◌∷◌, true,
  Option, none, some, length, get_elem?, drop, any, ltb, ◌==◌, ==_iff, arith, Bool-cases,
}
use polkahat.Filter.{topic_matches, topics_matched_from, topic_matched}

-- One of the alternatives is the log's topic, or stands for any.
abbrev pub OneOf : ℕ → List (Option ℕ) → Type 0
OneOf l [] = ⊥
OneOf l (none ∷ ts) = Unit {0}
OneOf l (some t ∷ ts) = (l ≡ t) ⊎ OneOf l ts

-- A position with no alternatives takes any topic.
abbrev pub FitsPosition : ℕ → Option (List (Option ℕ)) → Type 0
FitsPosition l none = Unit {0}
FitsPosition l (some []) = Unit {0}
FitsPosition l (some (t ∷ ts)) = OneOf l (t ∷ ts)

-- Position by position; a log may have more topics than the filter, and not fewer.
abbrev pub FitsTopics : List (Option (List (Option ℕ))) → List ℕ → Type 0
FitsTopics [] ls = Unit {0}
FitsTopics (sub ∷ subs) [] = ⊥
FitsTopics (sub ∷ subs) (l ∷ ls) = FitsPosition l sub × FitsTopics subs ls

any-OneOf : (l : ℕ) (ts : List (Option ℕ)) → any (topic_matches (some l)) ts ≡ true → OneOf l ts
any-OneOf l [] h = absurd (cc)
any-OneOf l (none ∷ ts) h = tt
any-OneOf l (some t ∷ ts) h = elim (Bool-cases (l == t)) [
  | inl e ↦ inl ((==_iff l t).0 e)
  | inr e ↦ inr (any-OneOf l ts (rw e at h))
]

OneOf-any : (l : ℕ) (ts : List (Option ℕ)) → OneOf l ts → any (topic_matches (some l)) ts ≡ true
OneOf-any l [] h = absurd h
OneOf-any l (none ∷ ts) h = refl
OneOf-any l (some t ∷ ts) (inl e) = rw ((==_iff l t).1 e)
OneOf-any l (some t ∷ ts) (inr h) = elim (Bool-cases (l == t)) [
  | inl e ↦ rw e
  | inr e ↦ rw e (OneOf-any l ts h)
]

-- The element at a position, and the list behind it.
get_elem?-drop :
    {A : Type 0} (xs : List A) (i : ℕ) (x : A) (rest : List A)
    → drop i xs ≡ x ∷ rest
    → (get_elem? xs i ≡ some x) × (drop (suc i) xs ≡ rest)
get_elem?-drop [] zero x rest h = absurd (cc)
get_elem?-drop [] (suc i) x rest h = absurd (cc)
get_elem?-drop (y ∷ ys) zero x rest h = (cc, cc)
get_elem?-drop (y ∷ ys) (suc i) x rest h = get_elem?-drop ys i x rest h

length-drop-add :
    {A : Type 0} (xs : List A) (i : ℕ) → i ≤ length xs → i + length (drop i xs) ≡ length xs
length-drop-add xs zero h = omega arith
length-drop-add [] (suc i) h = absurd (omega arith)
length-drop-add (x ∷ xs) (suc i) h = omega (arith, length-drop-add xs i (omega arith))

same_alternatives :
    (log : List ℕ) (i l : ℕ) (ts : List (Option ℕ))
    → get_elem? log i ≡ some l
    → any (topic_matches (get_elem? log i)) ts ≡ any (topic_matches (some l)) ts
same_alternatives log i l ts e = ap (λ o. any (topic_matches o) ts) e

FitsTopics-few :
    (subs : List (Option (List (Option ℕ)))) (ls : List ℕ)
    → FitsTopics subs ls
    → ¬ (length ls < length subs)
FitsTopics-few [] ls f h = omega arith
FitsTopics-few (sub ∷ subs) [] f h = f
FitsTopics-few (sub ∷ subs) (l ∷ ls) f h = FitsTopics-few subs ls f.1 (omega arith)

module _ (count : ℕ) (log : List ℕ) (enough : count ≤ length log) where
  from_FitsTopics :
      (i : ℕ) (subs : List (Option (List (Option ℕ)))) (ls : List ℕ)
      → drop i log ≡ ls
      → topics_matched_from count log i subs ≡ true
      → i + length subs ≤ count
      → FitsTopics subs ls
  unfolding topics_matched_from
  from_FitsTopics i [] ls e h k = tt
  from_FitsTopics i (sub ∷ subs) [] e h k =
      absurd (omega (arith, length-drop-add log i (omega arith), ap length e))
  from_FitsTopics i (none ∷ subs) (l ∷ ls) e h k = (
    tt,
    from_FitsTopics (suc i) subs ls (get_elem?-drop log i l ls e).1 (ground arith) (omega arith),
  )
  from_FitsTopics i (some [] ∷ subs) (l ∷ ls) e h k = (
    tt,
    from_FitsTopics (suc i) subs ls (get_elem?-drop log i l ls e).1 (ground arith) (omega arith),
  )
  from_FitsTopics i (some (t ∷ ts) ∷ subs) (l ∷ ls) e h k =
      let (at_i, behind) = get_elem?-drop log i l ls e in
      let same = same_alternatives log i l (t ∷ ts) at_i in
      elim (Bool-cases (any (topic_matches (get_elem? log i)) (t ∷ ts))) [
        | inl hit ↦ (
          any-OneOf l (t ∷ ts) (sym same ∙ hit),
          from_FitsTopics (suc i) subs ls behind (ground arith) (omega arith),
        )
        | inr miss ↦ absurd (ground arith)
      ]

  FitsTopics-from :
      (i : ℕ) (subs : List (Option (List (Option ℕ)))) (ls : List ℕ)
      → drop i log ≡ ls
      → FitsTopics subs ls
      → topics_matched_from count log i subs ≡ true
  unfolding topics_matched_from
  FitsTopics-from i [] ls e f = refl
  FitsTopics-from i (sub ∷ subs) [] e f = absurd f
  FitsTopics-from i (none ∷ subs) (l ∷ ls) e f =
      ground (arith, FitsTopics-from (suc i) subs ls (get_elem?-drop log i l ls e).1 f.1)
  FitsTopics-from i (some [] ∷ subs) (l ∷ ls) e f =
      ground (arith, FitsTopics-from (suc i) subs ls (get_elem?-drop log i l ls e).1 f.1)
  FitsTopics-from i (some (t ∷ ts) ∷ subs) (l ∷ ls) e f =
      let (at_i, behind) = get_elem?-drop log i l ls e in
      let hit = same_alternatives log i l (t ∷ ts) at_i ∙ OneOf-any l (t ∷ ts) f.0 in
      ground (arith, FitsTopics-from (suc i) subs ls behind f.1)

-- A log's topics match just when at each of the filter's positions the log has a topic that fits.
pub topic_matched-FitsTopics :
    (subs : List (Option (List (Option ℕ)))) (log : List ℕ)
    → (topic_matched subs log ≡ true) ↔ FitsTopics subs log
unfolding topic_matched
topic_matched-FitsTopics [] log = (λ h. tt, λ h. refl)
topic_matched-FitsTopics (sub ∷ subs) log =
    elim (Bool-cases (ltb (length log) (suc (length subs)))) [
      | inl few ↦ (
        λ h. absurd (ground arith),
        λ f. absurd (FitsTopics-few (sub ∷ subs) log f (ground arith)),
      )
      | inr enough ↦ (
        λ h.
            from_FitsTopics (suc (length subs)) log (ground arith) 0 (sub ∷ subs) log refl h
              (omega arith),
        λ f. FitsTopics-from (suc (length subs)) log (ground arith) 0 (sub ∷ subs) log refl f,
      )
    ]
