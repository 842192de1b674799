-- ===== src/Filter/Selection.antt =====
-- Which logs `filterLogs` keeps.
use polkahat.Prelude.{
  ℕ, ◌≡◌, ◌↔◌, ◌⊎◌, refl, inl, inr, List, [], ◌∷◌, true, false, not, ◌&&◌, length, ◌==◌, ==_iff,
  arith, Bool-cases,
}
use polkahat.Prelude.Int.{ℤ, pos, negsuc, ◌≤ℤ◌, ltb_ℤ}
use polkahat.Filter.{
  RpcLogOutput, FilterCriteria, includes, topic_matched, is_latest, is_selected, filter_logs,
  latest_block,
}
use polkahat.Filter.Topics.{FitsTopics, topic_matched-FitsTopics}

-- The address is one of the list.
abbrev pub In : ℕ → List ℕ → Type 0
In a [] = ⊥
In a (x ∷ xs) = (x ≡ a) ⊎ In a xs

-- The log's block lies in the range, its address is asked for, and its topics fit.
pub record Accepts (criteria : FilterCriteria) (log : RpcLogOutput) : Type 0 where
  pub not_before : criteria.from_block ≤ℤ pos log.block_number
  pub not_after : (criteria.to_block ≡ latest_block) ⊎ (pos log.block_number ≤ℤ criteria.to_block)
  pub from_address : (criteria.addresses ≡ []) ⊎ In log.address criteria.addresses
  pub fits : FitsTopics criteria.normalized_topics log.topics

includes-In : (a : ℕ) (xs : List ℕ) → includes xs a ≡ true → In a xs
unfolding includes
includes-In a [] h = absurd (cc)
includes-In a (x ∷ xs) h = elim (Bool-cases (x == a)) [
  | inl e ↦ inl ((==_iff x a).0 e)
  | inr e ↦ inr (includes-In a xs (rw e at h))
]

In-includes : (a : ℕ) (xs : List ℕ) → In a xs → includes xs a ≡ true
unfolding includes
In-includes a [] h = absurd h
In-includes a (x ∷ xs) (inl e) = rw ((==_iff x a).1 e)
In-includes a (x ∷ xs) (inr h) = elim (Bool-cases (x == a)) [
  | inl e ↦ rw e
  | inr e ↦ rw e (In-includes a xs h)
]

-- The three tests before the topics, each with what it means.
range_low : (f : ℤ) (n : ℕ) → (ltb_ℤ (pos n) f ≡ false) ↔ (f ≤ℤ pos n)
range_low f n = ground arith

range_high :
    (t : ℤ) (n : ℕ)
    → ((not (is_latest t) && ltb_ℤ t (pos n)) ≡ false) ↔ ((t ≡ latest_block) ⊎ (pos n ≤ℤ t))
range_high (pos m) n = (λ h. inr (ground arith), λ h. ground arith)
range_high (negsuc m) n = elim (Bool-cases (m == 0)) [
  | inl e ↦ (λ h. inl (ground arith), λ h. rw e refl)
  | inr e ↦ (λ h. absurd (ground arith), λ h. absurd (ground arith))
]

address_test :
    (xs : List ℕ) (a : ℕ)
    → ((not (length xs == 0) && not (includes xs a)) ≡ false) ↔ ((xs ≡ []) ⊎ In a xs)
address_test [] a = (λ h. inl refl, λ h. refl)
address_test (x ∷ xs) a = elim (Bool-cases (includes (x ∷ xs) a)) [
  | inl e ↦ (λ h. inr (includes-In a (x ∷ xs) e), λ h. rw e (ground arith))
  | inr e ↦ (
    λ h. absurd (ground arith),
    λ h. absurd (elim h [ inl k ↦ cc | inr i ↦ cc (In-includes a (x ∷ xs) i) ]),
  )
]

module _ (criteria : FilterCriteria) (log : RpcLogOutput) where
  selected-Accepts : is_selected log criteria ≡ true → Accepts criteria log
  unfolding is_selected
  selected-Accepts h = elim (Bool-cases (ltb_ℤ (pos log.block_number) criteria.from_block)) [
    | inl a ↦ absurd (ground arith)
    | inr a ↦
        elim (Bool-cases
          (not (is_latest criteria.to_block) && ltb_ℤ criteria.to_block (pos log.block_number))) [
            | inl b ↦ absurd (ground arith)
            | inr b ↦
                elim (Bool-cases (
                  not (length criteria.addresses == 0)
                  && not (includes criteria.addresses log.address))) [
                    | inl c ↦ absurd (ground arith)
                    | inr c ↦
                        elim (Bool-cases (topic_matched criteria.normalized_topics log.topics)) [
                          | inl d ↦ record {
                            not_before = (range_low criteria.from_block log.block_number).0 a;
                            not_after = (range_high criteria.to_block log.block_number).0 b;
                            from_address = (address_test criteria.addresses log.address).0 c;
                            fits =
                                (topic_matched-FitsTopics criteria.normalized_topics log.topics).0
                                  d;
                          }
                          | inr d ↦ absurd (ground arith)
                        ]
                  ]
          ]
  ]

  Accepts-selected : Accepts criteria log → is_selected log criteria ≡ true
  unfolding is_selected
  Accepts-selected v =
      let a = (range_low criteria.from_block log.block_number).1 v.not_before in
      let b = (range_high criteria.to_block log.block_number).1 v.not_after in
      let c = (address_test criteria.addresses log.address).1 v.from_address in
      let d = (topic_matched-FitsTopics criteria.normalized_topics log.topics).1 v.fits in
      rw (a, b, c, d) refl

  -- A log passes the tests of the loop just when the criteria accept it.
  pub is_selected-Accepts : (is_selected log criteria ≡ true) ↔ Accepts criteria log
  is_selected-Accepts = (selected-Accepts, Accepts-selected)

-- The second list holds just those elements of the first that have the property, in order.
pub data Selects {A : Type 0} (P : A → Type 0) : List A → List A → Type 0 where
  done : Selects P [] []
  keep : {x : A} {xs ys : List A} → P x → Selects P xs ys → Selects P (x ∷ xs) (x ∷ ys)
  drop : {x : A} {xs ys : List A} → ¬ P x → Selects P xs ys → Selects P (x ∷ xs) ys

-- `filterLogs` keeps the accepted logs and no others, in order.
pub filter_logs-Selects :
    (criteria : FilterCriteria) (logs : List RpcLogOutput)
    → Selects (Accepts criteria) logs (filter_logs logs criteria)
unfolding filter_logs
filter_logs-Selects criteria [] = done
filter_logs-Selects criteria (log ∷ logs) = elim (Bool-cases (is_selected log criteria)) [
  | inl e ↦ rw e (keep (selected-Accepts criteria log e) (filter_logs-Selects criteria logs))
  | inr e ↦
      rw e (drop (λ v. cc (Accepts-selected criteria log v)) (filter_logs-Selects criteria logs))
]
