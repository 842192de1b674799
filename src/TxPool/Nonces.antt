-- ===== src/TxPool/Nonces.antt =====
-- Runs of consecutive nonces, for the pending lists of provider/TxPool.ts. `key` gives an element's
-- nonce.
use polkahat.Prelude.{
  ℕ, zero, suc, ◌+◌, ◌≤◌, ◌≡◌, ◌≢◌, refl, inl, inr, List, [], ◌∷◌, ◌++◌, Bool, true, none, some,
  Option-cases, subst, sym, length, take, drop, set, get_elem?, get_last?, find_index, ◌==◌,
  if◌then◌else◌, arith, Bool-cases, length-append,
}

module _ {ℓ} {A : Type ℓ} where
  -- What a search finds passes the test.
  pub find_index-some :
      (test : A → Bool) (xs : List A) (i : ℕ)
      → find_index test xs ≡ some i
      → (x : A) × (get_elem? xs i ≡ some x) × (test x ≡ true)
  find_index-some test [] i h = cc
  find_index-some test (x ∷ xs) i h = elim (Bool-cases (test x)) [
    | inl e ↦
        let z : ◌≡◌ {A = ℕ} 0 i = ground arith in
        (x, subst (λ k. get_elem? (x ∷ xs) k ≡ some x) z refl, e)
    | inr e ↦ elim (Option-cases (find_index test xs)) [
      | inl f ↦ absurd (ground arith)
      | inr (j, f) ↦
          let (y, at_j, passes) = find_index-some test xs j f in
          let z : suc j ≡ i = ground arith in
          (y, subst (λ k. get_elem? (x ∷ xs) k ≡ some y) z at_j, passes)
    ]
  ]

  module _ (key : A → ℕ) where
    -- The nonces of the list are n, n + 1, n + 2, …
    abbrev pub Run : ℕ → List A → Type 0
    Run n [] = Unit {0}
    Run n (x ∷ xs) = (key x ≡ n) × Run (suc n) xs

    -- Each nonce is one above the one before it.
    abbrev pub IsConsecutive : List A → Type 0
    IsConsecutive [] = Unit {0}
    IsConsecutive (x ∷ xs) = Run (suc (key x)) xs

    -- The first element's nonce, if there is one, is at most n.
    abbrev pub HeadLe : ℕ → List A → Type 0
    HeadLe n [] = Unit {0}
    HeadLe n (x ∷ xs) = key x ≤ n

    -- How far a list goes on with n, n + 1, ….
    abbrev pub run_length : ℕ → List A → ℕ
    run_length n [] = 0
    run_length n (x ∷ xs) = let rest = run_length (suc n) xs in if n == key x then suc rest else 0

    -- The nonce that follows a list, with a default for the empty one.
    abbrev pub next_key : ℕ → List A → ℕ
    next_key n xs = elim (get_last? xs) [ none ↦ n | some x ↦ key x + 1 ]

    pub Run-take : (n : ℕ) (xs : List A) → Run n (take (run_length n xs) xs)
    Run-take n [] = tt
    Run-take n (x ∷ xs) = elim (Bool-cases (n == key x)) [
      | inl e ↦ rw e (ground arith, Run-take (suc n) xs)
      | inr e ↦ rw e tt
    ]

    pub Run-append : (n : ℕ) (xs ys : List A) → Run n xs → Run (n + length xs) ys → Run n (xs ++ ys)
    Run-append n [] ys h k = subst (λ m. Run m ys) (omega arith) k
    Run-append n (x ∷ xs) ys h k =
        (h.0, Run-append (suc n) xs ys h.1 (subst (λ m. Run m ys) (omega arith) k))

    pub Run-set :
        (n : ℕ) (xs : List A) (i : ℕ) (x y : A)
        → Run n xs
        → get_elem? xs i ≡ some x
        → key y ≡ key x
        → Run n (set xs i y)
    Run-set n [] i x y h e k = tt
    Run-set n (z ∷ xs) zero x y h e k = (ground arith, h.1)
    Run-set n (z ∷ xs) (suc i) x y h e k = (h.0, Run-set (suc n) xs i x y h.1 e k)

    pub Run-last :
        (n : ℕ) (xs : List A) (x : A) → Run n xs → get_last? xs ≡ some x → key x + 1 ≡ n + length xs
    Run-last n [] x h e = cc
    Run-last n (y ∷ []) x h e = ground arith
    Run-last n (y ∷ z ∷ zs) x h e = omega (arith, Run-last (suc n) (z ∷ zs) x h.1 e)

    -- A nonce of the range is on the list.
    pub Run-found :
        (n k : ℕ) (xs : List A)
        → Run n xs
        → n ≤ k
        → find_index (λ x. key x == k) xs ≡ none
        → n + length xs ≤ k
    Run-found n k [] h le e = omega arith
    Run-found n k (x ∷ xs) h le e = elim (Option-cases (find_index (λ y. key y == k) xs)) [
      | inl f ↦ ground (arith, Run-found (suc n) k xs h.1)
      | inr (j, f) ↦ absurd (ground arith)
    ]

    pub Run-first : (n : ℕ) (x : A) (xs : List A) → Run n (x ∷ xs) → IsConsecutive (x ∷ xs)
    Run-first n x xs h = subst (λ m. Run (suc m) xs) (sym h.0) h.1

    pub IsConsecutive-Run : (x : A) (xs : List A) → IsConsecutive (x ∷ xs) → Run (key x) (x ∷ xs)
    IsConsecutive-Run x xs h = (refl, h)

    pub Run-IsConsecutive : (n : ℕ) (xs : List A) → Run n xs → IsConsecutive xs
    Run-IsConsecutive n [] h = tt
    Run-IsConsecutive n (x ∷ xs) h = Run-first n x xs h

    pub run_length-stops :
        (n : ℕ) (xs : List A) (y : A) (ys : List A)
        → drop (run_length n xs) xs ≡ y ∷ ys
        → key y ≢ n + run_length n xs
    run_length-stops n [] y ys e = absurd (cc)
    run_length-stops n (x ∷ xs) y ys e = elim (Bool-cases (n == key x)) [
      | inl c ↦ rw c (λ k. run_length-stops (suc n) xs y ys (rw c at e) (omega arith))
      | inr c ↦ let f : ◌≡◌ {A = List A} (x ∷ xs) (y ∷ ys) = rw c at e in rw c (λ k. ground arith)
    ]

    pub IsConsecutive-set :
        (xs : List A) (i : ℕ) (x y : A)
        → IsConsecutive xs
        → get_elem? xs i ≡ some x
        → key y ≡ key x
        → IsConsecutive (set xs i y)
    IsConsecutive-set [] i x y h e k = tt
    IsConsecutive-set (z ∷ xs) i x y h e k =
        Run-IsConsecutive (key z) (set (z ∷ xs) i y) (Run-set (key z) (z ∷ xs) i x y (refl, h) e k)

    get_last?-cons : (x : A) (xs : List A) → (y : A) × (get_last? (x ∷ xs) ≡ some y)
    get_last?-cons x [] = (x, refl)
    get_last?-cons x (z ∷ zs) = get_last?-cons z zs

    next_key-Run :
        (n c : ℕ) (x : A) (xs : List A) → Run n (x ∷ xs) → next_key c (x ∷ xs) ≡ n + length (x ∷ xs)
    next_key-Run n c x xs h =
        let (y, e) = get_last?-cons x xs in rw (e, next_key) (Run-last n (x ∷ xs) y h e)

    -- A new nonce between the account's and the one after the last pending one stands at the end.
    pub IsConsecutive-extend :
        (pending : List A) (c : ℕ) (s : A) (moved : List A)
        → IsConsecutive pending
        → HeadLe c pending
        → c ≤ key s
        → key s ≤ next_key c pending
        → find_index (λ x. key x == key s) pending ≡ none
        → Run (key s + 1) moved
        → IsConsecutive ((pending ++ s ∷ []) ++ moved)
    IsConsecutive-extend [] c s moved h first low high missing run =
        subst (λ n. Run n moved) (omega arith) run
    IsConsecutive-extend (x ∷ xs) c s moved h first low high missing run =
        Run-IsConsecutive (key x) (((x ∷ xs) ++ s ∷ []) ++ moved) (
          Run-append (key x) ((x ∷ xs) ++ s ∷ []) moved
            (Run-append (key x) (x ∷ xs) (s ∷ []) (refl, h) (at_end, tt))
            (subst (λ n. Run n moved) (omega (arith, at_end, length-append (x ∷ xs) (s ∷ []))) run))
      where
        at_end : key s ≡ key x + length (x ∷ xs)
        at_end = omega (
          arith,
          next_key-Run (key x) c x xs (refl, h),
          Run-found (key x) (key s) (x ∷ xs) (refl, h) (omega arith) missing,
        )

    Run-left : (n : ℕ) (xs ys : List A) → Run n (xs ++ ys) → Run n xs
    Run-left n [] ys h = tt
    Run-left n (x ∷ xs) ys h = (h.0, Run-left (suc n) xs ys h.1)

    pub IsConsecutive-left : (xs ys : List A) → IsConsecutive (xs ++ ys) → IsConsecutive xs
    IsConsecutive-left [] ys h = tt
    IsConsecutive-left (x ∷ xs) ys h = Run-left (suc (key x)) xs ys h
