-- ===== src/TxPool/Promotion.antt =====
-- What `reorganizeTransactionsLists` does to the two lists of a sender.
use mathlib.Core.List.{Permᴰ}
use native.Mathlib.Nat.{zero-add}
use polkahat.Prelude.{
  ℕ, zero, suc, ◌+◌, ◌≡◌, ◌≢◌, refl, sym, ap, subst, inl, inr, List, [], ◌∷◌, ◌++◌, append_assoc,
  append-nil, some, length, take, drop, get_last?, ◌==◌, arith, Bool-cases, take-append-drop,
}
use polkahat.Prelude.Outcome.{ok}
use polkahat.Transaction.{SerializedTransaction, Externals, IsSortedBy}
use polkahat.TxPool.Nonces.{Run, run_length, Run-take, run_length-stops}
use polkahat.TxPool.Reorganize.{move_queued, reorganize}

module _ {ℓ} {A : Type ℓ} (key : A → ℕ) where
  IsSortedBy-drop : (n : ℕ) (xs : List A) → IsSortedBy key xs → IsSortedBy key (drop n xs)
  IsSortedBy-drop zero xs h = h
  IsSortedBy-drop (suc n) [] h = h
  IsSortedBy-drop (suc n) (x ∷ xs) h = IsSortedBy-drop n xs h.1

  length-take-run_length :
      (n : ℕ) (xs : List A) → length (take (run_length key n xs) xs) ≡ run_length key n xs
  length-take-run_length n [] = refl
  length-take-run_length n (x ∷ xs) = elim (Bool-cases (n == key x)) [
    | inl e ↦ rw e (ap suc (length-take-run_length (suc n) xs))
    | inr e ↦ rw e
  ]

module _ {Data : Type 0} (ext : Externals Data) (key : SerializedTransaction Data → ℕ) where
  move_queued_lem :
      (np : List (SerializedTransaction Data)) (n c : ℕ) (xs : List (SerializedTransaction Data))
      → move_queued ext key np n c xs
        ≡ (np ++ take (run_length key n xs) xs, c + run_length key n xs)
  unfolding move_queued
  move_queued_lem np n c [] = ground (arith, append-nil np)
  move_queued_lem np n c (x ∷ xs) = elim (Bool-cases (n == key x)) [
    | inl e ↦ rw e (
        ground (
          arith,
          move_queued_lem (np ++ x ∷ []) (n + 1) (c + 1) xs,
          append_assoc np (x ∷ []) (take (run_length key (suc n) xs) xs),
        ))
    | inr e ↦ rw e (ground (arith, append-nil np))
  ]

  -- A non-empty pending list is kept, and behind it come, with the nonces that follow on it, all
  -- that can be executed: the queued transactions are shared out between what moved and the rest,
  -- which is sorted and does not begin with the next nonce.
  pub reorganize_lem :
      (pending queued : List (SerializedTransaction Data)) (last : SerializedTransaction Data)
      → get_last? pending ≡ some last
      → (moved : List (SerializedTransaction Data)) × (rest : List (SerializedTransaction Data))
        × (reorganize ext key pending queued ≡ ok (pending ++ moved, rest))
        × Run key (key last + 1) moved
        × Permᴰ (moved ++ rest) queued
        × IsSortedBy key rest
        × ((y : SerializedTransaction Data) (ys : List (SerializedTransaction Data))
            → rest ≡ y ∷ ys
            → key y ≢ key last + 1 + length moved)
  unfolding reorganize
  reorganize_lem pending queued last e =
      let sorted = ext.sort_by key queued in
      let k = run_length key (key last + 1) sorted in
      (
        take k sorted,
        drop k sorted,
        rw (e, reorganize, move_queued_lem pending (key last + 1) 0 sorted, zero-add k) refl,
        Run-take key (key last + 1) sorted,
        subst (λ l. Permᴰ l queued) (sym (take-append-drop k sorted)) (ext.sort_by-perm key queued),
        IsSortedBy-drop key k sorted (ext.sort_by-IsSortedBy key queued),
        λ y ys r.
            rw (length-take-run_length key) (run_length-stops key (key last + 1) sorted y ys r),
      )
