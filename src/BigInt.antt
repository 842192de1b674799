-- ===== src/BigInt.antt =====
-- internal/util/bigint.ts: arithmetic helpers on non-negative big integers.
use polkahat.Prelude.{ℕ, ◌+◌, ◌/◌, ◌%◌, ltb, ◌==◌, if◌then◌else◌, not}
use polkahat.Prelude.Int.{ℤ, pos, negsuc, ltb_ℤ}

unfoldable pub min : ℕ → ℕ → ℕ
min x y = if ltb x y then x else y

unfoldable pub max : ℕ → ℕ → ℕ
max x y = if ltb y x then x else y

-- `min` where a side may be negative.
unfoldable pub min_ℤ : ℤ → ℤ → ℤ
min_ℤ x y = if ltb_ℤ x y then x else y

unfoldable pub div_up : ℕ → ℕ → ℕ
div_up x y = let result = x / y in if not (x % y == 0) then result + 1 else result

-- -1, 1 or 0.
unfoldable pub cmp : ℕ → ℕ → ℤ
cmp a b = if ltb a b then negsuc 0 else if ltb b a then pos 1 else pos 0

unfoldable pub cmp_ℤ : ℤ → ℤ → ℤ
cmp_ℤ a b = if ltb_ℤ a b then negsuc 0 else if ltb_ℤ b a then pos 1 else pos 0
