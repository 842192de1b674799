-- ===== src/Node/Settling.antt =====
-- provider/node.ts: how the clock goes on from a block that was mined.
use polkahat.Prelude.{
  ℕ, ◌≡◌, ◌≢◌, refl, sym, subst, inl, inr, ◌⊎◌, Bool, true, false, ◌&&◌, Option, none, ◌==◌,
  if◌then◌else◌, arith, Bool-cases,
}
use polkahat.Prelude.Int.{ℤ, pos, negsuc, ◌+ℤ◌, ◌-ℤ◌}
use polkahat.Node.State.{HardhatNode}
use polkahat.Node.Clock.{
  TimestampAndOffset, calculate_timestamp_and_offset, settle_clock, eq_ℤ, is_unset, given, chosen,
  get_current_timestamp,
}

-- The time of a block, and the one that follows in the same second when the block's time was moved on.
abbrev pub moved_on : Bool → ℤ → ℤ
moved_on clashed t = if clashed then t +ℤ pos 1 else t

pub eq_ℤ_moved : (s : ℕ) (t : ℤ) (c : ℕ) → pos c ≡ moved_on (eq_ℤ (pos s) t) t → c ≢ s
eq_ℤ_moved s (pos a) c e h = ground arith
eq_ℤ_moved s (negsuc a) c e h = ground arith

on_from_default :
    (current later s : ℕ) (clashed : Bool) (offset : ℤ)
    → pos s ≡ moved_on clashed (pos current +ℤ offset)
    → pos later +ℤ moved_on clashed offset ≡ (pos s +ℤ pos later) -ℤ pos current
on_from_default current later s true (pos a) e = ground arith
on_from_default current later s true (negsuc a) e = ground arith
on_from_default current later s false (pos a) e = ground arith
on_from_default current later s false (negsuc a) e = ground arith

on_from_chosen :
    (current later s : ℕ) (clashed : Bool) (t : ℤ)
    → pos s ≡ moved_on clashed t
    → moved_on clashed (pos later +ℤ (t -ℤ pos current)) ≡ (pos s +ℤ pos later) -ℤ pos current
on_from_chosen current later s true (pos a) e = ground arith
on_from_chosen current later s true (negsuc a) e = ground arith
on_from_chosen current later s false (pos a) e = ground arith
on_from_chosen current later s false (negsuc a) e = ground arith

module _ {Data : Type 0} where
  abbrev default_time : ℕ → HardhatNode Data → TimestampAndOffset
  default_time current n = record {
    block_timestamp = pos current +ℤ n.block_time_offset_seconds;
    offset_should_change = false;
    new_offset = pos 0;
  }

  calculate_lem :
      (now : ℕ) (timestamp : Option ℕ) (n : HardhatNode Data)
      → (calculate_timestamp_and_offset now timestamp n
          ≡ default_time (get_current_timestamp now) n)
        ⊎ ((z : ℤ) × (calculate_timestamp_and_offset now timestamp n
              ≡ chosen (get_current_timestamp now) z))
  unfolding calculate_timestamp_and_offset
  calculate_lem now timestamp n = elim (Bool-cases (is_unset timestamp)) [
    | inr e ↦ inr (pos (given timestamp), rw (e, calculate_timestamp_and_offset) refl)
    | inl e ↦ elim (Bool-cases (n.next_block_timestamp == 0)) [
      | inl f ↦ inl (rw (e, f, calculate_timestamp_and_offset) refl)
      | inr f ↦ inr (pos n.next_block_timestamp, rw (e, f, calculate_timestamp_and_offset) refl)
    ]
  ]

  -- The default time of the block to come, after the clock was settled.
  abbrev pub GoesOn : ℕ → ℕ → ℕ → HardhatNode Data → TimestampAndOffset → Type 0
  GoesOn current later s m t =
      (clashed : Bool)
      → pos s ≡ moved_on clashed t.block_timestamp
      → moved_on (clashed && t.offset_should_change)
          (calculate_timestamp_and_offset later none (settle_clock clashed t m)).block_timestamp
        ≡ (pos s +ℤ pos (get_current_timestamp later)) -ℤ pos current

  default-GoesOn :
      (current later s : ℕ) (n m : HardhatNode Data)
      → m.block_time_offset_seconds ≡ n.block_time_offset_seconds
      → GoesOn current later s m (default_time current n)
  unfolding settle_clock calculate_timestamp_and_offset
  default-GoesOn current later s n m e true at =
      subst
        (λ o.
          pos (get_current_timestamp later) +ℤ moved_on true o
          ≡ (pos s +ℤ pos (get_current_timestamp later)) -ℤ pos current)
        (sym e)
        (on_from_default current (get_current_timestamp later) s true n.block_time_offset_seconds
          at)
  default-GoesOn current later s n m e false at =
      subst
        (λ o.
          pos (get_current_timestamp later) +ℤ moved_on false o
          ≡ (pos s +ℤ pos (get_current_timestamp later)) -ℤ pos current)
        (sym e)
        (on_from_default current (get_current_timestamp later) s false n.block_time_offset_seconds
          at)

  chosen-GoesOn :
      (current later s : ℕ) (m : HardhatNode Data) (z : ℤ)
      → GoesOn current later s m (chosen current z)
  unfolding settle_clock calculate_timestamp_and_offset
  chosen-GoesOn current later s m z true at =
      on_from_chosen current (get_current_timestamp later) s true z at
  chosen-GoesOn current later s m z false at =
      on_from_chosen current (get_current_timestamp later) s false z at

  pub settle_clock-GoesOn :
      (now later s : ℕ) (given : Option ℕ) (n m : HardhatNode Data)
      → m.block_time_offset_seconds ≡ n.block_time_offset_seconds
      → GoesOn (get_current_timestamp now) later s m (calculate_timestamp_and_offset now given n)
  settle_clock-GoesOn now later s given n m e = elim (calculate_lem now given n) [
    | inl h ↦
        subst (GoesOn (get_current_timestamp now) later s m) (sym h)
          (default-GoesOn (get_current_timestamp now) later s n m e)
    | inr (z, h) ↦
        subst (GoesOn (get_current_timestamp now) later s m) (sym h)
          (chosen-GoesOn (get_current_timestamp now) later s m z)
  ]

  -- What settling the clock leaves alone.
  pub settled_alone :
      (clashed should : Bool) (ts offset : ℤ) (m : HardhatNode Data)
      → ((settle_clock clashed
            (record { block_timestamp = ts; offset_should_change = should; new_offset = offset })
            m).blockchain
          ≡ m.blockchain)
        × ((settle_clock clashed
              (record { block_timestamp = ts; offset_should_change = should; new_offset = offset })
              m).state_root
            ≡ m.state_root)
  unfolding settle_clock
  settled_alone true true ts offset m = (refl, refl)
  settled_alone true false ts offset m = (refl, refl)
  settled_alone false true ts offset m = (refl, refl)
  settled_alone false false ts offset m = (refl, refl)
