-- ===== src/MiningTimer/Loops.antt =====
-- How many loops the timer runs: one at most, unless it is stopped and started while a block is mined.
use polkahat.Prelude.{
  ℕ, ◌+◌, ◌≡◌, refl, sym, inl, inr, ◌∙◌, ap, List, [], ◌∷◌, true, false, some, if◌then◌else◌,
  Bool-cases, ==_self,
}
use polkahat.Prelude.Outcome.{ok, Result-cases}
use polkahat.MiningTimer.{
  IntervalMiningConfig, MiningTimer, stop, running, validate_block_time, is_zero, enabled,
  is_running, clear, without, start_timer, stop_timer, set_block_time, fire, finish_loop,
}

-- A stopped timer has set no timeout; a running one has set the one that it names.
pub data IsSingle (t : MiningTimer) : Type 0 where
  idle : t.state ≡ stop → t.scheduled ≡ [] → IsSingle t
  ticking : (id : ℕ) → t.state ≡ running → t.timeout ≡ some id → t.scheduled ≡ id ∷ [] → IsSingle t

-- The calls of the class, and a round of the loop that no call interrupts.
pub data Step : MiningTimer → MiningTimer → Type 0 where
  started : (t : MiningTimer) → Step t (start_timer t)
  stopped : (t : MiningTimer) → Step t (stop_timer t)
  retimed : (c : IntervalMiningConfig) (t : MiningTimer) → Step t (set_block_time c t).1
  rounded :
      (id : ℕ) (rest : List ℕ) (t : MiningTimer)
      → t.scheduled ≡ id ∷ rest
      → (fire id t).0 ≡ true
      → Step t (finish_loop (fire id t).1)

start_timer-IsSingle : (t : MiningTimer) → IsSingle t → IsSingle (start_timer t)
unfolding start_timer
start_timer-IsSingle t (ticking id s o l) = rw s (ticking id refl o l)
start_timer-IsSingle t (idle s l) = elim (Bool-cases (enabled t)) [
  | inr e ↦ rw (s, e) (idle refl l)
  | inl e ↦ rw (s, e) (ticking t.next_id refl refl (ap (◌∷◌ t.next_id) l))
]

without-single : (id : ℕ) → without id (id ∷ []) ≡ []
without-single id = rw (==_self id) refl

stop_timer-IsSingle : (t : MiningTimer) → IsSingle t → IsSingle (stop_timer t)
unfolding stop_timer
stop_timer-IsSingle t (idle s l) = rw s (idle refl l)
stop_timer-IsSingle t (ticking id s o l) = rw s (idle refl (rw (o, l, ==_self id) refl))

set_block_time-IsSingle :
    (c : IntervalMiningConfig) (t : MiningTimer) → IsSingle t → IsSingle (set_block_time c t).1
unfolding set_block_time
set_block_time-IsSingle c t h = elim (Result-cases (validate_block_time c)) [
  | inl (e, bad) ↦ rw (set_block_time, bad) h
  | inr (u, good) ↦ elim (Bool-cases (is_zero c)) [
    | inl z ↦ rw (set_block_time, good, z) (stop_timer-IsSingle t h)
    | inr z ↦ rw (set_block_time, good, z) (start_timer-IsSingle _ (restarted c t h))
  ]
]
  where
    retime : IntervalMiningConfig → MiningTimer → MiningTimer
    retime c t = record t { block_time = c }

    restarted :
        (c : IntervalMiningConfig) (t : MiningTimer)
        → IsSingle t
        → IsSingle (
            if is_running t.state
            then stop_timer (record t { block_time = c })
            else record t { block_time = c })
    restarted c t (idle s l) = rw s (idle refl l)
    restarted c t (ticking id s o l) = rw s (idle refl (rw (o, l, ==_self id) refl))

-- Every call, and every round of the loop that no call interrupts, leaves a timer that has at most
-- one timeout set, if it had at most one before: none when it is stopped, and the one that it would clear when it runs.
pub Step-IsSingle : {t u : MiningTimer} → Step t u → IsSingle t → IsSingle u
unfolding finish_loop fire
Step-IsSingle (started t) h = start_timer-IsSingle t h
Step-IsSingle (stopped t) h = stop_timer-IsSingle t h
Step-IsSingle (retimed c t) h = set_block_time-IsSingle c t h
Step-IsSingle (rounded id rest t l r) (idle s k) = absurd (let e = sym l ∙ k in cc)
Step-IsSingle (rounded id rest t l r) (ticking i s o k) =
    ticking t.next_id s refl (ap (◌∷◌ t.next_id) (ap (without id) k ∙ one (sym l ∙ k)))
  where
    head_of : List ℕ → ℕ
    head_of [] = 0
    head_of (x ∷ xs) = x

    one : id ∷ rest ≡ i ∷ [] → without id (i ∷ []) ≡ []
    one e = ap (λ j. without id (j ∷ [])) (sym (ap head_of e)) ∙ without-single id

set_block_time-valid :
    (c : IntervalMiningConfig) (t : MiningTimer)
    → validate_block_time c ≡ ok tt
    → is_zero c ≡ false
    → set_block_time c t ≡ (
      ok tt,
      start_timer (
          if is_running t.state
          then stop_timer (record t { block_time = c })
          else record t { block_time = c }),
    )
unfolding set_block_time
set_block_time-valid c t v z = rw (set_block_time, v, z) refl

restarted_twice :
    (c : IntervalMiningConfig) (t : MiningTimer)
    → t.state ≡ running
    → is_zero c ≡ false
    → clear t.timeout t.scheduled ≡ []
    → (finish_loop (
        start_timer (
          if is_running t.state
          then stop_timer (record t { block_time = c })
          else record t { block_time = c }))).scheduled
      ≡ (t.next_id + 1) ∷ t.next_id ∷ []
unfolding finish_loop start_timer stop_timer enabled
restarted_twice c t s z l = rw (s, z, l) refl

-- If a running timer with one timeout, the one it names, is set to a new valid block time, other than 0, while a round of its loop awaits the
-- mining function, the round's end adds a second timeout: two loops run, and the timer names only
-- one of the two timeouts.
pub set_block_time_doubles :
    (id : ℕ) (c : IntervalMiningConfig) (t : MiningTimer)
    → t.state ≡ running
    → t.timeout ≡ some id
    → t.scheduled ≡ id ∷ []
    → validate_block_time c ≡ ok tt
    → is_zero c ≡ false
    → (finish_loop (set_block_time c (fire id t).1).1).scheduled ≡ (t.next_id + 1) ∷ t.next_id ∷ []
unfolding fire
set_block_time_doubles id c t s o l v z =
    let u = (fire id t).1 in
    ap (λ x. (finish_loop x.1).scheduled) (set_block_time-valid c u v z)
    ∙ restarted_twice c u s z (rw (o, l, ==_self id) refl)
