-- ===== src/MiningTimer.antt =====
-- provider/MiningTimer.ts: the timer of interval mining. `setTimeout` and `clearTimeout` are the list
-- of timeouts that are set and not yet fired; the field `_timeout` names one of them. `Math.random`
-- is an argument of each call that waits: the part of the range that it picks, rounded down. The
-- mining function runs without writing the timer, and `await` splits the loop in two steps.
pub mod Loops
use polkahat.Prelude.{
  ℕ, suc, ◌+◌, ◌-◌, List, [], ◌∷◌, Bool, true, false, not, Option, none, some, ltb, ◌==◌, ◌||◌,
  if◌then◌else◌,
}
use polkahat.Prelude.Int.{ℤ, sub_ℕ, pos, negsuc, pos_part, ltb_ℤ}
use polkahat.Prelude.Outcome.{Result, ok, throw}

pub data IntervalMiningConfig : Type 0 where
  fixed : ℤ → IntervalMiningConfig
  range : ℤ → ℤ → IntervalMiningConfig

pub data MiningTimerState : Type 0 where
  stop running : MiningTimerState

pub data Error : Type 0 where
  invalid_block_time_range negative_block_time : Error

pub record MiningTimer : Type 0 where
  pub state : MiningTimerState
  pub block_time : IntervalMiningConfig
  pub timeout : Option ℕ
  pub scheduled : List ℕ
  pub next_id : ℕ

unfoldable pub validate_block_time : IntervalMiningConfig → Result Error (Unit {0})
validate_block_time (range range_start range_end) =
    if ltb_ℤ range_end range_start then throw invalid_block_time_range else ok tt
validate_block_time (fixed block_time) =
    if ltb_ℤ block_time (pos 0) then throw negative_block_time else ok tt

unfoldable pub new_timer : IntervalMiningConfig → Result Error MiningTimer
unfolding validate_block_time
new_timer block_time = elim (validate_block_time block_time) [
  | throw e ↦ throw e
  | ok u ↦ ok (record {
    state = stop;
    block_time = block_time;
    timeout = none;
    scheduled = [];
    next_id = 0;
  })
]

abbrev pub is_zero : IntervalMiningConfig → Bool
is_zero (fixed (pos n)) = n == 0
is_zero (fixed (negsuc n)) = false
is_zero (range a b) = false

unfoldable pub enabled : MiningTimer → Bool
enabled t = not (is_zero t.block_time)

abbrev pub is_running : MiningTimerState → Bool
is_running stop = false
is_running running = true

-- `this._timeout = setTimeout(…)`
abbrev pub schedule : MiningTimer → MiningTimer
schedule t = record t {
  timeout = some t.next_id;
  scheduled = t.next_id ∷ t.scheduled;
  next_id = t.next_id + 1;
}

abbrev pub without : ℕ → List ℕ → List ℕ
without id [] = []
without id (i ∷ ids) = if i == id then without id ids else i ∷ without id ids

-- `clearTimeout`, which passes over a timeout that has fired.
abbrev pub clear : Option ℕ → List ℕ → List ℕ
clear none ids = ids
clear (some id) ids = without id ids

unfoldable pub start_timer : MiningTimer → MiningTimer
unfolding enabled
start_timer t =
    if is_running t.state || not (enabled t) then t else schedule (record t { state = running })

unfoldable pub stop_timer : MiningTimer → MiningTimer
stop_timer t =
    if not (is_running t.state)
    then t
    else record t { state = stop; scheduled = clear t.timeout t.scheduled }

unfoldable pub set_block_time :
    IntervalMiningConfig → MiningTimer → Result Error (Unit {0}) × MiningTimer
unfolding validate_block_time start_timer stop_timer
set_block_time block_time t = elim (validate_block_time block_time) [
  | throw e ↦ (throw e, t)
  | ok u ↦
      if is_zero block_time
      then (ok tt, stop_timer t)
      else (let t = record t { block_time = block_time } in
          (ok tt, start_timer (if is_running t.state then stop_timer t else t)))
]

-- A timeout fires: it is no longer scheduled, and `_loop` runs up to its `await`. The answer says
-- whether it awaits the mining function.
unfoldable pub fire : ℕ → MiningTimer → Bool × MiningTimer
fire id t = (is_running t.state, record t { scheduled = without id t.scheduled })

-- The rest of `_loop`, after the mining function.
unfoldable pub finish_loop : MiningTimer → MiningTimer
finish_loop t = schedule t

abbrev pub add_ℕ : ℕ → ℤ → ℤ
add_ℕ n (pos m) = pos (m + n)
add_ℕ n (negsuc m) = sub_ℕ n (m + 1)

-- `part` is `Math.floor(Math.random() * (max - min))`.
unfoldable pub get_next_block_time : ℕ → IntervalMiningConfig → ℤ
get_next_block_time part (range min_block_time max_block_time) = add_ℕ part min_block_time
get_next_block_time part (fixed block_time) = block_time
