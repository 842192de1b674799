-- ===== src/Tests/Timer.antt =====
-- Tests and witnesses for the mining timer.
use polkahat.Prelude.{◌≡◌, refl, [], ◌∷◌, true, some}
use polkahat.Prelude.Int.{pos}
use polkahat.Prelude.Outcome.{ok, throw}
use polkahat.MiningTimer.{
  MiningTimer, running, fixed, range, invalid_block_time_range, validate_block_time, new_timer,
  enabled, start_timer, stop_timer, set_block_time, fire, finish_loop,
}
use polkahat.MiningTimer.Loops.{IsSingle, ticking, rounded, Step-IsSingle, set_block_time_doubles}

program : Unit {0}
unfolding validate_block_time new_timer enabled start_timer stop_timer set_block_time fire
    finish_loop
program = tt

abbrev timer : MiningTimer
timer = record {
  state = running;
  block_time = fixed (pos 1000);
  timeout = some 3;
  scheduled = 3 ∷ [];
  next_id = 4;
}

refuses_range :
    set_block_time (range (pos 5) (pos 4)) timer ≡ (throw invalid_block_time_range, timer)
unfolding program
refuses_range = refl

fires : (fire 3 timer).0 ≡ true
unfolding program
fires = refl

valid : validate_block_time (fixed (pos 500)) ≡ ok tt
unfolding program
valid = refl

Step-IsSingle_example : IsSingle (finish_loop (fire 3 timer).1)
Step-IsSingle_example = Step-IsSingle (rounded 3 [] timer refl fires) (ticking 3 refl refl refl)

set_block_time_doubles_example :
    (finish_loop (set_block_time (fixed (pos 500)) (fire 3 timer).1).1).scheduled ≡ 5 ∷ 4 ∷ []
set_block_time_doubles_example =
    set_block_time_doubles 3 (fixed (pos 500)) timer refl refl refl valid refl
