-- ===== src/Timer/Tests.antt =====
-- Runs of the timer on small inputs, and its theorems at such inputs.
use qtun.Base.{ℕ_discrete, ◌≡◌, refl, [], ◌∷◌, true}
use qtun.Base.Map.{insert, delete}
use qtun.Timer.{new_timer, register_task, ticks, done, run_loop, run_task}
use qtun.Timer.Tasks.{register_all}

last_wins :
    (register_all ((7, 60) ∷ (8, 60) ∷ (9, 5) ∷ []) new_timer).timers ≡ (5, 9) ∷ (60, 8) ∷ []
unfolding register_task new_timer insert delete ℕ_discrete
last_wins = refl

two_ticks : run_task (ticks ∷ ticks ∷ done ∷ []) ≡ (3, true)
unfolding run_task run_loop
two_ticks = refl
