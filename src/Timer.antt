-- ===== src/Timer.antt =====
-- utils/timer/timer.go: tasks that are run again and again, one for each interval.
pub mod Tasks
pub mod Tests
use qtun.Base.{ℕ, suc, ◌+◌, Bool, true, false, List, [], ◌∷◌, ◌++◌, map, ℕ_key}
use qtun.Base.Map.{Map, insert}

-- A goroutine of `RunTask`: the context that ends it, its task, and its interval.
pub record Running : Type 0 where
  pub context : ℕ
  pub task : ℕ
  pub interval : ℕ

-- Tasks and contexts are numbers here, contexts in the order of their making.
pub record Timer : Type 0 where
  pub timers : Map ℕ ℕ
  pub cancel_funcs : Map ℕ ℕ
  pub contexts : ℕ
  -- The goroutines that were started, and the contexts that were cancelled.
  pub running : List Running
  pub cancelled : List ℕ

-- `NewTimer`
unfoldable pub new_timer : Timer
new_timer = record { timers = []; cancel_funcs = []; contexts = 0; running = []; cancelled = [] }

-- `RegisterTask`
unfoldable pub register_task : ℕ → ℕ → Timer → Timer
register_task task interval t = record t { timers = insert interval task t.timers }

-- The loop of `Start`.
unfoldable pub start_each : Map ℕ ℕ → Timer → Timer
start_each [] t = t
start_each ((interval, task) ∷ more) t = start_each more (record t {
  cancel_funcs = insert interval t.contexts t.cancel_funcs;
  contexts = t.contexts + 1;
  running = t.running ++ ((record { context = t.contexts; task = task; interval = interval }) ∷ []);
})

-- `Start`
unfoldable pub start : Timer → Timer
start t = start_each t.timers t

-- `Stop`
unfoldable pub stop : Timer → Timer
stop t = record t { cancelled = t.cancelled ++ map (λ e. e.1) t.cancel_funcs }

-- What a goroutine of `RunTask` finds at its `select`.
pub data Event : Type 0 where
  ticks done : Event

-- `RunTask` over such events: how often the task is called, and whether it has returned.
unfoldable pub run_loop : List Event → ℕ × Bool
run_loop [] = (0, false)
run_loop (done ∷ more) = (0, true)
run_loop (ticks ∷ more) = let (calls, over) = run_loop more in (suc calls, over)

unfoldable pub run_task : List Event → ℕ × Bool
unfolding run_loop
run_task events = let (calls, over) = run_loop events in (suc calls, over)
