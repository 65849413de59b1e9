-- ===== src/Timer/Tasks.antt =====
-- Which goroutines `Start` starts, and that `Stop` ends them all.
use qtun.Base.{
  ℕ, ◌+◌, ◌≡◌, ◌≢◌, ◌⊎◌, inl, inr, refl, sym, ap, ◌∙◌, ite, some, List, [], ◌∷◌, ◌++◌, map, All,
  All-append, arith, append-nil, append_assoc, ℕ_key, ℕ_discrete,
}
use mathlib.Core.Path.{subst}
use qtun.Base.Map.{Map, lookup, delete, insert, lookup-insert}
use qtun.Timer.{Running, Timer, new_timer, register_task, start_each, start, stop}

-- The intervals are all different.
abbrev pub DistinctKeys : Map ℕ ℕ → Type 0
DistinctKeys [] = Unit {0}
DistinctKeys (e ∷ m) = All (λ (x : ℕ × ℕ). x.0 ≢ e.0) m × DistinctKeys m

delete-All : (P : ℕ × ℕ → Type 0) (key : ℕ) (m : Map ℕ ℕ) → All P m → All P (delete key m)
unfolding delete
delete-All P key [] all = tt
delete-All P key ((j, v) ∷ m) (p, all) =
    elim (ℕ_discrete j key) as (λ d. All P (ite d (delete key m) ((j, v) ∷ delete key m))) [
      | yes e ↦ delete-All P key m all
      | no ne ↦ (p, delete-All P key m all)
    ]

delete-ne : (key : ℕ) (m : Map ℕ ℕ) → All (λ (x : ℕ × ℕ). x.0 ≢ key) (delete key m)
unfolding delete
delete-ne key [] = tt
delete-ne key ((j, v) ∷ m) =
    elim (ℕ_discrete j key)
      as (λ d. All (λ (x : ℕ × ℕ). x.0 ≢ key) (ite d (delete key m) ((j, v) ∷ delete key m))) [
        | yes e ↦ delete-ne key m
        | no ne ↦ (ne, delete-ne key m)
      ]

delete-DistinctKeys : (key : ℕ) (m : Map ℕ ℕ) → DistinctKeys m → DistinctKeys (delete key m)
unfolding delete
delete-DistinctKeys key [] distinct = tt
delete-DistinctKeys key ((j, v) ∷ m) (ne, distinct) =
    elim (ℕ_discrete j key) as (λ d. DistinctKeys (ite d (delete key m) ((j, v) ∷ delete key m))) [
      | yes e ↦ delete-DistinctKeys key m distinct
      | no _ ↦ (delete-All (λ x. x.0 ≢ j) key m ne, delete-DistinctKeys key m distinct)
    ]

-- A run of `RegisterTask` calls.
abbrev pub register_all : List (ℕ × ℕ) → Timer → Timer
register_all [] t = t
register_all ((task, interval) ∷ more) t = register_all more (register_task task interval t)

register_all-DistinctKeys :
    (calls : List (ℕ × ℕ)) (t : Timer)
    → DistinctKeys t.timers
    → DistinctKeys (register_all calls t).timers
unfolding register_task insert
register_all-DistinctKeys [] t distinct = distinct
register_all-DistinctKeys ((task, interval) ∷ more) t distinct =
    register_all-DistinctKeys more (register_task task interval t)
      (delete-ne interval t.timers, delete-DistinctKeys interval t.timers distinct)

-- Each goroutine's context is filed under its interval.
abbrev IsFiled : Timer → Running → Type 0
IsFiled t r = lookup r.interval t.cancel_funcs ≡ some r.context

abbrev Fresh : Map ℕ ℕ → List Running → Type 0
Fresh m rs = All (λ (e : ℕ × ℕ). All (λ (r : Running). r.interval ≢ e.0) rs) m

-- `Start` of one task.
abbrev started : ℕ → ℕ → Timer → Timer
started interval task t = record t {
  cancel_funcs = insert interval t.contexts t.cancel_funcs;
  contexts = t.contexts + 1;
  running = t.running ++ ((record { context = t.contexts; task = task; interval = interval }) ∷ []);
}

started-IsFiled :
    (interval task : ℕ) (t : Timer) (rs : List Running)
    → All (IsFiled t) rs
    → All (λ (r : Running). r.interval ≢ interval) rs
    → All (IsFiled (started interval task t)) rs
started-IsFiled interval task t [] filed new = tt
started-IsFiled interval task t (r ∷ rs) (f, filed) (ne, new) = (
  ground (arith, lookup-insert interval r.interval t.contexts t.cancel_funcs),
  started-IsFiled interval task t rs filed new,
)

started-Fresh :
    (m : Map ℕ ℕ) (r : Running) (rs : List Running)
    → All (λ (x : ℕ × ℕ). x.0 ≢ r.interval) m
    → Fresh m rs
    → Fresh m (rs ++ (r ∷ []))
started-Fresh [] r rs ne fresh = tt
started-Fresh (e ∷ m) r rs (n, ne) (f, fresh) = (
  All-append (λ (x : Running). x.interval ≢ e.0) rs (r ∷ []) f ((λ same. n (sym same)), tt),
  started-Fresh m r rs ne fresh,
)

-- What the goroutines run, by interval.
abbrev pub tasks_of : List Running → Map ℕ ℕ
tasks_of = map λ r. (r.interval, r.task)

tasks_of-append : (rs ss : List Running) → tasks_of (rs ++ ss) ≡ tasks_of rs ++ tasks_of ss
tasks_of-append [] ss = refl
tasks_of-append (r ∷ rs) ss = ap (◌∷◌ (r.interval, r.task)) (tasks_of-append rs ss)

start_each-IsFiled :
    (m : Map ℕ ℕ) (t : Timer)
    → DistinctKeys m
    → Fresh m t.running
    → All (IsFiled t) t.running
    → All (IsFiled (start_each m t)) (start_each m t).running
      × (tasks_of (start_each m t).running ≡ tasks_of t.running ++ m)
unfolding start_each
start_each-IsFiled [] t distinct fresh filed = (filed, sym (append-nil (tasks_of t.running)))
start_each-IsFiled ((interval, task) ∷ more) t (ne, distinct) (f, fresh) filed =
    let r : Running = record { context = t.contexts; task = task; interval = interval } in
    let here : IsFiled (started interval task t) r =
      ground (arith, lookup-insert interval interval t.contexts t.cancel_funcs) in
    let (filed', tasks) =
      start_each-IsFiled more (started interval task t) distinct
        (started-Fresh more r t.running ne fresh)
        (All-append (IsFiled (started interval task t)) t.running (r ∷ [])
          (started-IsFiled interval task t t.running filed f) (here, tt)) in
    (
      filed',
      tasks
          ∙ ap (λ (l : Map ℕ ℕ). l ++ more) (tasks_of-append t.running (r ∷ []))
          ∙ append_assoc (tasks_of t.running) ((interval, task) ∷ []) more,
    )

abbrev pub Has : List ℕ → ℕ → Type 0
Has [] c = ⊥
Has (x ∷ xs) c = (x ≡ c) ⊎ Has xs c

lookup-Has : (key c : ℕ) (m : Map ℕ ℕ) → lookup key m ≡ some c → Has (map (λ e. e.1) m) c
unfolding lookup
lookup-Has key c [] e = absurd (cc)
lookup-Has key c ((j, v) ∷ m) e = elim (ℕ_discrete j key) [
  | yes same ↦ inl (ground arith)
  | no ne ↦ inr (lookup-Has key c m (ground arith))
]

IsFiled-Has :
    (t : Timer) (rs : List Running)
    → All (IsFiled t) rs
    → All (λ (r : Running). Has (map (λ e. e.1) t.cancel_funcs) r.context) rs
IsFiled-Has t [] filed = tt
IsFiled-Has t (r ∷ rs) (f, filed) =
    (lookup-Has r.interval r.context t.cancel_funcs f, IsFiled-Has t rs filed)

start_each-cancelled : (m : Map ℕ ℕ) (t : Timer) → (start_each m t).cancelled ≡ t.cancelled
unfolding start_each
start_each-cancelled [] t = refl
start_each-cancelled ((interval, task) ∷ more) t =
    start_each-cancelled more (started interval task t)

register_all-quiet :
    (calls : List (ℕ × ℕ)) (t : Timer)
    → ((register_all calls t).running ≡ t.running)
      × ((register_all calls t).cancelled ≡ t.cancelled)
unfolding register_task
register_all-quiet [] t = (refl, refl)
register_all-quiet ((task, interval) ∷ more) t =
    register_all-quiet more (register_task task interval t)

Fresh-nil : (m : Map ℕ ℕ) → Fresh m []
Fresh-nil [] = tt
Fresh-nil (e ∷ m) = (tt, Fresh-nil m)

start_from :
    (t : Timer)
    → DistinctKeys t.timers
    → t.running ≡ []
    → t.cancelled ≡ []
    → (tasks_of (start t).running ≡ t.timers)
      × All (λ (r : Running). Has (stop (start t)).cancelled r.context) (start t).running
unfolding start stop
start_from t distinct idle unused =
    let (filed, tasks) =
      start_each-IsFiled t.timers t distinct
        (subst (Fresh t.timers) (sym idle) (Fresh-nil t.timers))
        (subst (All (IsFiled t)) (sym idle) tt) in
    let s : Timer = start_each t.timers t in
    (
      tasks ∙ ap (λ (rs : List Running). tasks_of rs ++ t.timers) idle,
      subst
          (λ l. All (λ (r : Running). Has (l ++ map (λ e. e.1) s.cancel_funcs) r.context) s.running)
          (sym (start_each-cancelled t.timers t ∙ unused)) (IsFiled-Has s s.running filed),
    )

-- Whatever tasks are registered with a new timer: their intervals are all different, since a second
-- task for an interval replaces the first; `Start` starts one goroutine for each of them, and no
-- other; and `Stop` after that cancels the context of every goroutine.
pub start-stop :
    (calls : List (ℕ × ℕ))
    → DistinctKeys (register_all calls new_timer).timers
      × (tasks_of (start (register_all calls new_timer)).running
          ≡ (register_all calls new_timer).timers)
      × All
          (λ (r : Running). Has (stop (start (register_all calls new_timer))).cancelled r.context)
          (start (register_all calls new_timer)).running
unfolding new_timer
start-stop calls =
    let t = register_all calls new_timer in
    let distinct = register_all-DistinctKeys calls new_timer tt in
    let (idle, unused) = register_all-quiet calls new_timer in
    let (tasks, ended) = start_from t distinct idle unused in (distinct, tasks, ended)
