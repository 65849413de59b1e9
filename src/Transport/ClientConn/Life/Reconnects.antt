-- ===== src/Transport/ClientConn/Life/Reconnects.antt =====
-- What a lost connection leaves behind when `run` connects again.
use qtun.Base.{
  ℕ, zero, suc, ◌≡◌, refl, ap, Bool, true, false, none, some, List, [], ◌∷◌, ◌++◌, arith, replicate,
  Bytes,
}
use mathlib.Core.Path.{subst}
use qtun.Transport.ClientConn.Life.{
  polling, connecting, reading, Writer, selecting, writing, Life, start, end_write, end_read, keys,
  polls_nothing, stays_connected, open_fails, connects, read_fails, sets_connected, takes,
  takes_close, write_fails, Move, runs, written, offers, Reach, here, next,
}

-- The read fails, and `run` polls and is about to dial.
abbrev redialing : Life → Life
redialing s = record s { runner = connecting; connected = false; conn = some false }

Reach-redialing :
    {a s : Life}
    → Reach a s
    → s.runner ≡ reading
    → s.crashed ≡ false
    → (is_open : Bool) → s.conn ≡ some is_open
    → s.closers ≡ 0
    → Reach a (redialing s)
unfolding end_read
Reach-redialing {s} r at up is_open there not_asked =
    next (next r up (subst (Move s) failed (runs (read_fails at there)))) up
      (runs (polls_nothing refl not_asked))
  where
    failed :
        end_read polling s ≡ record s { runner = polling; connected = false; conn = some false }
    failed = ground arith

-- The dial succeeds, and the new `writeProcess` gets to its `select`.
abbrev reconnected : Life → Life
reconnected s = record s {
  runner = reading;
  connected = true;
  conn = some true;
  writers = s.writers ++ (selecting ∷ []);
}

Reach-reconnected :
    {a s : Life}
    → Reach a s
    → s.runner ≡ reading
    → s.crashed ≡ false
    → (is_open : Bool) → s.conn ≡ some is_open
    → s.closers ≡ 0
    → Reach a (reconnected s)
Reach-reconnected {s} r at up is_open there not_asked =
    next (next (Reach-redialing r at up is_open there not_asked) up (runs (connects refl refl))) up
      (written (sets_connected s.writers [] refl))

replicate-snoc : (n : ℕ) (w : Writer) → replicate n w ++ (w ∷ []) ≡ w ∷ replicate n w
replicate-snoc zero w = refl
replicate-snoc (suc n) w = ap (◌∷◌ w) (replicate-snoc n w)

-- Connected, with that many idle `writeProcess`es.
abbrev pub with_writers : ℕ → Life
with_writers n = record start { runner = reading; writers = replicate n selecting }

-- A `writeProcess` that waits in its `select` does not notice that the connection is lost, and `run`
-- starts another one for the new connection: for every number there is a run, in which nothing is
-- written, that ends with so many of them over the one connection that is up.
pub writers_pile_up : (n : ℕ) → Reach start (with_writers (suc n))
writers_pile_up zero =
    next
      (next (next (next here refl (runs (keys refl))) refl (runs (polls_nothing refl refl))) refl
        (runs (stays_connected refl refl)))
      refl (written (sets_connected [] [] refl))
writers_pile_up (suc n) =
    subst (λ ws. Reach start (record start { runner = reading; writers = ws }))
      (replicate-snoc (suc n) selecting)
      (Reach-reconnected (writers_pile_up n) refl refl true refl refl)

-- `Close` gives its signal to whichever receiver there is. While `run` is in `readProcess`, that is a
-- `writeProcess`: it takes the signal and closes the stream, and a run follows in which `run` sees
-- a failed read and nothing on `chanClose`, and connects again. The signal is gone, and the
-- connection is up.
pub close_lost :
    (s : Life) (is_open : Bool) (before after : List Writer)
    → s.runner ≡ reading
    → s.crashed ≡ false
    → s.conn ≡ some is_open
    → s.writers ≡ before ++ (selecting ∷ after)
    → s.closers ≡ 1
    → (t : Life) × Reach s t
      × (t.runner ≡ reading)
      × (t.conn ≡ some true)
      × (t.connected ≡ true)
      × (t.closers ≡ 0)
unfolding end_write
close_lost s is_open before after at up there idle asked =
    let u : Life = end_write (before ++ after) [] (record s { closers = 0 }) in
    (
      reconnected u,
      Reach-reconnected (next here up (written (takes_close before after idle asked)))
          (ground arith) (ground arith) false (ground arith) (ground arith),
      refl,
      refl,
      refl,
      ground arith,
    )

-- While `run` connects again, `conn` is nil if the stream could not be opened. A `writeProcess` of
-- the lost connection that is handed a payload at that time fails to write it, and then closes the
-- nil stream in its deferred function: a run that ends the whole program.
pub late_write_crashes :
    (s : Life) (is_open : Bool) (before after : List Writer) (b : Bytes)
    → s.runner ≡ reading
    → s.crashed ≡ false
    → s.conn ≡ some is_open
    → s.writers ≡ before ++ (selecting ∷ after)
    → s.closers ≡ 0
    → s.waiting ≡ []
    → (t : Life) × Reach s t × (t.crashed ≡ true)
unfolding end_write
late_write_crashes s is_open before after b at up there idle not_asked none_waits =
    let u : Life = record (redialing s) { runner = polling; conn = none } in
    let v : Life = record u { waiting = s.waiting ++ (b ∷ []); offered = s.offered ++ (b ∷ []) } in
    let w : Life = record v { writers = before ++ (writing b ∷ after); waiting = [] } in
    (
      end_write (before ++ after) (b ∷ []) w,
      next
          (next
            (next
              (next (Reach-redialing here at up is_open there not_asked) up
                (runs (open_fails refl refl)))
              up (offers b))
            up
            (written (takes before after idle (ap (λ (l : List Bytes). l ++ (b ∷ [])) none_waits))))
          up (written (write_fails before after b refl refl)),
      refl,
    )
