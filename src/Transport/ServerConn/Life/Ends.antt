-- ===== src/Transport/ServerConn/Life/Ends.antt =====
-- A connection comes to its end.
use qtun.Base.{
  Fails-cases, ℕ, suc, ◌+◌, ◌≤◌, ◌<◌, ◌≡◌, refl, ◌⊎◌, inl, inr, Bool, true, false, arith, length,
  Bytes, ok, err, List-cases,
}
use qtun.Stream.{Stream, eof}
use qtun.Transport.Crypto.{Crypto, crypto}
use qtun.Transport.ServerConn.{send_close, close_write, read_conn}
use qtun.Transport.ServerConn.Life.{
  Reader, keying, serving, leaving, cleaned, closed, marked, signalled, gone, crashed, Writer,
  selecting, writing, writing_nil, ending, closed_stream, finished, Life, start, write_open,
  ReaderStep, WriterStep, Own, Reach, keys, no_key, handles, read_fails, cleans_up, closes_stream,
  marks, signals, closes_chan, takes, takes_nil, write_fails, nil_fails, ends, finishes, reads,
  written, own,
}
use qtun.Transport.ServerConn.Life.Stages.{IsStaged, Step-IsStaged, start-IsStaged, Reach-IsStaged}
use qtun.Transport.ServerConn.Life.Remaining.{remaining, ReaderStep-remaining, WriterStep-remaining}

-- No phase is left, and no sender waits: what is in the channel fits its two places.
abbrev pub IsOver : Life → Type 0
IsOver s = (s.reader ≡ gone) × (s.writer ≡ finished) × (length s.chan_write ≤ 2)

marked_open :
    (s : Life) → IsStaged s → s.reader ≡ marked → send_close s.conn ≡ (ok tt, (send_close s.conn).1)
unfolding send_close
marked_open s v e = ground (arith, v)

signalled_open :
    (s : Life)
    → IsStaged s
    → s.reader ≡ signalled
    → close_write s.conn ≡ (ok tt, (close_write s.conn).1)
unfolding close_write
signalled_open s v e = ground (arith, v)

-- `readProcess` can go on, wherever it stands.
reader_progress :
    (lib : Crypto) (s : Life) → IsStaged s → (s.reader ≡ gone) ⊎ ((t : Life) × ReaderStep lib s t)
reader_progress lib s v = from s.reader refl
  where
    from : (r : Reader) → s.reader ≡ r → (s.reader ≡ gone) ⊎ ((t : Life) × ReaderStep lib s t)
    from keying e = elim (Fails-cases (crypto lib s.key s.aesgcm)) [
      | inl (k, made) ↦ inr (_, keys e made)
      | inr failed ↦ inr (_, no_key e failed)
    ]
    from serving e = elim (Fails-cases (read_conn s.conn).0) [
      | inl (payload, got) ↦ inr (_, handles false e (λ i. (got i, (read_conn s.conn).1)))
      | inr failed ↦ inr (_, read_fails e failed)
    ]
    from leaving e = inr (_, cleans_up e)
    from cleaned e = inr (_, closes_stream e)
    from closed e = inr (_, marks e)
    from marked e = inr (_, signals e (marked_open s v e))
    from signalled e = inr (_, closes_chan e (signalled_open s v e))
    from gone e = inl e
    from crashed e = absurd (ground (arith, v))

-- So can `writeProcess`, once `readProcess` is through.
writer_progress :
    (s : Life)
    → IsStaged s
    → s.reader ≡ gone
    → (s.writer ≡ finished) ⊎ ((t : Life) × WriterStep s t)
unfolding write_open
writer_progress s v over = from s.writer refl
  where
    closed_now : s.stream_closed ≡ true
    closed_now = ground (arith, v)

    shut : s.write_closed ≡ true
    shut = ground (arith, v)

    from : (w : Writer) → s.writer ≡ w → (s.writer ≡ finished) ⊎ ((t : Life) × WriterStep s t)
    from selecting e = elim (List-cases s.chan_write) [
      | inl empty ↦ inr (_, takes_nil e empty shut)
      | inr (b, bs, got) ↦ inr (_, takes e got)
    ]
    from (writing b) e = inr (_, write_fails (λ n. err eof) e (rw closed_now tt))
    from writing_nil e = inr (_, nil_fails (λ n. err eof) e (rw closed_now tt))
    from ending e = inr (_, ends e)
    from closed_stream e = inr (_, finishes e)
    from finished e = inl e

progress : (lib : Crypto) (s : Life) → IsStaged s → IsOver s ⊎ ((t : Life) × Own lib s t)
progress lib s v = elim (reader_progress lib s v) [
  | inr (t, r) ↦ inr (t, reads r)
  | inl over ↦ elim (writer_progress s v over) [
    | inr (t, w) ↦ inr (t, written w)
    | inl done ↦ inl (over, done, ground (arith, v))
  ]
]

-- So many steps of the connection's own goroutines, one after the other.
pub data OwnRun (lib : Crypto) (s : Life) : ℕ → Life → Type 0 where
  stay : OwnRun lib s 0 s
  more : {n : ℕ} {t u : Life} → OwnRun lib s n t → Own lib t u → OwnRun lib s (suc n) u

OwnRun-IsStaged : {lib : Crypto} {s t : Life} {n : ℕ} → IsStaged s → OwnRun lib s n t → IsStaged t
OwnRun-IsStaged v stay = v
OwnRun-IsStaged v (more r st) = Step-IsStaged (own st) (OwnRun-IsStaged v r)

Own-remaining : {lib : Crypto} {s t : Life} → Own lib s t → IsStaged s → remaining t < remaining s
Own-remaining (reads r) v = ReaderStep-remaining r v
Own-remaining (written w) v = WriterStep-remaining w v

OwnRun-remaining :
    {lib : Crypto} {s t : Life} {n : ℕ}
    → IsStaged s
    → OwnRun lib s n t
    → n + remaining t ≤ remaining s
OwnRun-remaining v stay = omega arith
OwnRun-remaining v (more r st) =
    omega (arith, OwnRun-remaining v r, Own-remaining st (OwnRun-IsStaged v r))

-- A connection winds down, whatever its goroutines do and in whatever order. From every state that
-- can be reached, whichever of the two goroutines moves, at most `remaining` steps are left while
-- nothing more is offered; and a state in which neither can move is one in which both have returned
-- and no sender waits. The input that is still to come is finite.
pub winds_down :
    {lib : Crypto} (stream : Stream) (key : Bytes) (no_delay : Bool) {s t : Life} {n : ℕ}
    → Reach lib (start stream key no_delay) s
    → OwnRun lib s n t
    → (n + remaining t ≤ remaining s) × (IsOver t ⊎ ((u : Life) × Own lib t u))
winds_down {lib} stream key no_delay {s} {t} r run =
    let v : IsStaged s = Reach-IsStaged (start-IsStaged stream key no_delay) r in
    (OwnRun-remaining v run, progress lib t (OwnRun-IsStaged v run))
