-- ===== src/Transport/ClientConn/Life/Payloads.antt =====
-- Where the payloads that are handed to `Write` go.
use qtun.Base.{
  ◌≢◌, sym, ◌∙◌, append-nil, append_assoc, ℕ, ◌+◌, ◌≡◌, refl, ap, ite, List, [], ◌∷◌, ◌++◌, arith,
  Bytes, bytes_discrete,
}
use qtun.Transport.ClientConn.Life.{
  returned, Writer, starting, selecting, writing, filling, Life, RunStep, keys, no_key, polls_close,
  polls_nothing, stays_connected, dial_fails, open_fails, connects, read_fails, read_panics,
  WriteStep, sets_connected, takes, takes_close, resets, appends, writes, fill_fails, write_fails,
  Move, runs, written, offers, asks_close, Reach, here, next,
}

-- How often a payload occurs.
abbrev pub count : Bytes → List Bytes → ℕ
count b [] = 0
count b (x ∷ xs) = ite (bytes_discrete x b) 1 0 + count b xs

abbrev in_hand : Writer → List Bytes
in_hand (writing b) = b ∷ []
in_hand (filling b parts) = b ∷ []
in_hand _ = []

abbrev pub in_hands : List Writer → List Bytes
in_hands [] = []
in_hands (w ∷ ws) = in_hand w ++ in_hands ws

-- Every payload is done with, in hand, waiting, or lost: as often in all as it was offered.
abbrev pub IsCounted : Bytes → Life → Type 0
IsCounted b s =
    count b s.sent + count b (in_hands s.writers) + count b s.waiting + count b s.lost
    ≡ count b s.offered

-- `run` has returned, no `writeProcess` is left, the callers that waited then wait still, and
-- nothing was written since.
record IsStuck (held was_sent : List Bytes) (s : Life) : Type 0 where
  runner_gone : s.runner ≡ returned
  no_writer : s.writers ≡ []
  silent : s.sent ≡ was_sent
  newer : List Bytes
  still : s.waiting ≡ held ++ newer

no_writer_step :
    (s : Life) (w : Writer) (before after : List Writer)
    → s.writers ≡ []
    → s.writers ≢ before ++ (w ∷ after)
no_writer_step s w [] after none_left = λ e. cc
no_writer_step s w (x ∷ before) after none_left = λ e. cc

RunStep-IsStuck :
    (held was_sent : List Bytes) {s t : Life} → RunStep s t → IsStuck held was_sent s → ⊥
RunStep-IsStuck held was_sent (keys at) v = ground (arith, v.runner_gone)
RunStep-IsStuck held was_sent (no_key at) v = ground (arith, v.runner_gone)
RunStep-IsStuck held was_sent (polls_close at asked) v = ground (arith, v.runner_gone)
RunStep-IsStuck held was_sent (polls_nothing at none_asked) v = ground (arith, v.runner_gone)
RunStep-IsStuck held was_sent (stays_connected at on) v = ground (arith, v.runner_gone)
RunStep-IsStuck held was_sent (dial_fails at off) v = ground (arith, v.runner_gone)
RunStep-IsStuck held was_sent (open_fails at off) v = ground (arith, v.runner_gone)
RunStep-IsStuck held was_sent (connects at off) v = ground (arith, v.runner_gone)
RunStep-IsStuck held was_sent (read_fails at there) v = ground (arith, v.runner_gone)
RunStep-IsStuck held was_sent (read_panics at) v = ground (arith, v.runner_gone)

WriteStep-IsStuck :
    (held was_sent : List Bytes) {s t : Life} → WriteStep s t → IsStuck held was_sent s → ⊥
WriteStep-IsStuck held was_sent {s} (sets_connected before after at) v =
    no_writer_step s starting before after v.no_writer at
WriteStep-IsStuck held was_sent {s} (takes before after at got) v =
    no_writer_step s selecting before after v.no_writer at
WriteStep-IsStuck held was_sent {s} (takes_close before after at asked) v =
    no_writer_step s selecting before after v.no_writer at
WriteStep-IsStuck held was_sent {s} (resets before after c parts at frame) v =
    no_writer_step s (writing c) before after v.no_writer at
WriteStep-IsStuck held was_sent {s} (appends before after c part parts at) v =
    no_writer_step s (filling c (part ∷ parts)) before after v.no_writer at
WriteStep-IsStuck held was_sent {s} (fill_fails before after c parts at) v =
    no_writer_step s (filling c parts) before after v.no_writer at
WriteStep-IsStuck held was_sent {s} (writes before after c at on) v =
    no_writer_step s (filling c []) before after v.no_writer at
WriteStep-IsStuck held was_sent {s} (write_fails before after c at gone) v =
    no_writer_step s (writing c) before after v.no_writer at

Move-IsStuck :
    (held was_sent : List Bytes) {s t : Life}
    → Move s t
    → IsStuck held was_sent s
    → IsStuck held was_sent t
Move-IsStuck held was_sent (runs r) v = absurd (RunStep-IsStuck held was_sent r v)
Move-IsStuck held was_sent (written w) v = absurd (WriteStep-IsStuck held was_sent w v)
Move-IsStuck held was_sent (offers c) v = record {
  runner_gone = v.runner_gone;
  no_writer = v.no_writer;
  silent = v.silent;
  newer = v.newer ++ (c ∷ []);
  still = ap (λ (l : List Bytes). l ++ (c ∷ [])) v.still ∙ append_assoc held v.newer (c ∷ []);
}
Move-IsStuck held was_sent asks_close v = record {
  runner_gone = v.runner_gone;
  no_writer = v.no_writer;
  silent = v.silent;
  newer = v.newer;
  still = v.still;
}

Reach-IsStuck :
    (held was_sent : List Bytes) {s t : Life}
    → IsStuck held was_sent s
    → Reach s t
    → IsStuck held was_sent t
Reach-IsStuck held was_sent v here = v
Reach-IsStuck held was_sent v (next r up m) =
    Move-IsStuck held was_sent m (Reach-IsStuck held was_sent v r)

-- After a panic in `readProcess` `run` has returned for good. When no `writeProcess` is left either,
-- nothing that can happen serves the callers of `Write`: whoever waits then waits for ever, before
-- all who come later, and nothing more is written.
pub callers_wait_forever :
    (s t : Life)
    → s.runner ≡ returned
    → s.writers ≡ []
    → Reach s t
    → (t.runner ≡ returned)
      × (t.sent ≡ s.sent)
      × (newer : List Bytes) × (t.waiting ≡ s.waiting ++ newer)
callers_wait_forever s t over none_left r =
    let v =
      Reach-IsStuck s.waiting s.sent {s = s} {t = t}
        (record {
          runner_gone = over;
          no_writer = none_left;
          silent = refl;
          newer = [];
          still = sym (append-nil s.waiting);
        })
        r in
    (v.runner_gone, v.silent, v.newer, v.still)
