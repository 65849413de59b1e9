-- ===== src/Transport/ClientConn/Life.antt =====
-- transport/client_conn.go: `run` with its `readProcess`, the `writeProcess`es that it starts, and the
-- callers of `Write` and `Close`, which run at the same time over one `ClientConn`. All `writeProcess`es
-- put their frames into its one `buf`, without a lock. Each call of the buffer is one step here.
pub mod Payloads
pub mod Reconnects
pub mod Races
use qtun.Transport.Frame.{put_uint16}
use qtun.Base.{
  ℕ, suc, ◌⊎◌, length, ◌%◌, ◌^◌, ◌+◌, ◌≡◌, Bool, true, false, Option, none, some, List, [], ◌∷◌,
  ◌++◌, Bytes,
}

-- Where `run` stands.
pub data Runner : Type 0 where
  keying : Runner
  -- Before the `select` on `chanClose`, in `tryConnect`, and in `readProcess`.
  polling connecting reading : Runner
  returned : Runner

-- Where a `writeProcess` stands.
pub data Writer : Type 0 where
  starting selecting : Writer
  -- In `write` with that payload: at `Reset`, and with those parts of the frame still to append.
  writing : Bytes → Writer
  filling : Bytes → List Bytes → Writer

pub record Life : Type 0 where
  pub runner : Runner
  -- The `writeProcess`es that have not returned.
  pub writers : List Writer
  -- `conn`: nil, or a stream, and whether that is still open.
  pub conn : Option Bool
  pub connected : Bool
  -- The callers of `Write` that wait for a receiver on `chanWrite`, with their payloads.
  pub waiting : List Bytes
  -- How many callers of `Close` wait for a receiver on `chanClose`.
  pub closers : ℕ
  -- A panic that nothing recovered has ended the program.
  pub crashed : Bool
  -- `buf`, and what went from it over the streams, one after the other.
  pub buf : Bytes
  pub stream : Bytes
  -- The history: what was handed to `Write`, the payloads of the `write`s that came back without an
  -- error, and of those that came back with one.
  pub offered : List Bytes
  pub sent : List Bytes
  pub lost : List Bytes

-- After `NewClientConn`, an `InitConn` that has connected, and `go run()`.
abbrev pub start : Life
start = record {
  runner = keying;
  writers = [];
  conn = some true;
  connected = true;
  waiting = [];
  closers = 0;
  crashed = false;
  buf = [];
  stream = [];
  offered = [];
  sent = [];
  lost = [];
}

-- The deferred function of `writeProcess`. On the nil stream `Close` panics, and there is no
-- `recover` after that.
unfoldable pub end_write : List Writer → List Bytes → Life → Life
end_write others in_hand s = elim s.conn [
  | none ↦ record s {
    writers = others;
    connected = false;
    lost = s.lost ++ in_hand;
    crashed = true;
  }
  | some _ ↦ record s {
    writers = others;
    connected = false;
    lost = s.lost ++ in_hand;
    conn = some false;
  }
]

-- The deferred function of `readProcess`, which looks at the stream first.
unfoldable pub end_read : Runner → Life → Life
end_read next s = elim s.conn [
  | none ↦ record s { runner = next; connected = false }
  | some _ ↦ record s { runner = next; connected = false; conn = some false }
]

-- A step of `run`.
pub data RunStep (s : Life) : Life → Type 0 where
  keys : s.runner ≡ keying → RunStep s (record s { runner = polling })
  no_key : s.runner ≡ keying → RunStep s (record s { runner = returned })
  -- The `select` with a default takes a signal if a caller of `Close` waits.
  polls_close :
      {n : ℕ}
      → s.runner ≡ polling
      → s.closers ≡ suc n
      → RunStep s (record s { runner = returned; closers = n })
  polls_nothing : s.runner ≡ polling → s.closers ≡ 0 → RunStep s (record s { runner = connecting })
  -- `tryConnect`
  stays_connected :
      s.runner ≡ connecting
      → s.connected ≡ true
      → RunStep s (record s { runner = reading; writers = s.writers ++ (starting ∷ []) })
  dial_fails :
      s.runner ≡ connecting → s.connected ≡ false → RunStep s (record s { runner = polling })
  -- `OpenStreamSync` comes back with an error and the nil stream, which is stored.
  open_fails :
      s.runner ≡ connecting
      → s.connected ≡ false
      → RunStep s (record s { runner = polling; conn = none })
  connects :
      s.runner ≡ connecting
      → s.connected ≡ false
      → RunStep s
          (record s { runner = reading; conn = some true; writers = s.writers ++ (starting ∷ []) })
  -- A failed read: `readProcess` returns the error, and `run` goes on.
  read_fails :
      {is_open : Bool} → s.runner ≡ reading → s.conn ≡ some is_open → RunStep s (end_read polling s)
  -- A panic, which is recovered: `readProcess` returns nil, and `run` returns.
  read_panics : s.runner ≡ reading → RunStep s (end_read returned s)

-- The parts that `write` appends: whether the frame is sealed, the length, the payload, or its sealing
-- and the nonce.
abbrev pub IsFrame : Bytes → List Bytes → Type 0
IsFrame b parts =
    (parts ≡ (0 ∷ []) ∷ put_uint16 (length b % 2 ^ 16) ∷ b ∷ [])
    ⊎ ((sealed nonce : Bytes) × (parts
          ≡ (1 ∷ []) ∷ put_uint16 (length sealed % 2 ^ 16) ∷ sealed ∷ nonce ∷ []))

-- A step of one of the `writeProcess`es.
pub data WriteStep (s : Life) : Life → Type 0 where
  sets_connected :
      (before after : List Writer)
      → s.writers ≡ before ++ (starting ∷ after)
      → WriteStep s (record s { writers = before ++ (selecting ∷ after); connected = true })
  takes :
      (before after : List Writer) {b : Bytes} {bs : List Bytes}
      → s.writers ≡ before ++ (selecting ∷ after)
      → s.waiting ≡ b ∷ bs
      → WriteStep s (record s { writers = before ++ (writing b ∷ after); waiting = bs })
  takes_close :
      (before after : List Writer) {n : ℕ}
      → s.writers ≡ before ++ (selecting ∷ after)
      → s.closers ≡ suc n
      → WriteStep s (end_write (before ++ after) [] (record s { closers = n }))
  resets :
      (before after : List Writer) (b : Bytes) (parts : List Bytes)
      → s.writers ≡ before ++ (writing b ∷ after)
      → IsFrame b parts
      → WriteStep s (record s { writers = before ++ (filling b parts ∷ after); buf = [] })
  appends :
      (before after : List Writer) (b part : Bytes) (parts : List Bytes)
      → s.writers ≡ before ++ (filling b (part ∷ parts) ∷ after)
      → WriteStep s
          (record s { writers = before ++ (filling b parts ∷ after); buf = s.buf ++ part })
  -- `WriteTo` sends what the buffer holds, and empties it. It succeeds on an open stream only, but may
  -- fail on that too.
  writes :
      (before after : List Writer) (b : Bytes)
      → s.writers ≡ before ++ (filling b [] ∷ after)
      → s.conn ≡ some true
      → WriteStep s (record s {
        writers = before ++ (selecting ∷ after);
        buf = [];
        stream = s.stream ++ s.buf;
        sent = s.sent ++ (b ∷ []);
      })
  fill_fails :
      (before after : List Writer) (b : Bytes) (parts : List Bytes)
      → s.writers ≡ before ++ (filling b parts ∷ after)
      → WriteStep s (end_write (before ++ after) (b ∷ []) s)
  -- There is no stream.
  write_fails :
      (before after : List Writer) (b : Bytes)
      → s.writers ≡ before ++ (writing b ∷ after)
      → s.conn ≡ none
      → WriteStep s (end_write (before ++ after) (b ∷ []) s)

pub data Move (s : Life) : Life → Type 0 where
  runs : {t : Life} → RunStep s t → Move s t
  written : {t : Life} → WriteStep s t → Move s t
  -- Calls of `Write` and of `Close`.
  offers :
      (b : Bytes)
      → Move s (record s { waiting = s.waiting ++ (b ∷ []); offered = s.offered ++ (b ∷ []) })
  asks_close : Move s (record s { closers = s.closers + 1 })

-- Nothing moves any more when the program has ended.
pub data Reach (s : Life) : Life → Type 0 where
  here : Reach s s
  next : {t u : Life} → Reach s t → t.crashed ≡ false → Move t u → Reach s u
