-- ===== src/Stream.antt =====
-- A connection as the code sees it through Go's `io` package: the bytes that the peer will deliver,
-- what a read reports behind them, the bytes written so far, and which later writes fail.
pub mod Laws
use qtun.Base.{
  ℕ, List, ◌∷◌, ◌++◌, Option, none, some, length, take, drop, ltb, ◌==◌, if◌then◌else◌, Bytes,
  Action, ok, err, [],
}

pub data IoError : Type 0 where
  eof unexpected_eof : IoError
  -- Any other error, with its text.
  failed : Bytes → IoError

pub record Stream : Type 0 where
  pub input : Bytes
  pub ending : IoError
  pub output : Bytes
  -- What the next writes report; past the end of the list they succeed.
  pub faults : List (Option IoError)

-- `r.Read(p)` for a `p` of one byte.
unfoldable pub read_byte : Action Stream IoError ℕ
read_byte s = elim s.input [ [] ↦ (err s.ending, s) | b ∷ rest ↦ (ok b, record s { input = rest }) ]

-- `io.ReadAtLeast` reports `io.ErrUnexpectedEOF` if the input ends behind the first byte.
unfoldable pub cut_short : ℕ → IoError → IoError
cut_short got eof = if got == 0 then eof else unexpected_eof
cut_short got unexpected_eof = unexpected_eof
cut_short got (failed message) = failed message

-- `io.ReadFull(r, p)`, and `io.ReadAtLeast(r, p, n)`, for a `p` of `n` bytes.
unfoldable pub read_full : ℕ → Action Stream IoError Bytes
unfolding cut_short
read_full n s =
    if ltb (length s.input) n
    then (err (cut_short (length s.input) s.ending), record s { input = [] })
    else (ok (take n s.input), record s { input = drop n s.input })

-- `w.Write(p)`. A failed write is taken to deliver nothing.
unfoldable pub write : Bytes → Action Stream IoError (Unit {0})
write bytes s = elim s.faults [
  | [] ↦ (ok tt, record s { output = s.output ++ bytes })
  | none ∷ later ↦ (ok tt, record s { output = s.output ++ bytes; faults = later })
  | some e ∷ later ↦ (err e, record s { faults = later })
]
