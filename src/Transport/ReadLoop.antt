-- ===== src/Transport/ReadLoop.antt =====
-- The loop of `readProcess`, which both ends share: transport/client_conn.go and
-- transport/server_conn.go. It reads a frame, hands the payload to the handler, and goes on until a
-- read fails or the handler panics, which the deferred function recovers.
pub mod Laws
use qtun.Base.{ℕ, zero, suc, Option, length, Bytes, Panic, Result, ok, err, panic, Action}
use qtun.Stream.{Stream}
use qtun.Transport.Aead.{Aead}
use qtun.Transport.Frame.{ReadError, read_frame}
use qtun.Transport.ServerConn.{Wait}

-- `ClientOnData`, or `ServerOnData` for one connection, over what the handler may change.
abbrev pub Handler : Type 0 → Type 0
Handler H = Bytes → Action H Wait (Unit {0})

-- Why the loop was left.
pub data Exit : Type 0 where
  read_failed : ReadError → Exit
  panicked : Panic → Exit
  -- The handler waits for ever.
  blocked : Exit
  -- No outcome of the code: the fuel ran out.
  out_of_fuel : Exit

pub record Left (H : Type 0) : Type 0 where
  pub exit : Exit
  pub conn : Stream
  pub state : H

module _ {H : Type 0} (k : Option Aead) (refused : ReadError) (handler : Handler H) where
  unfoldable pub read_loop : ℕ → Stream → H → Left H
  read_loop zero s h = record { exit = out_of_fuel; conn = s; state = h }
  read_loop (suc fuel) s h =
      let got : Result ReadError Bytes × Stream = read_frame k refused s in
      elim got.0 [
        | err e ↦ record { exit = read_failed e; conn = got.1; state = h }
        | panic p ↦ record { exit = panicked p; conn = got.1; state = h }
        | ok payload ↦
            let done : Result Wait (Unit {0}) × H = handler payload h in
            elim done.0 [
              | ok _ ↦ read_loop fuel got.1 done.1
              | err w ↦ record { exit = blocked; conn = got.1; state = done.1 }
              | panic p ↦ record { exit = panicked p; conn = got.1; state = done.1 }
            ]
      ]

  -- A frame takes three bytes at least, so the input's length bounds the rounds.
  unfoldable pub read_process : Stream → H → Left H
  unfolding read_loop
  read_process s h = read_loop (suc (length s.input)) s h
