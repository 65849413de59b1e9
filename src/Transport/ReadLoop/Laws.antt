-- ===== src/Transport/ReadLoop/Laws.antt =====
-- The read loop ends, and hands on what was sent.
use qtun.Base.{
  ℕ, zero, suc, ◌+◌, ◌*◌, ◌≤◌, ◌<◌, ◌≡◌, refl, ap, ◌⊎◌, inl, inr, ◌≢◌, Option, none, some, List, [],
  ◌∷◌, ◌++◌, arith, length, drop, All, length-append, length-drop, Bytes, ℕ_key, bytes_key, Panic,
  Result, ok, err, panic, Action, ◌>>◌, pure, >>-eq-ok,
}
use qtun.Stream.{Stream, read_byte, read_full}
use qtun.Transport.Aead.{Aead}
use qtun.Transport.Frame.{ReadError, io, read_slice, read_head, read_sealed, read_frame}
use qtun.Transport.ServerConn.{Wait}
use qtun.Transport.Frame.RoundTrip.{Message, payloads, frames, IsReady, frame, read_frame-frame}
use qtun.Transport.ReadLoop.{Handler, Exit, read_failed, panicked, blocked, read_loop, read_process}

shorter_of :
    (k : Option Aead) (refused : ReadError) (s s' : Stream) (input payload : Bytes)
    → s.input ≡ input
    → read_frame k refused s ≡ (ok payload, s')
    → length s'.input + 3 ≤ length input
unfolding read_frame read_head read_sealed read_byte read_slice read_full
shorter_of k refused s s' [] payload e h = absurd (ground arith)
shorter_of k refused s s' (x ∷ []) payload e h = absurd (ground arith)
shorter_of k refused s s' (x ∷ lo ∷ []) payload e h = absurd (ground arith)
shorter_of none refused s s' (x ∷ lo ∷ hi ∷ more) payload e h =
    ground (arith, length-drop (lo + 256 * hi) more)
shorter_of (some a) refused s s' (x ∷ lo ∷ hi ∷ more) payload e h =
    ground (
      arith,
      length-drop (lo + 256 * hi) more,
      length-drop a.nonce_size (drop (lo + 256 * hi) more),
    )

-- A successful `read` takes three bytes at least.
pub read_frame-shorter :
    (k : Option Aead) (refused : ReadError) (s s' : Stream) (payload : Bytes)
    → read_frame k refused s ≡ (ok payload, s')
    → length s'.input + 3 ≤ length s.input
read_frame-shorter k refused s s' payload h = shorter_of k refused s s' s.input payload refl h

-- At the end of the input `read` fails with the error that the stream ends in.
read_frame-empty :
    (k : Option Aead) (refused : ReadError) (s : Stream)
    → read_frame k refused (record s { input = [] }) ≡ (err (io s.ending), record s { input = [] })
unfolding read_frame read_head read_byte
read_frame-empty k refused s = refl

-- A read failed, or something panicked.
abbrev pub HasEnded : Exit → Type 0
HasEnded exit = ((e : ReadError) × (exit ≡ read_failed e)) ⊎ ((p : Panic) × (exit ≡ panicked p))

module _ {H : Type 0} (k : Option Aead) (refused : ReadError) (handler : Handler H) where
  read_loop_step :
      (fuel : ℕ) (s s' : Stream) (h h' : H) (payload : Bytes)
      → read_frame k refused s ≡ (ok payload, s')
      → handler payload h ≡ (ok tt, h')
      → read_loop k refused handler (suc fuel) s h ≡ read_loop k refused handler fuel s' h'
  unfolding read_loop
  read_loop_step fuel s s' h h' payload e d = ground arith

  -- A round that does not go on.
  read_loop_unread :
      (fuel : ℕ) (s s' : Stream) (h : H) (e : ReadError)
      → read_frame k refused s ≡ (err e, s')
      → read_loop k refused handler (suc fuel) s h
        ≡ record { exit = read_failed e; conn = s'; state = h }
  unfolding read_loop
  read_loop_unread fuel s s' h e r = ground arith

  -- Each round reads and hands on; what is left to show is the round that goes on.
  read_loop_cases :
      (P : Exit → Type 0) (fuel : ℕ) (s : Stream) (h : H)
      → ((e : ReadError) → P (read_failed e))
      → ((p : Panic) → P (panicked p))
      → ((w : Wait) (payload : Bytes) → (handler payload h).0 ≡ err w → P blocked)
      → ((payload : Bytes) (s' : Stream) (h' : H)
          → read_frame k refused s ≡ (ok payload, s')
          → P (read_loop k refused handler fuel s' h').exit)
      → P (read_loop k refused handler (suc fuel) s h).exit
  unfolding read_loop
  read_loop_cases P fuel s h unread stopped waits goes = got (read_frame k refused s) refl
    where
      handed :
          (payload : Bytes) (s' : Stream) (out : Result Wait (Unit {0}) × H)
          → read_frame k refused s ≡ (ok payload, s')
          → handler payload h ≡ out
          → P (read_loop k refused handler (suc fuel) s h).exit
      handed payload s' (ok u, h') e d =
          rw (read_loop_step fuel s s' h h' payload e d) (goes payload s' h' e)
      handed payload s' (err w, h') e d =
          rw (e, read_loop, d) (waits w payload (ap (λ out. out.0) d))
      handed payload s' (panic p, h') e d = rw (e, read_loop, d) (stopped p)

      got :
          (out : Result ReadError Bytes × Stream)
          → read_frame k refused s ≡ out
          → P (read_loop k refused handler (suc fuel) s h).exit
      got (ok payload, s') e = handed payload s' (handler payload h) e refl
      got (err x, s') e = rw (e, read_loop) (unread x)
      got (panic p, s') e = rw (e, read_loop) (stopped p)

  read_loop-ends :
      (fuel : ℕ) (s : Stream) (h : H)
      → length s.input < fuel
      → ((payload : Bytes) (h' : H) (w : Wait) → (handler payload h').0 ≢ err w)
      → HasEnded (read_loop k refused handler fuel s h).exit
  read_loop-ends zero s h lt returns = absurd (omega arith)
  read_loop-ends (suc fuel) s h lt returns =
      read_loop_cases HasEnded fuel s h (λ e. inl (e, refl)) (λ p. inr (p, refl))
        (λ w payload e. absurd (returns payload h w e))
        λ payload s' h' e.
          read_loop-ends fuel s' h' (omega (arith, read_frame-shorter k refused s s' payload e))
            returns

  -- If no call of the handler waits for ever, the loop ends on every input: with the error of a read
  -- that failed, or with a panic. It is not cut short by the fuel, and does not wait.
  pub read_process-ends :
      (s : Stream) (h : H)
      → ((payload : Bytes) (h' : H) (w : Wait) → (handler payload h').0 ≢ err w)
      → HasEnded (read_process k refused handler s h).exit
  unfolding read_process
  read_process-ends s h returns = read_loop-ends (suc (length s.input)) s h (omega arith) returns

  -- The handler over payloads one after the other, as long as it returns.
  abbrev pub handle_all : List Bytes → Action H Wait (Unit {0})
  handle_all [] = pure tt
  handle_all (p ∷ ps) = handler p >> handle_all ps

  read_loop-frames :
      (overhead : ℕ) (ms : List Message) (fuel : ℕ) (s : Stream) (h h' : H)
      → All (IsReady k overhead) ms
      → handle_all (payloads ms) h ≡ (ok tt, h')
      → length (frames k ms) < fuel
      → read_loop k refused handler fuel (record s { input = frames k ms }) h
        ≡ record { exit = read_failed (io s.ending); conn = record s { input = [] }; state = h' }
  read_loop-frames overhead ms zero s h h' ready e lt = absurd (omega arith)
  read_loop-frames overhead [] (suc fuel) s h h' ready e lt =
      rw (read_loop_unread fuel (record s { input = [] }) _ h _ (read_frame-empty k refused s))
        (ground arith)
  read_loop-frames overhead (m ∷ ms) (suc fuel) s h h' (now, later) e lt =
      let sent : Bytes = frame k m.nonce m.payload in
      let (h1, first, others) = >>-eq-ok (handler m.payload h) (handle_all (payloads ms)) e in
      let got : read_frame k refused (record s { input = sent ++ frames k ms })
          ≡ (ok m.payload, record s { input = frames k ms }) =
        read_frame-frame k overhead m.nonce m.payload (frames k ms) refused
          (record s { input = sent ++ frames k ms }) now.1 now.2 refl in
      rw (read_loop_step fuel _ _ h h1 m.payload got first) (
        read_loop-frames overhead ms fuel s h1 h' later others (
          omega (
            arith,
            length-append sent (frames k ms),
            read_frame-shorter k refused _ _ m.payload got,
          )))

  -- The read loop over the frames of any run of `write` calls hands every payload on, once and in
  -- order, and leaves when the input ends, with the error that it ends in. The payloads fit their
  -- frames, both ends have the same cipher setting, and the handler returns each time.
  pub read_process-frames :
      (overhead : ℕ) (ms : List Message) (s : Stream) (h h' : H)
      → All (IsReady k overhead) ms
      → handle_all (payloads ms) h ≡ (ok tt, h')
      → read_process k refused handler (record s { input = frames k ms }) h
        ≡ record { exit = read_failed (io s.ending); conn = record s { input = [] }; state = h' }
  unfolding read_process
  read_process-frames overhead ms s h h' ready e =
      read_loop-frames overhead ms (suc (length (frames k ms))) s h h' ready e (omega arith)
