-- ===== src/Transport/Frame/RoundTrip.antt =====
-- What one end writes the other end reads: one frame, and a sequence of frames.
use qtun.Base.{
  ℕ, zero, suc, ◌+◌, ◌^◌, ◌<◌, ◌≡◌, refl, Option, none, some, List, [], ◌∷◌, ◌++◌, map, append-nil,
  append_assoc, arith, length, All, Bytes, ℕ_key, bytes_key, ok, Action, ◌>>=◌, ◌>>◌, pure,
}
use qtun.Stream.{Stream, write}
use qtun.Stream.Laws.{read_full-append}
use qtun.Transport.Aead.{Aead, IsSound}
use qtun.Transport.Frame.{
  ReadError, plain_frame, sealed_frame, read_sealed, read_frame, Random, Endpoint, WriteError, fill,
  write_frame,
}
use qtun.Transport.Frame.Head.{read_head-put}

-- The frame that `write` produces for an installed cipher.
abbrev pub frame : Option Aead → Bytes → Bytes → Bytes
frame none nonce payload = plain_frame payload
frame (some a) nonce payload = sealed_frame a nonce payload

-- The cipher, if there is one, keeps its contract, and the nonce has its size.
abbrev pub Keyed : Option Aead → ℕ → Bytes → Type 0
Keyed none overhead nonce = Unit {0}
Keyed (some a) overhead nonce = IsSound a overhead × (length nonce ≡ a.nonce_size)

-- The body fits the uint16 of its length.
abbrev pub Fits : Option Aead → ℕ → Bytes → Type 0
Fits none overhead payload = length payload < 2 ^ 16
Fits (some a) overhead payload = length payload + overhead < 2 ^ 16

pub read_frame-frame :
    (k : Option Aead) (overhead : ℕ) (nonce payload rest : Bytes) (refused : ReadError) (r : Stream)
    → Keyed k overhead nonce
    → Fits k overhead payload
    → r.input ≡ frame k nonce payload ++ rest
    → read_frame k refused r ≡ (ok payload, record r { input = rest })
unfolding read_frame plain_frame sealed_frame read_sealed
read_frame-frame none overhead nonce payload rest refused r keyed fits e =
    ground (arith, read_head-put 0 (length payload) payload rest r)
read_frame-frame (some a) overhead nonce payload rest refused r (sound, size) fits e =
    let sealed : Bytes = a.seal nonce payload in
    ground (
      arith,
      sound.grows nonce payload size,
      sound.opens nonce payload size,
      append_assoc sealed nonce rest,
      read_head-put 1 (length sealed) sealed (nonce ++ rest) r,
      read_full-append a.nonce_size nonce rest (record r { input = nonce ++ rest }),
    )

-- The system's random source yields this nonce, where one is drawn.
abbrev pub Draws : Option Aead → Random → Bytes → Type 0
Draws none random nonce = Unit {0}
Draws (some a) random nonce = random a.nonce_size ≡ ok nonce

pub fill-frame :
    (k : Option Aead) (random : Random) (nonce payload : Bytes)
    → Draws k random nonce
    → fill k random payload ≡ (ok tt, frame k nonce payload)
unfolding fill
fill-frame none random nonce payload draws = refl
fill-frame (some a) random nonce payload draws = rw draws refl

pub write_frame-frame :
    (random : Random) (nonce payload : Bytes) (e : Endpoint) (s : Stream)
    → Draws e.aesgcm random nonce
    → e.conn ≡ some s
    → s.faults ≡ []
    → write_frame random payload e ≡ (
      ok tt,
      record e {
        conn = some (record s { output = s.output ++ frame e.aesgcm nonce payload });
        buf = [];
      },
    )
unfolding write_frame write
write_frame-frame random nonce payload e s draws here fine =
    ground (arith, fill-frame e.aesgcm random nonce payload draws)

-- A run of `write` calls, each with its own nonce; the first failure ends it.
abbrev pub write_all : List (Random × Bytes) → Action Endpoint WriteError (Unit {0})
write_all [] = pure tt
write_all ((random, payload) ∷ more) = write_frame random payload >> write_all more

-- As many `read` calls as the number says.
abbrev pub read_all : ℕ → Option Aead → ReadError → Action Stream ReadError (List Bytes)
read_all zero k refused = pure []
read_all (suc n) k refused = do
  payload ← read_frame k refused
  more ← read_all n k refused
  pure (payload ∷ more)

-- A payload, with the nonce that is drawn for it.
pub record Message : Type 0 where
  pub random : Random
  pub nonce : Bytes
  pub payload : Bytes

abbrev pub calls : List Message → List (Random × Bytes)
calls = map λ m. (m.random, m.payload)

abbrev pub payloads : List Message → List Bytes
payloads = map λ m. m.payload

abbrev pub frames : Option Aead → List Message → Bytes
frames k [] = []
frames k (m ∷ ms) = frame k m.nonce m.payload ++ frames k ms

abbrev pub IsReady : Option Aead → ℕ → Message → Type 0
IsReady k overhead m =
    Draws k m.random m.nonce × Keyed k overhead m.nonce × Fits k overhead m.payload

write_all-frames :
    (overhead : ℕ) (ms : List Message) (e : Endpoint) (s : Stream)
    → All (IsReady e.aesgcm overhead) ms
    → e.conn ≡ some s
    → s.faults ≡ []
    → ((write_all (calls ms) e).0 ≡ ok tt)
      × ((write_all (calls ms) e).1.conn
          ≡ some (record s { output = s.output ++ frames e.aesgcm ms }))
write_all-frames overhead [] e s ready here fine = (refl, rw (append-nil s.output) here)
write_all-frames overhead (m ∷ ms) e s (now, later) here fine =
    let sent = s.output ++ frame e.aesgcm m.nonce m.payload in
    let s' : Stream = record s { output = sent } in
    let e' : Endpoint = record e { conn = some s'; buf = [] } in
    rw (write_frame-frame m.random m.nonce m.payload e s now.0 here fine) (
      rw (← append_assoc s.output (frame e.aesgcm m.nonce m.payload) (frames e.aesgcm ms))
        (write_all-frames overhead ms e' s' later refl fine))

pub read_all-frames :
    (k : Option Aead) (overhead : ℕ) (ms : List Message) (rest : Bytes) (refused : ReadError)
    (r : Stream)
    → All (IsReady k overhead) ms
    → read_all (length ms) k refused (record r { input = frames k ms ++ rest })
      ≡ (ok (payloads ms), record r { input = rest })
read_all-frames k overhead [] rest refused r ready = refl
read_all-frames k overhead (m ∷ ms) rest refused r (now, later) = ground (
  arith,
  append_assoc (frame k m.nonce m.payload) (frames k ms) rest,
  read_frame-frame k overhead m.nonce m.payload (frames k ms ++ rest) refused
      (record r { input = frames k (m ∷ ms) ++ rest }) now.1 now.2,
  read_all-frames k overhead ms rest refused r later,
)

-- Over a connection whose writes succeed, every run of `write` calls succeeds, and what it sends is
-- read back by as many `read` calls of an end with the same cipher setting: the same payloads in the
-- same order, with the reader left at the byte that follows. The payloads fit the uint16 length, a
-- cipher keeps its contract, and the random source yields a nonce for each call.
pub read_all-write_all :
    (overhead : ℕ) (ms : List Message) (rest : Bytes) (refused : ReadError) (e : Endpoint)
    (s r : Stream)
    → All (IsReady e.aesgcm overhead) ms
    → e.conn ≡ some s
    → s.faults ≡ []
    → (sent : Bytes) × ((write_all (calls ms) e).0 ≡ ok tt)
      × ((write_all (calls ms) e).1.conn ≡ some (record s { output = s.output ++ sent }))
      × (read_all (length ms) e.aesgcm refused (record r { input = sent ++ rest })
          ≡ (ok (payloads ms), record r { input = rest }))
read_all-write_all overhead ms rest refused e s r ready here fine =
    let (sends, leaves) = write_all-frames overhead ms e s ready here fine in
    (frames e.aesgcm ms, sends, leaves, read_all-frames e.aesgcm overhead ms rest refused r ready)
