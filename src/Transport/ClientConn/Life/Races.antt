-- ===== src/Transport/ClientConn/Life/Races.antt =====
-- What two `writeProcess`es over one buffer do to each other.
use qtun.Base.{false, ◌%◌, ◌^◌, ◌≡◌, refl, inl, List, [], ◌∷◌, ◌++◌, append-nil, length, Bytes}
use qtun.Transport.Frame.{put_uint16, plain_frame}
use qtun.Transport.ClientConn.Life.{
  Writer, selecting, writing, filling, Life, start, takes, resets, appends, writes, written, offers,
  Reach, next,
}
use qtun.Transport.ClientConn.Life.Reconnects.{with_writers, writers_pile_up}

abbrev parts_of : Bytes → List Bytes
parts_of b = (0 ∷ []) ∷ put_uint16 (length b % 2 ^ 16) ∷ b ∷ []

abbrev filled_with : Bytes → Bytes → Bytes
filled_with buf b = ((buf ++ (0 ∷ [])) ++ put_uint16 (length b % 2 ^ 16)) ++ b

-- The `writeProcess` between those two lists puts the whole frame of its payload into the buffer.
Reach-filled :
    {a s : Life} (before after : List Writer) (b : Bytes)
    → Reach a s
    → s.crashed ≡ false
    → s.writers ≡ before ++ (writing b ∷ after)
    → Reach a (record s { writers = before ++ (filling b [] ∷ after); buf = filled_with [] b })
Reach-filled {s} before after b r up at =
    next
      (next
        (next (next r up (written (resets before after b (parts_of b) at (inl refl)))) up
          (written (appends before after b (0 ∷ []) _ refl)))
        up (written (appends before after b (put_uint16 (length b % 2 ^ 16)) _ refl)))
      up (written (appends before after b b [] refl))

-- Two `writeProcess`es are left over one connection when it was lost once. For any two payloads there
-- is a run of the whole client, from the start and without a key, in which each of the two takes one,
-- the second empties the buffer after the first has filled it, and both `write`s come back without
-- an error: the one frame that goes over the stream is that of the second payload, and the first is
-- never sent.
pub write_lost :
    (b c : Bytes)
    → (t : Life) × Reach start t
      × (t.offered ≡ b ∷ c ∷ [])
      × (t.sent ≡ b ∷ c ∷ [])
      × (t.waiting ≡ [])
      × (t.stream ≡ plain_frame c)
unfolding plain_frame
write_lost b c =
    let s0 : Life = record (with_writers 2) { offered = b ∷ c ∷ []; waiting = b ∷ c ∷ [] } in
    let r0 : Reach start s0 = next (next (writers_pile_up 1) refl (offers b)) refl (offers c) in
    let s1 : Life = record s0 { writers = writing b ∷ writing c ∷ []; waiting = [] } in
    let r1 : Reach start s1 =
      next (next r0 refl (written (takes [] (selecting ∷ []) refl refl))) refl
        (written (takes (writing b ∷ []) [] refl refl)) in
    let s2 : Life = record s1 { writers = filling b [] ∷ writing c ∷ []; buf = filled_with [] b } in
    let r2 : Reach start s2 = Reach-filled [] (writing c ∷ []) b r1 refl refl in
    let s3 : Life = record s2 {
      writers = filling b [] ∷ filling c [] ∷ [];
      buf = filled_with [] c;
    } in
    let r3 : Reach start s3 = Reach-filled (filling b [] ∷ []) [] c r2 refl refl in
    let s4 : Life = record s3 {
      writers = selecting ∷ selecting ∷ [];
      buf = [];
      stream = filled_with [] c ++ [];
      sent = b ∷ c ∷ [];
    } in
    let r4 : Reach start s4 =
      next (next r3 refl (written (writes [] (filling c [] ∷ []) b refl refl))) refl
        (written (writes (selecting ∷ []) [] c refl refl)) in
    (s4, r4, refl, refl, refl, append-nil (filled_with [] c))
