-- ===== src/App/Shared/Settles.antt =====
-- A bound for the turns of the workers and of the cleaning task, and who can take one.
use qtun.Base.{
  ℕ, suc, ◌+◌, ◌*◌, ◌≤◌, ◌<◌, ◌≡◌, ◌⊎◌, refl, inl, inr, sym, ap, ◌∙◌, append_assoc, Option, none,
  some, List, [], ◌∷◌, ◌++◌, arith, Bool-cases, Option-cases, All, false, ltb, length, Bytes, ℕ_key,
  bytes_key,
}
use qtun.Base.Map.{lookup}
use qtun.Transport.Server.{ConnId, get_conns_by_addr}
use qtun.Iface.{PacketIp}
use qtun.Protocol.{Codec}
use qtun.App.{Addrs, Routes, App}
use qtun.App.Shared.{
  Job, packet, cleaning, Place, fetching, resting, looking, picked, holding, sending, forgetting,
  unregistering, Shared, MayLock, Turn, no_route, picks, finds_none, finds, is_shut, is_open, sends,
  forgets, unregisters, Other, registers, exits, moves, at_open, at_dead,
}
use qtun.App.Shared.Entries.{
  entries, entries_but, entries_but-drop_addr, entries-drop_addr, entries-dropped, entries_but-lt,
}

-- A bound for the steps that one place has before it, with those routes.
abbrev pub rank : Routes → Place → ℕ
rank routes fetching = 0
rank routes resting = 0
rank routes (looking pkt dst) = 6 * entries routes + 1
rank routes (picked (packet pkt) dst addr) = 6 * entries_but dst addr routes + 6
rank routes (picked cleaning dst addr) = 4
rank routes (holding (packet pkt) dst addr c) = 6 * entries_but dst addr routes + 5
rank routes (holding cleaning dst addr c) = 3
rank routes (sending pkt c) = 1
rank routes (forgetting (packet pkt) dst addr) = 6 * entries_but dst addr routes + 4
rank routes (forgetting cleaning dst addr) = 2
rank routes (unregistering (packet pkt) dst addr) = 6 * entries routes + 2
rank routes (unregistering cleaning dst addr) = 1

abbrev pub ranks : Routes → List Place → ℕ
ranks routes [] = 0
ranks routes (p ∷ ps) = rank routes p + ranks routes ps

abbrev pub work : Shared → ℕ
work s = ranks s.app.routes s.places

-- The routes of the second have fewer addresses, wherever one looks.
record IsFewer (routes' routes : Routes) : Type 0 where
  whole : entries routes' ≤ entries routes
  but : (d a : Bytes) → entries_but d a routes' ≤ entries_but d a routes

rank-IsFewer :
    (routes' routes : Routes) (p : Place) → IsFewer routes' routes → rank routes' p ≤ rank routes p
rank-IsFewer routes' routes fetching v = omega arith
rank-IsFewer routes' routes resting v = omega arith
rank-IsFewer routes' routes (looking pkt dst) v = omega (arith, v.whole)
rank-IsFewer routes' routes (picked (packet pkt) dst addr) v = omega (arith, v.but dst addr)
rank-IsFewer routes' routes (picked cleaning dst addr) v = omega arith
rank-IsFewer routes' routes (holding (packet pkt) dst addr c) v = omega (arith, v.but dst addr)
rank-IsFewer routes' routes (holding cleaning dst addr c) v = omega arith
rank-IsFewer routes' routes (sending pkt c) v = omega arith
rank-IsFewer routes' routes (forgetting (packet pkt) dst addr) v = omega (arith, v.but dst addr)
rank-IsFewer routes' routes (forgetting cleaning dst addr) v = omega arith
rank-IsFewer routes' routes (unregistering (packet pkt) dst addr) v = omega (arith, v.whole)
rank-IsFewer routes' routes (unregistering cleaning dst addr) v = omega arith

ranks-IsFewer :
    (routes' routes : Routes) (ps : List Place)
    → IsFewer routes' routes
    → ranks routes' ps ≤ ranks routes ps
ranks-IsFewer routes' routes [] v = omega arith
ranks-IsFewer routes' routes (p ∷ ps) v =
    omega (arith, rank-IsFewer routes' routes p v, ranks-IsFewer routes' routes ps v)

ranks-append :
    (routes : Routes) (ps qs : List Place)
    → ranks routes (ps ++ qs) ≡ ranks routes ps + ranks routes qs
ranks-append routes [] qs = omega arith
ranks-append routes (p ∷ ps) qs = omega (arith, ranks-append routes ps qs)

same-IsFewer : (routes : Routes) → IsFewer routes routes
same-IsFewer routes = record { whole = omega arith; but = λ d a. omega arith }

Turn-IsFewer :
    {codec : Codec} {s : Shared} {p q : Place} {app : App}
    → Turn codec s p q app
    → IsFewer app.routes s.app.routes
Turn-IsFewer {s} (no_route pkt dst free gone) = same-IsFewer s.app.routes
Turn-IsFewer {s} (picks pkt dst addr conns i free route pick) = same-IsFewer s.app.routes
Turn-IsFewer {s} (finds_none job dst addr e) = same-IsFewer s.app.routes
Turn-IsFewer {s} (finds job dst addr c e) = same-IsFewer s.app.routes
Turn-IsFewer {s} (is_shut job dst addr c e) = same-IsFewer s.app.routes
Turn-IsFewer {s} (is_open job dst addr c e) = same-IsFewer s.app.routes
Turn-IsFewer {s} (sends pkt c room) = same-IsFewer s.app.routes
Turn-IsFewer {s} (forgets job dst addr free) = record {
  whole = entries-drop_addr dst addr s.app.routes;
  but = λ d a. entries_but-drop_addr d a dst addr s.app.routes;
}
Turn-IsFewer {s} (unregisters job dst addr) = same-IsFewer s.app.routes

Turn-rank :
    {codec : Codec} {s : Shared} {p q : Place} {app : App}
    → Turn codec s p q app
    → rank app.routes q < rank s.app.routes p
Turn-rank (no_route pkt dst free gone) = omega arith
Turn-rank {s} (picks pkt dst addr conns i free route pick) =
    omega (arith, entries_but-lt dst addr conns i s.app.routes route pick)
Turn-rank (finds_none (packet pkt) dst addr e) = omega arith
Turn-rank (finds_none cleaning dst addr e) = omega arith
Turn-rank (finds (packet pkt) dst addr c e) = omega arith
Turn-rank (finds cleaning dst addr c e) = omega arith
Turn-rank (is_shut (packet pkt) dst addr c e) = omega arith
Turn-rank (is_shut cleaning dst addr c e) = omega arith
Turn-rank (is_open (packet pkt) dst addr c e) = omega arith
Turn-rank (is_open cleaning dst addr c e) = omega arith
Turn-rank (sends pkt c room) = omega arith
Turn-rank {s} (forgets (packet pkt) dst addr free) =
    omega (arith, entries-dropped dst addr s.app.routes)
Turn-rank (forgets cleaning dst addr free) = omega arith
Turn-rank (unregisters (packet pkt) dst addr) = omega arith
Turn-rank (unregisters cleaning dst addr) = omega arith

-- Turns of those that have begun, as many as the number says, and anything that the handler which
-- holds the mutex, the ends of connections and the connections themselves do meanwhile.
pub data Quiet (codec : Codec) (s : Shared) : ℕ → Shared → Type 0 where
  stay : Quiet codec s 0 s
  turned :
      {n : ℕ} {t : Shared} (before after : List Place) {p q : Place} {app : App}
      → Quiet codec s n t
      → t.places ≡ before ++ (p ∷ after)
      → Turn codec t p q app
      → Quiet codec s (suc n) (record t { app = app; places = before ++ (q ∷ after) })
  meanwhile : {n : ℕ} {t u : Shared} → Quiet codec s n t → Other t u → Quiet codec s n u

Other-work : {t u : Shared} → Other t u → work u ≡ work t
Other-work (registers addr c held done) = refl
Other-work (exits c) = refl
Other-work (moves c object there shut) = refl

turned-work :
    {codec : Codec} (t : Shared) (before after : List Place) (p q : Place) (app : App)
    → t.places ≡ before ++ (p ∷ after)
    → Turn codec t p q app
    → ranks app.routes (before ++ (q ∷ after)) < work t
turned-work t before after p q app at turn =
    let fewer = Turn-IsFewer turn in
    omega (
      arith,
      ap (ranks t.app.routes) at,
      ranks-append t.app.routes before (p ∷ after),
      ranks-append app.routes before (q ∷ after),
      ranks-IsFewer app.routes t.app.routes before fewer,
      ranks-IsFewer app.routes t.app.routes after fewer,
      Turn-rank turn,
    )

pub Quiet-work : {codec : Codec} {s t : Shared} {n : ℕ} → Quiet codec s n t → n + work t ≤ work s
Quiet-work stay = omega arith
Quiet-work (turned {t} before after {p} {q} {app} r at turn) =
    omega (arith, Quiet-work r, turned-work t before after p q app at turn)
Quiet-work (meanwhile r o) = omega (arith, Quiet-work r, Other-work o)

abbrev pub IsIdle : Place → Type 0
IsIdle p = (p ≡ fetching) ⊎ (p ≡ resting)

-- A worker that waits for room in the channel of a connection, which is full and open.
abbrev pub WaitsForRoom : Shared → Place → Type 0
WaitsForRoom s p =
    (pkt : PacketIp) × (c : ConnId) × (p ≡ sending pkt c)
    × (2 ≤ length (s.app.server.heap c).chan_write)
    × ((s.app.server.heap c).write_closed ≡ false)

abbrev pub Rests : Shared → Place → Type 0
Rests s p = IsIdle p ⊎ WaitsForRoom s p

abbrev CanTurn : Codec → Shared → Place → Type 0
CanTurn codec s p = (q : Place) × (app : App) × Turn codec s p q app

job-MayLock : (job : Job) (s : Shared) → s.holder ≡ none → MayLock job s
job-MayLock (packet pkt) s free = free
job-MayLock cleaning s free = tt

sends_or_waits :
    (codec : Codec) (s : Shared) (pkt : PacketIp) (c : ConnId)
    → Rests s (sending pkt c) ⊎ CanTurn codec s (sending pkt c)
sends_or_waits codec s pkt c =
    let object = s.app.server.heap c in
    elim (Bool-cases object.write_closed) [
      | inl shut ↦ inr (fetching, _, sends pkt c (inr shut))
      | inr there ↦ elim (Bool-cases (ltb (length object.chan_write) 2)) [
        | inl room ↦
            let lt : length object.chan_write < 2 = ground arith in
            inr (fetching, _, sends pkt c (inl lt))
        | inr full ↦
            let le : 2 ≤ length object.chan_write = ground arith in
            inl (inr (pkt, c, refl, le, there))
      ]
    ]

-- Without a holder of the mutex, whoever has begun can go on, or waits for room.
turns_on :
    (codec : Codec) (s : Shared) (p : Place) → s.holder ≡ none → Rests s p ⊎ CanTurn codec s p
turns_on codec s fetching free = inl (inl (inl refl))
turns_on codec s resting free = inl (inl (inr refl))
turns_on codec s (looking pkt dst) free = inr (of_route (lookup dst s.app.routes) refl)
  where
    of_route : (o : Option Addrs) → lookup dst s.app.routes ≡ o → CanTurn codec s (looking pkt dst)
    of_route none e = (fetching, s.app, no_route pkt dst free (inl e))
    of_route (some []) e = (fetching, s.app, no_route pkt dst free (inr e))
    of_route (some ((addr, u) ∷ more)) e =
        (picked (packet pkt) dst addr, s.app, picks pkt dst addr ((addr, u) ∷ more) 0 free e refl)
turns_on codec s (picked job dst addr) free =
    elim (Option-cases (get_conns_by_addr s.app.server addr)) [
      | inl e ↦ inr (forgetting job dst addr, s.app, finds_none job dst addr e)
      | inr (c, e) ↦ inr (holding job dst addr c, s.app, finds job dst addr c e)
    ]
turns_on codec s (holding job dst addr c) free = elim (Bool-cases (s.app.server.heap c).is_closed) [
  | inl e ↦ inr (forgetting job dst addr, s.app, is_shut job dst addr c e)
  | inr e ↦ inr (at_open job c, s.app, is_open job dst addr c e)
]
turns_on codec s (sending pkt c) free = sends_or_waits codec s pkt c
turns_on codec s (forgetting job dst addr) free =
    inr (unregistering job dst addr, _, forgets job dst addr (job-MayLock job s free))
turns_on codec s (unregistering job dst addr) free =
    inr (at_dead job dst, _, unregisters job dst addr)

-- Some place can go on, and this is where it stands.
abbrev pub GoesOn : Codec → Shared → Type 0
GoesOn codec s =
    (before after : List Place) × (p q : Place) × (app : App) × (s.places ≡ before ++ (p ∷ after))
    × Turn codec s p q app

pub goes_on :
    (codec : Codec) (s : Shared) (before after : List Place)
    → s.holder ≡ none
    → s.places ≡ before ++ after
    → All (Rests s) after ⊎ GoesOn codec s
goes_on codec s before [] free at = inl tt
goes_on codec s before (p ∷ after) free at = elim (turns_on codec s p free) [
  | inr (q, app, turn) ↦ inr (before, after, p, q, app, at, turn)
  | inl idle ↦
      elim (goes_on codec s (before ++ (p ∷ [])) after free
        (at ∙ sym (append_assoc before (p ∷ []) after))) [
          | inl rest ↦ inl (idle, rest)
          | inr on ↦ inr on
        ]
]
