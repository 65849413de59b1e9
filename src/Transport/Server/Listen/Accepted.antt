-- ===== src/Transport/Server/Listen/Accepted.antt =====
-- Every accepted stream has an object of its own, and the registry stays consistent over them.
use qtun.Base.{
  ℕ, zero, suc, ◌<◌, ◌≡◌, ◌≢◌, refl, sym, ap, ◌∙◌, ◌⊎◌, inl, inr, Bool, some, List, [], ◌∷◌, ◌++◌,
  length, length-append, get_elem?, arith, All, append_assoc, append-nil, Bytes, ℕ_discrete,
}
use mathlib.Core.Path.{subst}
use qtun.Stream.{Stream}
use qtun.Transport.ServerConn.{ServerConn, new_server_conn}
use qtun.Transport.Server.{ConnId, Server, new_server, update}
use qtun.Transport.Server.Registry.{IsRegistry}
use qtun.Transport.Server.History.{Call, pings, finds_dead, exits, run, IsAccepted, run-IsRegistry}
use qtun.Transport.Server.Listen.{
  Arrival, stream_fails, arrives, Round, no_listener, listens, Listening, accept, accept_all,
  listen, start_listen,
}

-- The streams that came, in order.
abbrev pub arrived : List Arrival → List Stream
arrived [] = []
arrived (stream_fails ∷ more) = arrived more
arrived (arrives stream ∷ more) = stream ∷ arrived more

abbrev pub arrived_in : List Round → List Stream
arrived_in [] = []
arrived_in (no_listener ∷ more) = arrived_in more
arrived_in (listens arrivals ∷ more) = arrived arrivals ++ arrived_in more

-- The objects are those of the streams so far, one for each, and nothing is registered.
record IsAllotted (public_addr key : Bytes) (no_delay : Bool) (streams : List Stream)
    (l : Listening) : Type 0 where
  counted : l.fresh ≡ length streams
  same_key : l.server.key ≡ key
  empty : l.server ≡ new_server public_addr key l.server.heap
  allotted :
      (c : ℕ) (stream : Stream)
      → get_elem? streams c ≡ some stream
      → l.server.heap c ≡ new_server_conn (some stream) key no_delay

get_elem?-snoc :
    (streams : List Stream) (new stream : Stream) (c : ℕ)
    → get_elem? (streams ++ (new ∷ [])) c ≡ some stream
    → (get_elem? streams c ≡ some stream) ⊎ ((c ≡ length streams) × (new ≡ stream))
get_elem?-snoc [] new stream zero e = inr (refl, cc)
get_elem?-snoc [] new stream (suc c) e = absurd (cc)
get_elem?-snoc (x ∷ xs) new stream zero e = inl e
get_elem?-snoc (x ∷ xs) new stream (suc c) e = elim (get_elem?-snoc xs new stream c e) [
  | inl old ↦ inl old
  | inr (here, same) ↦ inr (ap suc here, same)
]

get_elem?-length-none :
    (streams : List Stream) (s : Stream) → get_elem? streams (length streams) ≢ some s
get_elem?-length-none [] s = λ e. cc
get_elem?-length-none (x ∷ xs) s = get_elem?-length-none xs s

accept-IsAllotted :
    (public_addr key : Bytes) (no_delay : Bool) (streams : List Stream) (l : Listening)
    (stream : Stream)
    → IsAllotted public_addr key no_delay streams l
    → IsAllotted public_addr key no_delay (streams ++ (stream ∷ [])) (accept no_delay stream l)
unfolding accept new_server
accept-IsAllotted public_addr key no_delay streams l stream v = record {
  counted = omega (arith, v.counted, length-append streams (stream ∷ []));
  same_key = v.same_key;
  empty =
      ap
        (λ (s : Server). record s {
          heap = update l.server.heap l.fresh (new_server_conn (some stream) l.server.key no_delay);
        })
        v.empty;
  allotted = λ c other at. elim (get_elem?-snoc streams stream other c at) [
    | inl old ↦ elim (ℕ_discrete l.fresh c) [
      | yes same ↦ absurd (
          get_elem?-length-none streams other
            (subst (λ i. get_elem? streams i ≡ some other) (sym same ∙ v.counted) old))
      | no ne ↦ ground (arith, v.allotted c other old)
    ]
    | inr (here, same) ↦ ground (arith, here, same, v.counted, v.same_key)
  ];
}

accept_all-IsAllotted :
    (public_addr key : Bytes) (no_delay : Bool) (arrivals : List Arrival) (streams : List Stream)
    (l : Listening)
    → IsAllotted public_addr key no_delay streams l
    → IsAllotted public_addr key no_delay
        (streams ++ arrived arrivals)
        (accept_all no_delay arrivals l)
unfolding accept_all
accept_all-IsAllotted public_addr key no_delay [] streams l v =
    subst (λ ss. IsAllotted public_addr key no_delay ss l) (sym (append-nil streams)) v
accept_all-IsAllotted public_addr key no_delay (stream_fails ∷ more) streams l v =
    accept_all-IsAllotted public_addr key no_delay more streams l v
accept_all-IsAllotted public_addr key no_delay (arrives stream ∷ more) streams l v =
    let l' = accept no_delay stream l in
    subst (λ ss. IsAllotted public_addr key no_delay ss (accept_all no_delay more l'))
      (append_assoc streams (stream ∷ []) (arrived more))
      (accept_all-IsAllotted public_addr key no_delay more (streams ++ (stream ∷ [])) l'
        (accept-IsAllotted public_addr key no_delay streams l stream v))

start_listen-IsAllotted :
    (public_addr key : Bytes) (no_delay : Bool) (rounds : List Round) (streams : List Stream)
    (l : Listening)
    → IsAllotted public_addr key no_delay streams l
    → IsAllotted public_addr key no_delay
        (streams ++ arrived_in rounds)
        (start_listen no_delay rounds l)
unfolding start_listen listen
start_listen-IsAllotted public_addr key no_delay [] streams l v =
    subst (λ ss. IsAllotted public_addr key no_delay ss l) (sym (append-nil streams)) v
start_listen-IsAllotted public_addr key no_delay (no_listener ∷ more) streams l v =
    start_listen-IsAllotted public_addr key no_delay more streams l v
start_listen-IsAllotted public_addr key no_delay (listens arrivals ∷ more) streams l v =
    let l' = accept_all no_delay arrivals l in
    subst (λ ss. IsAllotted public_addr key no_delay ss (start_listen no_delay more l'))
      (append_assoc streams (arrived arrivals) (arrived_in more))
      (start_listen-IsAllotted public_addr key no_delay more (streams ++ arrived arrivals) l'
        (accept_all-IsAllotted public_addr key no_delay arrivals streams l v))

-- A call of the registry that names only connections below a number.
abbrev pub IsBelow : ℕ → Call → Type 0
IsBelow n (pings dst c) = c < n
IsBelow n (finds_dead dst) = Unit {0}
IsBelow n (exits c) = Unit {0}

get_elem?-below :
    (streams : List Stream) (c : ℕ)
    → c < length streams
    → (s : Stream) × (get_elem? streams c ≡ some s)
get_elem?-below [] c lt = absurd (omega arith)
get_elem?-below (x ∷ xs) zero lt = (x, refl)
get_elem?-below (x ∷ xs) (suc c) lt = get_elem?-below xs c (omega arith)

IsBelow-IsAccepted :
    (public_addr key : Bytes) (no_delay : Bool) (streams : List Stream) (l : Listening)
    → IsAllotted public_addr key no_delay streams l
    → (cs : List Call) → All (IsBelow l.fresh) cs
    → All (IsAccepted l.server.heap) cs
unfolding new_server_conn
IsBelow-IsAccepted public_addr key no_delay streams l v [] below = tt
IsBelow-IsAccepted public_addr key no_delay streams l v (pings dst c ∷ cs) (lt, below) =
    let (s, there) = get_elem?-below streams c (omega (arith, v.counted)) in
    (
      (λ e. ground (arith, v.allotted c s there)),
      IsBelow-IsAccepted public_addr key no_delay streams l v cs below,
    )
IsBelow-IsAccepted public_addr key no_delay streams l v (finds_dead dst ∷ cs) (u, below) =
    (tt, IsBelow-IsAccepted public_addr key no_delay streams l v cs below)
IsBelow-IsAccepted public_addr key no_delay streams l v (exits c ∷ cs) (u, below) =
    (tt, IsBelow-IsAccepted public_addr key no_delay streams l v cs below)

-- The server before it listens.
abbrev pub before : Bytes → Bytes → (ConnId → ServerConn) → Listening
before public_addr key heap = record { server = new_server public_addr key heap; fresh = 0 }

-- However often the listener fails and is opened again, and whichever sessions come without a stream:
-- `listen` makes one object for each stream that came, numbered in their order, with that stream and
-- the server's key. And every sequence of calls of the registry in which pings
-- come over these connections keeps the registry's invariant.
pub start_listen-IsRegistry :
    (public_addr key : Bytes) (heap : ConnId → ServerConn) (no_delay : Bool) (rounds : List Round)
    (c : ConnId) (stream : Stream) (cs : List Call)
    → get_elem? (arrived_in rounds) c ≡ some stream
    → All (IsBelow (length (arrived_in rounds))) cs
    → ((start_listen no_delay rounds (before public_addr key heap)).fresh
        ≡ length (arrived_in rounds))
      × ((start_listen no_delay rounds (before public_addr key heap)).server.heap c
          ≡ new_server_conn (some stream) key no_delay)
      × IsRegistry (run (start_listen no_delay rounds (before public_addr key heap)).server cs)
unfolding new_server
start_listen-IsRegistry public_addr key heap no_delay rounds c stream cs at below =
    let l = start_listen no_delay rounds (before public_addr key heap) in
    let v : IsAllotted public_addr key no_delay (arrived_in rounds) l =
      start_listen-IsAllotted public_addr key no_delay rounds [] (before public_addr key heap)
        (record {
          counted = refl;
          same_key = refl;
          empty = refl;
          allotted = λ i s e. absurd (cc);
        }) in
    (
      v.counted,
      v.allotted c stream at,
      subst (λ s. IsRegistry (run s cs)) (sym v.empty)
          (run-IsRegistry public_addr key l.server.heap cs (
            IsBelow-IsAccepted public_addr key no_delay (arrived_in rounds) l v cs
              (subst (λ n. All (IsBelow n) cs) (sym v.counted) below))),
    )
