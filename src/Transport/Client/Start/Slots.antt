-- ===== src/Transport/Client/Start/Slots.antt =====
-- The slots that `Start` fills, what `wg` counts, and what `Stop` and `ConnectWait` make of them.
use qtun.Base.{
  ℕ, zero, suc, ◌+◌, ◌-◌, ◌≤◌, ◌<◌, ◌≡◌, refl, sym, ◌≢◌, ◌⊎◌, inl, inr, Bool, true, false,
  Bool-cases, if◌then◌else◌, ◌==◌, ◌>>◌, Option, none, some, List, [], ◌∷◌, arith, length, All,
  Bytes, ℕ_key, ℕ_discrete, nil_dereference, ok, err, panic,
}
use mathlib.Core.Path.{subst}
use qtun.Transport.Aead.{Aead}
use qtun.Transport.Crypto.{Crypto, crypto}
use qtun.Transport.Client.{ClientConn}
use qtun.Transport.Client.Balance.{IsServed, IsStarted}
use qtun.Transport.Client.Start.{
  Network, new_client, try_connect, init_conn, wait_connected, set_up, connect_all, start, done,
  close_all, wait_all, stop, count_connected, connect_wait,
}

abbrev HasNil : List (Option ClientConn) → Type 0
HasNil [] = ⊥
HasNil (none ∷ more) = Unit {0}
HasNil (some conn ∷ more) = HasNil more

-- How many are not nil.
abbrev present : List (Option ClientConn) → ℕ
present [] = 0
present (none ∷ more) = present more
present (some conn ∷ more) = 1 + present more

slot-present :
    (slot : Option ClientConn) (conns : List (Option ClientConn)) (wg counted : ℕ)
    → counted ≡ elim slot [ none ↦ wg + 1 - 1 | some _ ↦ wg + 1 ] + present conns
    → counted ≡ wg + present (slot ∷ conns)
slot-present none conns wg counted h = omega arith
slot-present (some conn) conns wg counted h = omega arith

HasNil-later :
    (slot : Option ClientConn) (conns : List (Option ClientConn))
    → HasNil conns
    → HasNil (slot ∷ conns)
HasNil-later none conns h = tt
HasNil-later (some conn) conns h = h

-- The network lets the connection of that index come up, and last.
abbrev pub Connects : Network → ℕ → Type 0
Connects net index =
    ((addr : Bytes) × (net.dial_addr index ≡ ok addr))
    × (net.opens_stream index ≡ true)
    × (net.lasts index ≡ true)

-- They do not: the dial or the opening of the stream reports an error.
abbrev pub Refuses : Network → ℕ → Type 0
Refuses net index =
    ((e : Unit {0}) × (net.dial_addr index ≡ err e)) ⊎ (net.opens_stream index ≡ false)

module _ (lib : Crypto) (net : Network) (key : Bytes) where
  set_up-Connects :
      (aesgcm : Option Aead) (index : ℕ)
      → crypto lib key none ≡ ok aesgcm
      → Connects net index
      → (conn : ClientConn) × (set_up lib net key index ≡ some conn) × (conn.receives ≡ true)
  unfolding set_up init_conn try_connect wait_connected
  set_up-Connects aesgcm index keyed ((addr, dialed), opened, lasting) = (
    record { local_addr = addr; receives = net.lasts index },
    ground (arith, keyed, dialed, opened),
    lasting,
  )

  set_up-refused : (index : ℕ) → Refuses net index → set_up lib net key index ≡ none
  unfolding set_up init_conn try_connect wait_connected
  set_up-refused index (inl (e, h)) = ground (arith, h)
  set_up-refused index (inr h) = ground (arith, h)

  connect_all-started :
      (aesgcm : Option Aead) (index left wg : ℕ)
      → crypto lib key none ≡ ok aesgcm
      → ((i : ℕ) → i < index + left → Connects net i)
      → (length (connect_all lib net key index left wg).0 ≡ left)
        × All IsServed (connect_all lib net key index left wg).0
        × ((connect_all lib net key index left wg).1 ≡ wg + left)
  unfolding connect_all
  connect_all-started aesgcm index zero wg keyed up = (refl, tt, omega arith)
  connect_all-started aesgcm index (suc left) wg keyed up =
      let (conn, made, lasting) = set_up-Connects aesgcm index keyed (up index (omega arith)) in
      let served : IsServed (set_up lib net key index) = (conn, made, lasting) in
      let (len, all, counted) =
        connect_all-started aesgcm (index + 1) left (wg + 1) keyed (λ i h. up i (omega arith)) in
      (ground (arith, made, len), ground (arith, made, served, all), ground (arith, made, counted))

  -- A refused connection leaves its slot nil.
  connect_all-refused :
      (index left wg i : ℕ)
      → index ≤ i
      → i < index + left
      → Refuses net i
      → HasNil (connect_all lib net key index left wg).0
  unfolding connect_all
  connect_all-refused index zero wg i le lt refused = absurd (omega arith)
  connect_all-refused index (suc left) wg i le lt refused =
      let slot = set_up lib net key index in
      let counted : ℕ = elim slot [ none ↦ wg + 1 - 1 | some _ ↦ wg + 1 ] in
      let conns = (connect_all lib net key (index + 1) left counted).0 in
      elim (ℕ_discrete index i) [
        | yes here ↦
            subst (λ s. HasNil (s ∷ conns))
              (sym (set_up-refused index (subst (Refuses net) (sym here) refused))) tt
        | no there ↦
            HasNil-later slot conns
              (connect_all-refused (index + 1) left counted i (omega arith) (omega arith) refused)
      ]

  connect_all-present :
      (index left wg : ℕ)
      → (connect_all lib net key index left wg).1
        ≡ wg + present (connect_all lib net key index left wg).0
  unfolding connect_all
  connect_all-present index zero wg = omega arith
  connect_all-present index (suc left) wg =
      let slot = set_up lib net key index in
      let added : ℕ = elim slot [ none ↦ wg + 1 - 1 | some _ ↦ wg + 1 ] in
      slot-present slot (connect_all lib net key (index + 1) left added).0 wg
        (connect_all lib net key (index + 1) left added).1
        (connect_all-present (index + 1) left added)

-- Up to the first slot that is nil, if there is one, each connection passes the test.
abbrev pub all_to_nil : (ClientConn → Bool) → List (Option ClientConn) → Bool
all_to_nil p [] = true
all_to_nil p (none ∷ more) = true
all_to_nil p (some conn ∷ more) = if p conn then all_to_nil p more else false

-- `Stop` on connections that are all there, where the counter knows of each.
close_all-there :
    (returns : ClientConn → Bool) (conns : List (Option ClientConn))
    → All (λ o. o ≢ none) conns
    → ((close_all returns conns >> wait_all) (length conns)).0
      ≡ (if all_to_nil returns conns then ok tt else err tt)
unfolding close_all wait_all done
close_all-there returns [] all = refl
close_all-there returns (none ∷ more) (ne, all) = absurd (ne refl)
close_all-there returns (some conn ∷ more) (ne, all) =
    ground (arith, close_all-there returns more all)

served-All : (conns : List (Option ClientConn)) → All IsServed conns → All (λ o. o ≢ none) conns
served-All [] all = tt
served-All (o ∷ more) ((conn, there, receives), all) = ((λ e. cc), served-All more all)

-- One pass of `ConnectWait` counts all of them if and only if all are up.
count_connected-All :
    (is_up : ClientConn → Bool) (conns : List (Option ClientConn))
    → All (λ o. o ≢ none) conns
    → (n : ℕ) × (count_connected is_up conns ≡ ok n)
      × (n ≤ length conns)
      × ((n == length conns) ≡ all_to_nil is_up conns)
unfolding count_connected
count_connected-All is_up [] all = (0, refl, omega arith, refl)
count_connected-All is_up (none ∷ more) (ne, all) = absurd (ne refl)
count_connected-All is_up (some conn ∷ more) (ne, all) =
    let (n, counted, le, same) = count_connected-All is_up more all in
    elim (Bool-cases (is_up conn)) [
      | inl up ↦ (1 + n, ground (arith, counted, up), omega (arith, le), ground (arith, same, up))
      | inr down ↦ (n, ground (arith, counted, down), omega (arith, le), ground (arith, le, down))
    ]

-- With at least one thread, a key that `crypto` takes and a network in which every connection comes
-- up and lasts, `Start` sets up one connection for each thread, none of them nil, and counts each in `wg`.
-- Then `Stop` comes back if every `Close` does, and waits for ever if one of them does; and
-- `ConnectWait` returns in a pass that finds every connection up, and in no other.
pub start-IsStarted :
    (lib : Crypto) (net : Network) (key : Bytes) (aesgcm : Option Aead) (threads : ℕ)
    (returns is_up : ClientConn → Bool)
    → 0 < threads
    → crypto lib key none ≡ ok aesgcm
    → ((i : ℕ) → i < threads → Connects net i)
    → let (c, wg) = start lib net key (new_client threads) in
      IsStarted c
      × (wg ≡ threads)
      × ((stop returns c wg).0 ≡ (if all_to_nil returns c.conns then ok tt else err tt))
      × (connect_wait is_up c ≡ ok (all_to_nil is_up c.conns))
unfolding start new_client connect_wait stop
start-IsStarted lib net key aesgcm threads returns is_up some_threads keyed up =
    let (len, all, counted) =
      connect_all-started lib net key aesgcm 0 threads 0 keyed (λ i h. up i (omega arith)) in
    let conns = (connect_all lib net key 0 threads 0).0 in
    let there = served-All conns all in
    let (n, ups, le, same) = count_connected-All is_up conns there in
    let whole : (connect_all lib net key 0 threads 0).1 ≡ length conns =
      omega (arith, counted, len) in
    (
      record { some_threads = some_threads; all_there = len; connected = all },
      omega (arith, counted),
      rw whole (close_all-there returns conns there),
      ground (arith, len, ups, same),
    )

close_all-nil :
    (returns : ClientConn → Bool) (conns : List (Option ClientConn)) (wg : ℕ)
    → HasNil conns
    → present conns ≤ wg
    → ((close_all returns conns >> wait_all) wg).0
      ≡ (if all_to_nil returns conns then panic nil_dereference else err tt)
unfolding close_all done
close_all-nil returns [] wg h le = absurd h
close_all-nil returns (none ∷ more) wg h le = refl
close_all-nil returns (some conn ∷ more) wg h le =
    ground (arith, close_all-nil returns more (wg - 1) h (omega arith))

count_connected-nil :
    (is_up : ClientConn → Bool) (conns : List (Option ClientConn))
    → HasNil conns
    → count_connected is_up conns ≡ panic nil_dereference
unfolding count_connected
count_connected-nil is_up [] h = absurd h
count_connected-nil is_up (none ∷ more) h = refl
count_connected-nil is_up (some conn ∷ more) h = ground (arith, count_connected-nil is_up more h)

-- When the dial of one connection, or the opening of its stream, reports an error, `Start` keeps the
-- nil of its slot in `conns`. Then `Stop` never comes back: it dereferences the nil and panics if
-- each `Close` before the first nil comes back, and waits for ever if one does not. And every pass of
-- `ConnectWait` dereferences the nil and panics, whichever connections are up.
pub stop-refused :
    (lib : Crypto) (net : Network) (key : Bytes) (threads i : ℕ) (returns is_up : ClientConn → Bool)
    → i < threads
    → Refuses net i
    → let (c, wg) = start lib net key (new_client threads) in
      ((stop returns c wg).0
        ≡ (if all_to_nil returns c.conns then panic nil_dereference else err tt))
      × (connect_wait is_up c ≡ panic nil_dereference)
unfolding start new_client connect_wait stop
stop-refused lib net key threads i returns is_up lt refused =
    let conns = (connect_all lib net key 0 threads 0).0 in
    let has_nil =
      connect_all-refused lib net key 0 threads 0 i (omega arith) (omega arith) refused in
    (
      close_all-nil returns conns (connect_all lib net key 0 threads 0).1 has_nil
          (omega (arith, connect_all-present lib net key 0 threads 0)),
      ground (arith, count_connected-nil is_up conns has_nil),
    )
