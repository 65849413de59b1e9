-- ===== src/Transport/Client/Pings/Restarts.antt =====
-- The restarts skip no turn.
use qtun.Base.{
  ℕ, zero, suc, ◌<◌, ◌≡◌, refl, sym, ◌∙◌, Option, none, some, List, [], ◌∷◌, arith, Option-cases,
  inl, inr, length, Result, ok, err, panic,
}
use mathlib.Core.Path.{subst}
use qtun.Protocol.{Codec}
use qtun.Transport.Client.{Client, PingEnv, send_all_ping}
use qtun.Transport.Client.Pings.{ping, keep_pinging}

-- Every turn calls `SendAllPing` once, up to a call that does not come back.
abbrev pub each_turn : Codec → List PingEnv → Client → Client
each_turn codec [] c = c
each_turn codec (env ∷ more) c = elim (send_all_ping codec env c).0 [
  | ok _ ↦ each_turn codec more (send_all_ping codec env c).1
  | err _ ↦ (send_all_ping codec env c).1
  | panic p ↦ each_turn codec more (send_all_ping codec env c).1
]

-- What one call of `ping` has done, and what it leaves.
abbrev Goes : Codec → List PingEnv → Client → Option (List PingEnv) → Client → Type 0
Goes codec envs c none c' = c' ≡ each_turn codec envs c
Goes codec envs c (some more) c' =
    (each_turn codec more c' ≡ each_turn codec envs c) × (length more < length envs)

Goes-on :
    (codec : Codec) (env : PingEnv) (more : List PingEnv) (c d : Client)
    (left : Option (List PingEnv)) (c' : Client)
    → each_turn codec (env ∷ more) c ≡ each_turn codec more d
    → Goes codec more d left c'
    → Goes codec (env ∷ more) c left c'
Goes-on codec env more c d none c' e g = g ∙ sym e
Goes-on codec env more c d (some rest) c' e (g, lt) = (g ∙ sym e, omega (arith, lt))

abbrev Left : Codec → List PingEnv → Client → Option (List PingEnv) × Client → Type 0
Left codec envs c r = Goes codec envs c r.0 r.1

turn-Left :
    (codec : Codec) (env : PingEnv) (more : List PingEnv) (c : Client)
    (r : Result (Unit {0}) (Unit {0}) × Client)
    → send_all_ping codec env c ≡ r
    → Left codec more r.1 (ping codec more r.1)
    → Left codec (env ∷ more) c (ping codec (env ∷ more) c)
unfolding ping
turn-Left codec env more c (ok u, d) e rest =
    subst (Left codec (env ∷ more) c) (sym (ground (arith, e)))
      (Goes-on codec env more c d _ _ (ground (arith, e)) rest)
turn-Left codec env more c (err u, d) e rest =
    let stops : Goes codec (env ∷ more) c none d = ground (arith, e) in
    subst (Left codec (env ∷ more) c) {x = (none, d)} (sym (ground (arith, e))) stops
turn-Left codec env more c (panic p, d) e rest =
    let panicked : Goes codec (env ∷ more) c (some more) d = (ground (arith, e), omega arith) in
    subst (Left codec (env ∷ more) c) {x = (some more, d)} (sym (ground (arith, e))) panicked

ping-Left :
    (codec : Codec) (envs : List PingEnv) (c : Client) → Left codec envs c (ping codec envs c)
unfolding ping
ping-Left codec [] c = refl
ping-Left codec (env ∷ more) c =
    turn-Left codec env more c (send_all_ping codec env c) refl
      (ping-Left codec more (send_all_ping codec env c).1)

-- Whichever of the turns panic, every one of them is taken, up to one that waits for ever.
pub keep_pinging-each :
    (fuel : ℕ) (codec : Codec) (envs : List PingEnv) (c : Client)
    → length envs < fuel
    → keep_pinging fuel codec envs c ≡ each_turn codec envs c
unfolding keep_pinging
keep_pinging-each zero codec envs c enough = absurd (omega arith)
keep_pinging-each (suc fuel) codec envs c enough = elim (Option-cases (ping codec envs c).0) [
  | inl e ↦
      let done =
        subst (λ o. Goes codec envs c o (ping codec envs c).1) e (ping-Left codec envs c) in
      ground (arith, done)
  | inr (more, e) ↦
      let (rest, lt) =
        subst (λ o. Goes codec envs c o (ping codec envs c).1) e (ping-Left codec envs c) in
      ground
        (arith, keep_pinging-each fuel codec more (ping codec envs c).1 (omega (arith, lt)), rest)
]
