-- ===== src/Transport/Client/Pings.antt =====
-- transport/client.go: `ping`, and the goroutine of `Start` that calls it again when it has ended.
pub mod Turns
pub mod Restarts
pub mod Rounds
use qtun.Base.{ℕ, zero, suc, Option, none, some, List, [], ◌∷◌, ok, err, panic}
use qtun.Protocol.{Codec}
use qtun.Transport.Client.{Client, PingEnv, send_all_ping}

-- `ping`, over the calls of `SendAllPing` that its ticker brings, each with the configuration and the
-- time that it finds. It ends in a panic only, which it recovers, with what is to come still; `none`
-- while it goes on, or when it waits for ever in a send, so that no further turn is taken.
unfoldable pub ping : Codec → List PingEnv → Client → Option (List PingEnv) × Client
ping codec [] c = (none, c)
ping codec (env ∷ more) c =
    let (outcome, c') = send_all_ping codec env c in
    let rest = ping codec more c' in
    elim outcome [ ok _ ↦ rest | err _ ↦ (none, c') | panic p ↦ (some more, c') ]

-- The loop of the goroutine, on fuel: one more than there are turns to come is enough.
unfoldable pub keep_pinging : ℕ → Codec → List PingEnv → Client → Client
keep_pinging zero codec envs c = c
keep_pinging (suc fuel) codec envs c =
    let (left, c') = ping codec envs c in
    elim left [ none ↦ c' | some more ↦ keep_pinging fuel codec more c' ]
