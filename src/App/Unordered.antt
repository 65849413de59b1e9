-- ===== src/App/Unordered.antt =====
-- Go ranges over a map in any order: what the order does not matter for.
use qtun.Base.{
  ℕ, ◌≡◌, refl, sym, ap, ◌∙◌, inl, inr, ite, Bool, true, false, Option, none, some, [], ◌∷◌, arith,
  bytes_discrete, Bool-cases, Bytes, ℕ_key, bytes_key,
}
use qtun.Base.Map.{lookup}
use qtun.Transport.Server.{Server}
use qtun.Transport.Server.Registry.{IsRegistry}
use qtun.Iface.{PacketIp}
use qtun.Protocol.{Codec}
use qtun.App.{
  Addrs, keys, App, is_dead, Verdict, sent, dropped, out_of_fuel, forward, route_fuel, clean_route,
}
use qtun.App.Routes.{any_live}
use qtun.App.Clean.{in_route, clean_route_lem}
use qtun.App.Receive.{any_live-in_route}
use qtun.App.Forward.{Answers, addrs_of, route_addrs, forward-Answers}

-- Two applications with the same addresses in each route, and the same addresses dead. The order in
-- which their maps list them may differ.
pub record IsSameMaps (app app' : App) : Type 0 where
  pub routes : (d a : Bytes) → in_route (lookup d app.routes) a ≡ in_route (lookup d app'.routes) a
  pub dead : (a : Bytes) → is_dead app.server a ≡ is_dead app'.server a

any_live-exists :
    (s : Server) (conns : Addrs)
    → any_live s (keys conns) ≡ true
    → (a : Bytes) × (lookup a conns ≡ some tt) × (is_dead s a ≡ false)
unfolding lookup
any_live-exists s [] h = absurd (cc)
any_live-exists s ((b, u) ∷ rest) h = elim (Bool-cases (is_dead s b)) [
  | inr live ↦ (b, ground arith, live)
  | inl dead ↦
      let (a, there, live) = any_live-exists s rest (ground arith) in
      (
        a,
        elim (bytes_discrete b a) as (λ d. ite d (some u) (lookup a rest) ≡ some tt) [
          | yes same ↦ refl
          | no other ↦ there
        ],
        live,
      )
]

any_live-route :
    (s : Server) (o : Option Addrs)
    → any_live s (addrs_of o) ≡ true
    → (a : Bytes) × (in_route o a ≡ some tt) × (is_dead s a ≡ false)
any_live-route s none h = absurd (cc)
any_live-route s (some conns) h = any_live-exists s conns h

any_live-one_way :
    (app app' : App) (dst : Bytes)
    → IsSameMaps app app'
    → any_live app.server (route_addrs dst app) ≡ true
    → any_live app'.server (route_addrs dst app') ≡ true
any_live-one_way app app' dst v h =
    let (a, there, live) = any_live-route app.server (lookup dst app.routes) h in
    any_live-in_route app'.server a (lookup dst app'.routes) (sym (v.routes dst a) ∙ there)
      (sym (v.dead a) ∙ live)

IsSameMaps-sym : (app app' : App) → IsSameMaps app app' → IsSameMaps app' app
IsSameMaps-sym app app' v = record {
  routes = λ d a. sym (v.routes d a);
  dead = λ a. sym (v.dead a);
}

any_live-IsSameMaps :
    (app app' : App) (dst : Bytes)
    → IsSameMaps app app'
    → any_live app.server (route_addrs dst app) ≡ any_live app'.server (route_addrs dst app')
any_live-IsSameMaps app app' dst v = elim (Bool-cases (any_live app.server (route_addrs dst app))) [
  | inl e ↦ e ∙ sym (any_live-one_way app app' dst v e)
  | inr e ↦ elim (Bool-cases (any_live app'.server (route_addrs dst app'))) [
    | inl f ↦ any_live-one_way app' app dst (IsSameMaps-sym app app' v) f ∙ sym f
    | inr f ↦ e ∙ sym f
  ]
]

abbrev pub is_sent : Verdict → Bool
is_sent (sent c) = true
is_sent dropped = false
is_sent out_of_fuel = false

Answers-is_sent : (b : Bool) (v : Verdict) → Answers b v → is_sent v ≡ b
Answers-is_sent true v (c, e) = ap is_sent e
Answers-is_sent false v e = ap is_sent e

-- For two applications whose maps agree, in whichever order they list their entries, and for any
-- random numbers: the loop over a packet sends it at the one if and only if it sends it at the other;
-- and after a run of the cleaning task their maps agree still. The registries are consistent.
pub forward-unordered :
    (codec : Codec) (rand rand' : ℕ → ℕ) (pkt : PacketIp) (dst : Bytes) (app app' : App)
    → IsRegistry app.server
    → IsRegistry app'.server
    → IsSameMaps app app'
    → (is_sent (forward (route_fuel dst app) rand codec pkt dst app).0
        ≡ is_sent (forward (route_fuel dst app') rand' codec pkt dst app').0)
      × IsSameMaps (clean_route app) (clean_route app')
forward-unordered codec rand rand' pkt dst app app' r r' v = (
  Answers-is_sent _ _ (forward-Answers rand codec pkt dst app)
      ∙ any_live-IsSameMaps app app' dst v
      ∙ sym (Answers-is_sent _ _ (forward-Answers rand' codec pkt dst app')),
  record {
    routes = λ d a. ground (
      arith,
      (clean_route_lem app d a r).0,
      (clean_route_lem app' d a r').0,
      v.routes d a,
      v.dead a,
    );
    dead = λ a. (clean_route_lem app a a r).1 ∙ v.dead a ∙ sym (clean_route_lem app' a a r').1;
  },
)
