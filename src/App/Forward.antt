-- ===== src/App/Forward.antt =====
-- The server's loop over one packet: it ends, it sends exactly if the route has a live connection,
-- and what it sends goes to one such connection alone.
use qtun.Base.{
  ℕ, zero, suc, ◌%◌, ◌<◌, ◌≡◌, refl, sym, ap, ◌∙◌, inl, inr, Bool, true, false, Option, none, some,
  List, [], ◌∷◌, arith, Bool-cases, Option-cases, length, get_elem?, Bytes, ℕ_key, bytes_key,
}
use qtun.Base.Map.{lookup, delete, lookup-insert}
use qtun.Transport.Server.{ConnId, get_conns_by_addr, delete_dead_conn}
use qtun.Iface.{PacketIp}
use qtun.Protocol.{Codec}
use qtun.App.{
  Addrs, keys, App, is_dead, send_packet, Verdict, sent, dropped, forget, forward, route_fuel,
  fuel_of,
}
use mathlib.Core.Path.{subst, subst₂}
use qtun.App.Routes.{
  any_live, any_live-forget, length-keys-delete, lookup-get_elem?, any_live-get_elem?, get_elem?-lt,
  lookup-delete-some, get_conns_by_addr-delete_dead_conn, heap-delete_dead_conn,
}

-- What the loop comes to, by whether the route has a live connection.
abbrev pub Answers : Bool → Verdict → Type 0
Answers true v = (c : ConnId) × (v ≡ sent c)
Answers false v = v ≡ dropped

-- One round, on a route that is there.
forward_empty :
    (fuel : ℕ) (rand : ℕ → ℕ) (codec : Codec) (pkt : PacketIp) (dst : Bytes) (app : App)
    → lookup dst app.routes ≡ some []
    → forward (suc fuel) rand codec pkt dst app ≡ (dropped, app)
unfolding forward
forward_empty fuel rand codec pkt dst app e = ground arith

module _ (fuel : ℕ) (rand : ℕ → ℕ) (codec : Codec) (pkt : PacketIp) (dst : Bytes) (app : App)
    (conns : Addrs) (addr : Bytes) (here : lookup dst app.routes ≡ some conns)
    (pick : get_elem? (keys conns) (rand fuel % length (keys conns)) ≡ some addr) where
  pub forward_dead :
      is_dead app.server addr ≡ true
      → forward (suc fuel) rand codec pkt dst app
        ≡ forward fuel rand codec pkt dst (forget dst conns addr app)
  unfolding forward
  forward_dead dead = ground arith

  pub forward_live :
      is_dead app.server addr ≡ false
      → (c : ConnId) × (get_conns_by_addr app.server addr ≡ some c)
        × ((app.server.heap c).is_closed ≡ false)
        × (forward (suc fuel) rand codec pkt dst app
            ≡ (sent c, record app { server = send_packet codec pkt c app.server }))
  unfolding forward is_dead
  forward_live live = elim (Option-cases (lookup addr app.server.conns)) [
    | inl e ↦ absurd (ground arith)
    | inr (c, e) ↦ (c, ground arith, ground arith, ground arith)
  ]

lookup-forget :
    (dst : Bytes) (conns : Addrs) (addr : Bytes) (app : App)
    → lookup dst (forget dst conns addr app).routes ≡ some (delete addr conns)
unfolding forget
lookup-forget dst conns addr app =
    ground (arith, lookup-insert dst dst (delete addr conns) app.routes)

forward-Answers_route :
    (fuel : ℕ) (rand : ℕ → ℕ) (codec : Codec) (pkt : PacketIp) (dst : Bytes) (app : App)
    (conns : Addrs)
    → lookup dst app.routes ≡ some conns
    → length (keys conns) < fuel
    → Answers (any_live app.server (keys conns)) (forward fuel rand codec pkt dst app).0
unfolding forget
forward-Answers_route zero rand codec pkt dst app conns here h = absurd (omega arith)
forward-Answers_route (suc fuel) rand codec pkt dst app [] here h =
    rw (forward_empty fuel rand codec pkt dst app here) refl
forward-Answers_route (suc fuel) rand codec pkt dst app (e ∷ es) here h =
    let conns : Addrs = e ∷ es in
    let (addr, pick) = get_elem?-lt (keys conns) (rand fuel % length (keys conns)) (omega arith) in
    elim (Bool-cases (is_dead app.server addr)) [
      | inl dead ↦ rw (forward_dead fuel rand codec pkt dst app conns addr here pick dead) (
          subst (λ b. Answers b (forward fuel rand codec pkt dst (forget dst conns addr app)).0)
            (any_live-forget app.server addr conns dead)
            (forward-Answers_route fuel rand codec pkt dst (forget dst conns addr app)
              (delete addr conns) (lookup-forget dst conns addr app)
              (omega (arith, length-keys-delete addr conns _ pick))))
      | inr live ↦
          let (c, at_addr, open_conn, e) =
            forward_live fuel rand codec pkt dst app conns addr here pick live in
          subst (λ b. Answers b (forward (suc fuel) rand codec pkt dst app).0)
            (sym (any_live-get_elem? app.server addr (keys conns) _ pick live))
            (c, ap (λ (t : Verdict × App). t.0) e)
    ]

pub forward_no_pick :
    (fuel : ℕ) (rand : ℕ → ℕ) (codec : Codec) (pkt : PacketIp) (dst : Bytes) (app : App)
    (conns : Addrs)
    → lookup dst app.routes ≡ some conns
    → get_elem? (keys conns) (rand fuel % length (keys conns)) ≡ none
    → forward (suc fuel) rand codec pkt dst app ≡ (dropped, app)
unfolding forward
forward_no_pick fuel rand codec pkt dst app conns here off = ground arith

-- The addresses that the routes hold for a destination.
abbrev pub addrs_of : Option Addrs → List Bytes
addrs_of none = []
addrs_of (some conns) = keys conns

abbrev pub route_addrs : Bytes → App → List Bytes
route_addrs dst app = addrs_of (lookup dst app.routes)

pub forward_no_route :
    (fuel : ℕ) (rand : ℕ → ℕ) (codec : Codec) (pkt : PacketIp) (dst : Bytes) (app : App)
    → lookup dst app.routes ≡ none
    → forward (suc fuel) rand codec pkt dst app ≡ (dropped, app)
unfolding forward
forward_no_route fuel rand codec pkt dst app e = ground arith

-- With one round more than the route has addresses, and whatever the random numbers are, the loop
-- ends: it sends the packet if some address of the destination's route leads to a connection that
-- is not closed, and drops it if none does.
pub forward-Answers :
    (rand : ℕ → ℕ) (codec : Codec) (pkt : PacketIp) (dst : Bytes) (app : App)
    → Answers
        (any_live app.server (route_addrs dst app))
        (forward (route_fuel dst app) rand codec pkt dst app).0
unfolding route_fuel
forward-Answers rand codec pkt dst app = of_route (lookup dst app.routes) refl
  where
    of_route :
        (o : Option Addrs)
        → lookup dst app.routes ≡ o
        → Answers (any_live app.server (addrs_of o)) (forward (fuel_of o) rand codec pkt dst app).0
    of_route none e = ap (λ (t : Verdict × App). t.0) (forward_no_route 0 rand codec pkt dst app e)
    of_route (some conns) e =
        forward-Answers_route (suc (length (keys conns))) rand codec pkt dst app conns e
          (omega arith)

-- What a packet that was sent went through: an address of the route, and the open connection that
-- the registry has for it, whose queue alone grew, by the marshalled packet.
pub record IsSent (codec : Codec) (pkt : PacketIp) (dst : Bytes) (app app' : App) (c : ConnId)
    : Type 0 where
  pub addr : Bytes
  pub conns : Addrs
  pub route : lookup dst app.routes ≡ some conns
  pub member : lookup addr conns ≡ some tt
  pub target : get_conns_by_addr app.server addr ≡ some c
  pub is_open : (app.server.heap c).is_closed ≡ false
  pub heap : app'.server.heap ≡ (send_packet codec pkt c app.server).heap
  pub written : app'.written ≡ app.written

-- What holds of a packet that went out after an address was forgotten holds of the whole loop.
IsSent-forget :
    (codec : Codec) (pkt : PacketIp) (dst addr : Bytes) (app app' : App) (c : ConnId)
    (conns : Addrs)
    → lookup dst app.routes ≡ some conns
    → IsSent codec pkt dst (forget dst conns addr app) app' c
    → IsSent codec pkt dst app app' c
unfolding forget send_packet
IsSent-forget codec pkt dst addr app app' c conns here v =
    let same : (delete_dead_conn app.server addr).heap ≡ app.server.heap =
      heap-delete_dead_conn app.server addr in
    let left : v.conns ≡ delete addr conns =
      ground (arith, v.route, lookup-insert dst dst (delete addr conns) app.routes) in
    record {
      addr = v.addr;
      conns = conns;
      route = here;
      member = lookup-delete-some v.addr addr conns (rw left at v.member);
      target = get_conns_by_addr-delete_dead_conn app.server addr v.addr c v.target;
      is_open = rw same at v.is_open;
      heap = rw same at v.heap;
      written = v.written;
    }

sent_same : (d c : ConnId) (a a' : App) → ◌≡◌ {A = Verdict × App} (sent d, a) (sent c, a') → d ≡ c
sent_same d c a a' same = cc

-- Whatever the fuel and the random numbers: a packet is only ever sent over an open connection that
-- the registry has for an address of the destination's route, and no other connection's queue
-- changes.
pub forward-IsSent :
    (fuel : ℕ) (rand : ℕ → ℕ) (codec : Codec) (pkt : PacketIp) (dst : Bytes) (app app' : App)
    (c : ConnId)
    → forward fuel rand codec pkt dst app ≡ (sent c, app')
    → IsSent codec pkt dst app app' c
forward-IsSent zero rand codec pkt dst app app' c e = unfold forward in absurd (ground arith)
forward-IsSent (suc fuel) rand codec pkt dst app app' c e =
    elim (Option-cases (lookup dst app.routes)) [
      | inl absent ↦ absurd (ground (arith, forward_no_route fuel rand codec pkt dst app absent))
      | inr (conns, here) ↦
          elim (Option-cases (get_elem? (keys conns) (rand fuel % length (keys conns)))) [
            | inl off ↦
                absurd (ground (arith, forward_no_pick fuel rand codec pkt dst app conns here off))
            | inr (addr, pick) ↦ elim (Bool-cases (is_dead app.server addr)) [
              | inl dead ↦ IsSent-forget codec pkt dst addr app app' c conns here (
                  forward-IsSent fuel rand codec pkt dst (forget dst conns addr app) app' c
                    (sym (forward_dead fuel rand codec pkt dst app conns addr here pick dead) ∙ e))
              | inr live ↦
                  let (d, at_addr, open_conn, out) =
                    forward_live fuel rand codec pkt dst app conns addr here pick live in
                  let app1 : App = record app { server = send_packet codec pkt d app.server } in
                  let same : ◌≡◌ {A = Verdict × App} (sent d, app1) (sent c, app') = sym out ∙ e in
                  subst₂ (λ a x. IsSent codec pkt dst app a x)
                    (ap (λ (t : Verdict × App). t.1) same) (sent_same d c app1 app' same)
                    (record {
                      addr = addr;
                      conns = conns;
                      route = here;
                      member = lookup-get_elem? addr conns _ pick;
                      target = at_addr;
                      is_open = open_conn;
                      heap = refl;
                      written = refl;
                    })
            ]
          ]
    ]
