-- ===== src/App/SharedTests.antt =====
-- Runs in which the workers, the cleaning task, pings and connections interleave, and the theorems
-- at such runs.
use qtun.Base.{
  ◌≡◌, refl, true, false, none, some, [], ◌∷◌, ◌++◌, arith, replicate, text, ok, ℕ_key, bytes_key,
  bytes_discrete, ℕ_discrete,
}
use qtun.Base.Map.{lookup, insert}
use qtun.Transport.Server.{new_server, get_conns_by_addr, set_conns, register, update}
use qtun.Transport.Server.Registry.{IsRegistry}
use qtun.Transport.ServerConn.Life as Served
use qtun.Transport.Tests.{quiet}
use qtun.Transport.ConnTests.{served, served-Reach}
use qtun.App.{App, new_app, add_route, forward, route_fuel, clean_route}
use qtun.Transport.ServerConn.{new_server_conn}
use qtun.Iface.{get_source_ip, get_destination_ip, slice_ip, ip_string}
use qtun.App.Fetch.{destination}
use qtun.App.Clean.{in_route}
use qtun.App.Shared as Shared
use qtun.App.Shared.{
  Place, fetching, resting, looking, picked, forgetting, unregistering, packet, cleaning, Other,
  with_server,
}
use qtun.App.Shared.Consistent.{shared-IsRegistry}
use qtun.App.Shared.Undone.{ping_undone}
use qtun.App.Shared.Connections.{Step-moves}
use qtun.App.Unordered.{IsSameMaps, is_sent, forward-unordered}
use qtun.App.Tests.{mixed-IsRegistry, toy_codec, start, accepted, twenty, mixed}

-- A ping from `[5]` over the connection 3 is handled; meanwhile a worker reads a packet, and it looks
-- up the address after the registration.
abbrev pinged : App
pinged = record start {
  routes = (text "7.7.7.7", (5 ∷ [], tt) ∷ []) ∷ [];
  server = (set_conns (5 ∷ []) (some 3) start.server).1;
}

abbrev worker : Place
worker = picked (packet twenty) (text "7.7.7.7") (5 ∷ [])

abbrev routed : Shared.Shared
routed = record { app = pinged; places = resting ∷ worker ∷ replicate 10 fetching; holder = none }

routed-Reach : Shared.Reach toy_codec (Shared.start (new_app (new_server [] [] accepted))) routed
unfolding new_app new_server new_server_conn add_route set_conns register lookup insert destination
    get_source_ip get_destination_ip slice_ip ip_string bytes_discrete
routed-Reach =
    Shared.next
      (Shared.next
        (Shared.next
          (Shared.next Shared.here (Shared.pings (text "7.7.7.7") (5 ∷ []) 3 refl (λ e. cc)))
          (Shared.begins (resting ∷ []) (replicate 10 fetching) refl
            (Shared.reads twenty (text "7.7.7.7") refl)))
        (Shared.others (Shared.registers (5 ∷ []) 3 refl refl)))
      (Shared.turns (resting ∷ []) (replicate 10 fetching) refl
        (Shared.picks twenty (text "7.7.7.7") (5 ∷ []) ((5 ∷ [], tt) ∷ []) 0 refl refl refl))

shared-IsRegistry_example :
    IsRegistry routed.app.server × ((set_conns (6 ∷ []) (some 4) routed.app.server).0 ≡ ok tt)
shared-IsRegistry_example = shared-IsRegistry [] [] accepted (6 ∷ []) 4 routed-Reach

ping_undone_example :
    (t u : Shared.Shared) × Shared.Reach toy_codec
      (record {
        app = mixed;
        places =
            (resting ∷ [])
            ++ (forgetting (packet twenty) (1 ∷ []) (6 ∷ []) ∷ replicate 10 fetching);
        holder = none;
      })
      t
    × (in_route (lookup (1 ∷ []) t.app.routes) (6 ∷ []) ≡ some tt)
    × (get_conns_by_addr t.app.server (6 ∷ []) ≡ some 4)
    × (t.holder ≡ none)
    × Shared.Reach toy_codec t u
    × (in_route (lookup (1 ∷ []) u.app.routes) (6 ∷ []) ≡ none)
    × (get_conns_by_addr u.app.server (6 ∷ []) ≡ none)
unfolding get_conns_by_addr set_conns register new_server new_server_conn lookup insert
    bytes_discrete
ping_undone_example =
    ping_undone toy_codec twenty (1 ∷ []) (6 ∷ []) 4 (resting ∷ []) (replicate 10 fetching) mixed
      refl (λ e. cc)

-- The worker finds the connection, and the connection breaks before the worker looks whether it is
-- closed.
abbrev broken : App
broken =
    with_server
      (record pinged.server {
        heap = update pinged.server.heap 3 (record (accepted 3) { is_closed = true });
      })
      pinged

abbrev found : Shared.Shared
found = record {
  app = broken;
  places = resting ∷ forgetting (packet twenty) (text "7.7.7.7") (5 ∷ []) ∷ replicate 10 fetching;
  holder = none;
}

-- The connection 3 of the application is the one that `served` describes.
abbrev serving : Shared.Shared
serving = record routed {
  app =
      with_server (record pinged.server { heap = update pinged.server.heap 3 served.conn }) pinged;
}

Step-moves_example : Other serving (record serving {
  app =
      with_server
        (record serving.app.server {
          heap = update serving.app.server.heap 3 (Served.offer (7 ∷ []) served).conn;
        })
        serving.app;
})
unfolding ℕ_discrete
Step-moves_example =
    Step-moves (quiet (0 ∷ 0 ∷ 0 ∷ [])) (text "k") false 3 serving served-Reach
      (Served.offers (7 ∷ []) refl) refl

-- The routes of `mixed` in another order.
abbrev mixed_turned : App
mixed_turned = record mixed { routes = (1 ∷ [], (6 ∷ [], tt) ∷ (5 ∷ [], tt) ∷ []) ∷ [] }

mixed-IsSameMaps : IsSameMaps mixed mixed_turned
unfolding lookup
mixed-IsSameMaps = record { routes = λ d a. ground arith; dead = λ a. refl }

forward-unordered_example :
    (is_sent (forward (route_fuel (1 ∷ []) mixed) (λ n. 0) toy_codec twenty (1 ∷ []) mixed).0
      ≡ is_sent
          (forward
            (route_fuel (1 ∷ []) mixed_turned)
            (λ n. 1)
            toy_codec
            twenty
            (1 ∷ [])
            mixed_turned).0)
    × IsSameMaps (clean_route mixed) (clean_route mixed_turned)
forward-unordered_example =
    forward-unordered toy_codec (λ n. 0) (λ n. 1) twenty (1 ∷ []) mixed mixed_turned
      mixed-IsRegistry mixed-IsRegistry mixed-IsSameMaps
