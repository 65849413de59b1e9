-- ===== src/App/Shared/Consistent.antt =====
-- The registry under every interleaving.
use qtun.Base.{
  ◌≡◌, ◌≢◌, inl, inr, sym, ap, ◌∙◌, none, some, List, ◌∷◌, ◌++◌, arith, All, All-append,
  Option-cases, Bytes, ℕ_key, bytes_key, Result, ok,
}
use mathlib.Core.Path.{subst}
use qtun.Base.Map.{lookup}
use qtun.Transport.ServerConn.{ServerConn, Wait, enqueue}
use qtun.Transport.Server.{
  ConnId, Server, new_server, update, get_conns_by_addr, delete_dead_conn, set_conns,
  remove_conn_by_conn_pointer,
}
use qtun.Transport.Server.Registry.{
  IsRegistry, new_server-IsRegistry, delete_dead_conn-IsRegistry,
  remove_conn_by_conn_pointer-IsRegistry, set_conns-IsRegistry, set_conns_new, set_conns_taken,
}
use qtun.Protocol.{Codec, envelope_packet}
use qtun.App.{App, new_app, send_packet}
use qtun.App.Routes.{heap-delete_dead_conn}
use qtun.App.Receive.{heap-set_conns}
use qtun.App.Shared.{
  Job, packet, cleaning, Place, fetching, picked, holding, forgetting, Shared, start, at_open,
  at_dead, Turn, no_route, picks, finds_none, finds, is_shut, is_open, sends, forgets, unregisters,
  Begins, reads, comes_to, Other, registers, exits, moves, Step, turns, begins, others, pings,
  Reach, here, next,
}
use qtun.App.Shared.Streams.{
  HasStream, HolderStream, IsConsistent, Keeps, All-Keeps, HolderStream-Keeps, Keeps-update,
  Keeps-same, update-IsRegistry, All-split,
}

-- What a turn leaves.
record Leaves (s : Shared) (app : App) (p : Place) : Type 0 where
  registry : IsRegistry app.server
  keeps : Keeps s.app.server.heap app.server.heap
  stream : HasStream app.server.heap p

same-Leaves :
    (s : Shared) (p : Place)
    → IsRegistry s.app.server
    → HasStream s.app.server.heap p
    → Leaves s s.app p
same-Leaves s p v h = record { registry = v; keeps = λ c there. there; stream = h }

at_open-HasStream :
    (heap : ConnId → ServerConn) (job : Job) (c : ConnId)
    → (heap c).conn ≢ none
    → HasStream heap (at_open job c)
at_open-HasStream heap (packet pkt) c h = h
at_open-HasStream heap cleaning c h = tt

at_dead-HasStream :
    (heap : ConnId → ServerConn) (job : Job) (dst : Bytes) → HasStream heap (at_dead job dst)
at_dead-HasStream heap (packet pkt) dst = tt
at_dead-HasStream heap cleaning dst = tt

heap-remove : (s : Server) (c : ConnId) → (remove_conn_by_conn_pointer s c).heap ≡ s.heap
unfolding remove_conn_by_conn_pointer
heap-remove s c = ground arith

conn-enqueue : (payload : Bytes) (c : ServerConn) → (enqueue payload c).conn ≡ c.conn
unfolding enqueue
conn-enqueue payload c = ground arith

Turn-Leaves :
    {codec : Codec} {s : Shared} {here next : Place} {app : App}
    → Turn codec s here next app
    → IsRegistry s.app.server
    → HasStream s.app.server.heap here
    → Leaves s app next
unfolding send_packet
Turn-Leaves {s} (no_route pkt dst free gone) v h = same-Leaves s fetching v tt
Turn-Leaves {s} (picks pkt dst addr conns i free route pick) v h =
    same-Leaves s (picked (packet pkt) dst addr) v tt
Turn-Leaves {s} (finds_none job dst addr e) v h = same-Leaves s (forgetting job dst addr) v tt
Turn-Leaves {s} (finds job dst addr c e) v h =
    same-Leaves s (holding job dst addr c) v (unfold get_conns_by_addr in v.streams addr c e)
Turn-Leaves {s} (is_shut job dst addr c e) v h = same-Leaves s (forgetting job dst addr) v tt
Turn-Leaves {s} (is_open job dst addr c e) v h =
    same-Leaves s (at_open job c) v (at_open-HasStream s.app.server.heap job c h)
Turn-Leaves {codec} {s} (sends pkt c room) v h =
    let payload =
      codec.marshal (record { type = some (envelope_packet (record { payload = pkt })) }) in
    let object = enqueue payload (s.app.server.heap c) in
    let there : object.conn ≢ none =
      subst (λ o. o ≢ none) (sym (conn-enqueue payload (s.app.server.heap c))) h in
    record {
      registry = update-IsRegistry s.app.server c object there v;
      keeps = Keeps-update s.app.server.heap c object there;
      stream = tt;
    }
Turn-Leaves {s} (forgets job dst addr free) v h = record {
  registry = record { inverse = v.inverse; streams = v.streams };
  keeps = λ c there. there;
  stream = tt;
}
Turn-Leaves {s} (unregisters job dst addr) v h = record {
  registry = delete_dead_conn-IsRegistry s.app.server addr v;
  keeps =
      Keeps-same s.app.server.heap (delete_dead_conn s.app.server addr).heap
        (heap-delete_dead_conn s.app.server addr);
  stream = at_dead-HasStream (delete_dead_conn s.app.server addr).heap job dst;
}

-- The handler's `SetConns` finds the registry in order, so it neither panics nor waits.
pub set_conns-ok :
    (s : Server) (addr : Bytes) (c : ConnId) → IsRegistry s → (set_conns addr (some c) s).0 ≡ ok tt
set_conns-ok s addr c v = elim (Option-cases (lookup addr s.conns)) [
  | inl e ↦ ap (λ (r : Result Wait (Unit {0}) × Server). r.0) (set_conns_new s addr c e)
  | inr (o, e) ↦
      ap (λ (r : Result Wait (Unit {0}) × Server). r.0) (set_conns_taken s addr (some c) o v e)
]

replaced :
    (heap heap' : ConnId → ServerConn) (before after : List Place) (p q : Place)
    → Keeps heap heap'
    → HasStream heap' q
    → All (HasStream heap) (before ++ (p ∷ after))
    → All (HasStream heap') (before ++ (q ∷ after))
replaced heap heap' before after p q k h all =
    let (left, _, right) = All-split (HasStream heap) before after p all in
    All-append (HasStream heap') before (q ∷ after) (All-Keeps heap heap' before k left)
      (h, All-Keeps heap heap' after k right)

Other-IsConsistent : {s t : Shared} → Other s t → IsConsistent s → IsConsistent t
Other-IsConsistent {s} (registers addr c {server} held done) v =
    let heap = s.app.server.heap in
    let told : server ≡ (set_conns addr (some c) s.app.server).1 =
      ap (λ (r : Result Wait (Unit {0}) × Server). r.1) (sym done) in
    let k : Keeps heap server.heap =
      Keeps-same heap server.heap
        (ap (λ (x : Server). x.heap) told ∙ heap-set_conns s.app.server addr c v.registry) in
    let there : (heap c).conn ≢ none = subst (HolderStream heap) held v.holder_stream in
    record {
      registry =
          subst IsRegistry (sym told) (set_conns-IsRegistry s.app.server addr c v.registry there);
      streams = All-Keeps heap server.heap s.places k v.streams;
      holder_stream = tt;
    }
Other-IsConsistent {s} (exits c) v =
    let heap = s.app.server.heap in
    let server = remove_conn_by_conn_pointer s.app.server c in
    let k : Keeps heap server.heap = Keeps-same heap server.heap (heap-remove s.app.server c) in
    record {
      registry = remove_conn_by_conn_pointer-IsRegistry s.app.server c v.registry;
      streams = All-Keeps heap server.heap s.places k v.streams;
      holder_stream = HolderStream-Keeps heap server.heap s.holder k v.holder_stream;
    }
Other-IsConsistent {s} (moves c object there shut) v =
    let heap = s.app.server.heap in
    let k = Keeps-update heap c object there in
    record {
      registry = update-IsRegistry s.app.server c object there v.registry;
      streams = All-Keeps heap (update heap c object) s.places k v.streams;
      holder_stream = HolderStream-Keeps heap (update heap c object) s.holder k v.holder_stream;
    }

Begins-HasStream :
    {s : Shared} {p q : Place} → Begins s p q → (heap : ConnId → ServerConn) → HasStream heap q
Begins-HasStream (reads pkt dst e) heap = tt
Begins-HasStream (comes_to dst addr conns e f) heap = tt

Step-IsConsistent :
    {codec : Codec} {s t : Shared} → Step codec s t → IsConsistent s → IsConsistent t
Step-IsConsistent {s} (turns before after {p} {q} {app} at turn) v =
    let heap = s.app.server.heap in
    let all : All (HasStream heap) (before ++ (p ∷ after)) =
      subst (All (HasStream heap)) at v.streams in
    let l = Turn-Leaves turn v.registry (All-split (HasStream heap) before after p all).1 in
    record {
      registry = l.registry;
      streams = replaced heap app.server.heap before after p q l.keeps l.stream all;
      holder_stream = HolderStream-Keeps heap app.server.heap s.holder l.keeps v.holder_stream;
    }
Step-IsConsistent {s} (begins before after {p} {q} at begin) v =
    let heap = s.app.server.heap in
    record {
      registry = v.registry;
      streams =
          replaced heap heap before after p q (λ c there. there) (Begins-HasStream begin heap)
            (subst (All (HasStream heap)) at v.streams);
      holder_stream = v.holder_stream;
    }
Step-IsConsistent (others o) v = Other-IsConsistent o v
Step-IsConsistent (pings ip addr c free there) v = record {
  registry = record { inverse = v.registry.inverse; streams = v.registry.streams };
  streams = v.streams;
  holder_stream = there;
}

pub Reach-IsConsistent :
    {codec : Codec} {s t : Shared} → IsConsistent s → Reach codec s t → IsConsistent t
Reach-IsConsistent v here = v
Reach-IsConsistent v (next r st) = Step-IsConsistent st (Reach-IsConsistent v r)

pub start-IsConsistent :
    (public_addr key : Bytes) (heap : ConnId → ServerConn)
    → IsConsistent (start (new_app (new_server public_addr key heap)))
unfolding new_app
start-IsConsistent public_addr key heap = record {
  registry = new_server-IsRegistry public_addr key heap;
  streams = (tt, (tt, (tt, (tt, (tt, (tt, (tt, (tt, (tt, (tt, (tt, (tt, tt))))))))))));
  holder_stream = tt;
}

-- However the workers, the cleaning task, the pings, the ends of connections and the connections' own
-- goroutines interleave: the registry keeps its invariant, and a `SetConns` in any state that is
-- reached neither panics nor waits.
pub shared-IsRegistry :
    {codec : Codec} (public_addr key : Bytes) (heap : ConnId → ServerConn) {s : Shared}
    (addr : Bytes) (c : ConnId)
    → Reach codec (start (new_app (new_server public_addr key heap))) s
    → IsRegistry s.app.server × ((set_conns addr (some c) s.app.server).0 ≡ ok tt)
shared-IsRegistry public_addr key heap {s} addr c r =
    let v : IsConsistent s = Reach-IsConsistent (start-IsConsistent public_addr key heap) r in
    (v.registry, set_conns-ok s.app.server addr c v.registry)
