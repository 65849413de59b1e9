-- ===== src/App/Shared/Streams.antt =====
-- Whoever holds a connection holds one with its stream, and no object loses its stream.
use qtun.Base.{
  ◌≡◌, ◌≢◌, sym, ite, Option, none, some, List, [], ◌∷◌, ◌++◌, All, ℕ_discrete, Bytes, ℕ_key,
  bytes_key,
}
use mathlib.Core.Path.{subst}
use qtun.Transport.ServerConn.{ServerConn}
use qtun.Transport.Server.{ConnId, Server, update}
use qtun.Transport.Server.Registry.{IsRegistry}
use qtun.App.Shared.{
  Place, fetching, resting, looking, picked, holding, sending, forgetting, unregistering, Shared,
}

-- Whoever holds a connection holds one with its stream.
abbrev pub HasStream : (ConnId → ServerConn) → Place → Type 0
HasStream heap (holding job dst addr c) = (heap c).conn ≢ none
HasStream heap (sending pkt c) = (heap c).conn ≢ none
HasStream heap _ = Unit {0}

abbrev pub HolderStream : (ConnId → ServerConn) → Option (Bytes × ConnId) → Type 0
HolderStream heap none = Unit {0}
HolderStream heap (some (addr, c)) = (heap c).conn ≢ none

pub record IsConsistent (s : Shared) : Type 0 where
  pub registry : IsRegistry s.app.server
  pub streams : All (HasStream s.app.server.heap) s.places
  pub holder_stream : HolderStream s.app.server.heap s.holder

-- No object loses its stream.
abbrev pub Keeps : (ConnId → ServerConn) → (ConnId → ServerConn) → Type 0
Keeps heap heap' = (c : ConnId) → (heap c).conn ≢ none → (heap' c).conn ≢ none

HasStream-Keeps :
    (heap heap' : ConnId → ServerConn) (p : Place)
    → Keeps heap heap'
    → HasStream heap p
    → HasStream heap' p
HasStream-Keeps heap heap' (holding job dst addr c) k h = k c h
HasStream-Keeps heap heap' (sending pkt c) k h = k c h
HasStream-Keeps heap heap' fetching k h = tt
HasStream-Keeps heap heap' resting k h = tt
HasStream-Keeps heap heap' (looking pkt dst) k h = tt
HasStream-Keeps heap heap' (picked job dst addr) k h = tt
HasStream-Keeps heap heap' (forgetting job dst addr) k h = tt
HasStream-Keeps heap heap' (unregistering job dst addr) k h = tt

pub All-Keeps :
    (heap heap' : ConnId → ServerConn) (ps : List Place)
    → Keeps heap heap'
    → All (HasStream heap) ps
    → All (HasStream heap') ps
All-Keeps heap heap' [] k all = tt
All-Keeps heap heap' (p ∷ ps) k (h, all) =
    (HasStream-Keeps heap heap' p k h, All-Keeps heap heap' ps k all)

pub HolderStream-Keeps :
    (heap heap' : ConnId → ServerConn) (o : Option (Bytes × ConnId))
    → Keeps heap heap'
    → HolderStream heap o
    → HolderStream heap' o
HolderStream-Keeps heap heap' none k h = tt
HolderStream-Keeps heap heap' (some (addr, c)) k h = k c h

pub Keeps-update :
    (heap : ConnId → ServerConn) (c : ConnId) (object : ServerConn)
    → object.conn ≢ none
    → Keeps heap (update heap c object)
Keeps-update heap c object there d h =
    elim (ℕ_discrete c d) as (λ x. (ite x object (heap d)).conn ≢ none) [
      | yes same ↦ there
      | no other ↦ h
    ]

pub Keeps-same : (heap heap' : ConnId → ServerConn) → heap' ≡ heap → Keeps heap heap'
Keeps-same heap heap' e c h = subst (λ (f : ConnId → ServerConn). (f c).conn ≢ none) (sym e) h

pub update-IsRegistry :
    (s : Server) (c : ConnId) (object : ServerConn)
    → object.conn ≢ none
    → IsRegistry s
    → IsRegistry (record s { heap = update s.heap c object })
update-IsRegistry s c object there v = record {
  inverse = v.inverse;
  streams = λ dst d h. Keeps-update s.heap c object there d (v.streams dst d h);
}

-- The places before and after one of them.
pub All-split {ℓ} :
    {A : Type ℓ} (P : A → Type 0) (before after : List A) (x : A)
    → All P (before ++ (x ∷ after))
    → All P before × P x × All P after
All-split P [] after x (p, all) = (tt, p, all)
All-split P (y ∷ before) after x (q, all) =
    let (left, p, right) = All-split P before after x all in ((q, left), p, right)
