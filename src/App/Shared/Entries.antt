-- ===== src/App/Shared/Entries.antt =====
-- How many addresses the routes have, and what taking one off does to that.
use qtun.Base.{
  ℕ, ◌+◌, ◌≤◌, ◌<◌, ◌≡◌, inl, inr, ite, none, some, [], ◌∷◌, arith, bytes_discrete, Option-cases,
  length, get_elem?, Bytes, ℕ_key, bytes_key,
}
use qtun.Base.Map.{lookup, insert, delete, lookup-delete}
use qtun.App.{Addrs, Routes, keys}
use qtun.App.Routes.{length-keys-delete, length-keys-delete_le}
use qtun.App.Shared.{drop_addr}

-- A sum over the routes.
abbrev pub total : (Bytes → Addrs → ℕ) → Routes → ℕ
total w [] = 0
total w ((dst, conns) ∷ more) = w dst conns + total w more

total-delete :
    (w : Bytes → Addrs → ℕ) (d : Bytes) (routes : Routes)
    → total w (delete d routes) ≤ total w routes
unfolding delete
total-delete w d [] = omega arith
total-delete w d ((dst, conns) ∷ more) = ground (arith, total-delete w d more)

total-lookup :
    (w : Bytes → Addrs → ℕ) (d : Bytes) (conns : Addrs) (routes : Routes)
    → lookup d routes ≡ some conns
    → w d conns + total w (delete d routes) ≤ total w routes
unfolding delete lookup
total-lookup w d conns [] e = absurd (cc)
total-lookup w d conns ((dst, first) ∷ more) e = elim (bytes_discrete dst d) [
  | yes same ↦
      let found : first ≡ conns = ground (arith, e) in
      let weighed : w dst first ≡ w d conns = cc in ground (arith, total-delete w d more)
  | no other ↦ ground (arith, total-lookup w d conns more)
]

-- Taking an address off does not add to a sum in which it did not count against its route.
total-drop_addr :
    (w : Bytes → Addrs → ℕ) (d a : Bytes) (routes : Routes)
    → ((conns : Addrs) → w d (delete a conns) ≤ w d conns)
    → total w (drop_addr d a routes) ≤ total w routes
unfolding drop_addr insert
total-drop_addr w d a routes less = elim (Option-cases (lookup d routes)) [
  | inl e ↦ ground arith
  | inr (conns, e) ↦ ground (arith, total-lookup w d conns routes e, less conns)
]

-- How many addresses the routes have, and how many without one of them.
abbrev pub entries : Routes → ℕ
entries = total λ dst conns. length (keys conns)

abbrev pub without : Bytes → Bytes → Bytes → Addrs → ℕ
without d a dst conns =
    ite (bytes_discrete dst d) (length (keys (delete a conns))) (length (keys conns))

abbrev pub entries_but : Bytes → Bytes → Routes → ℕ
entries_but d a = total (without d a)

delete-delete_le :
    (a b : Bytes) (conns : Addrs)
    → length (keys (delete a (delete b conns))) ≤ length (keys (delete a conns))
unfolding delete
delete-delete_le a b [] = omega arith
delete-delete_le a b ((c, u) ∷ rest) = ground (arith, delete-delete_le a b rest)

without-delete :
    (d a e b : Bytes) (conns : Addrs) → without d a e (delete b conns) ≤ without d a e conns
without-delete d a e b conns =
    ground (arith, delete-delete_le a b conns, length-keys-delete_le b conns)

pub entries_but-drop_addr :
    (d a e b : Bytes) (routes : Routes)
    → entries_but d a (drop_addr e b routes) ≤ entries_but d a routes
entries_but-drop_addr d a e b routes =
    total-drop_addr (without d a) e b routes (without-delete d a e b)

pub entries-drop_addr :
    (e b : Bytes) (routes : Routes) → entries (drop_addr e b routes) ≤ entries routes
entries-drop_addr e b routes =
    total-drop_addr (λ dst conns. length (keys conns)) e b routes (length-keys-delete_le b)

entries-absent :
    (d a : Bytes) (routes : Routes)
    → lookup d routes ≡ none
    → entries routes ≤ entries_but d a routes
unfolding lookup
entries-absent d a [] e = omega arith
entries-absent d a ((dst, conns) ∷ more) e = ground (arith, entries-absent d a more)

-- After it was taken off, no more are left than without it.
pub entries-dropped :
    (d a : Bytes) (routes : Routes) → entries (drop_addr d a routes) ≤ entries_but d a routes
unfolding drop_addr insert
entries-dropped d a routes = elim (Option-cases (lookup d routes)) [
  | inl e ↦ ground (arith, entries-absent d a routes e)
  | inr (conns, e) ↦ ground (
    arith,
    total-lookup (without d a) d conns routes e,
    entries-absent d a (delete d routes),
    lookup-delete d d routes,
  )
]

entries_but_le : (d a : Bytes) (routes : Routes) → entries_but d a routes ≤ entries routes
entries_but_le d a [] = omega arith
entries_but_le d a ((dst, conns) ∷ more) =
    ground (arith, entries_but_le d a more, length-keys-delete_le a conns)

pub entries_but-lt :
    (d a : Bytes) (conns : Addrs) (i : ℕ) (routes : Routes)
    → lookup d routes ≡ some conns
    → get_elem? (keys conns) i ≡ some a
    → entries_but d a routes < entries routes
unfolding lookup
entries_but-lt d a conns i [] e pick = absurd (cc)
entries_but-lt d a conns i ((dst, first) ∷ more) e pick = elim (bytes_discrete dst d) [
  | yes same ↦
      let found : first ≡ conns = ground (arith, e) in
      ground (arith, entries_but_le d a more, length-keys-delete a first i (cc))
  | no other ↦ ground (arith, entries_but-lt d a conns i more, length-keys-delete_le a first)
]
