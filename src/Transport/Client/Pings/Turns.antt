-- ===== src/Transport/Client/Pings/Turns.antt =====
-- A run of as many indices as there are threads comes to each thread once.
use qtun.Base.{
  ℕ, zero, suc, ◌+◌, ◌%◌, ◌<◌, ◌≡◌, refl, ap, ◌∙◌, ◌&&◌, List, [], ◌∷◌, ◌++◌, arith, length, ltb,
  leb, ◌==◌, if◌then◌else◌, Bytes,
}
use native.Mathlib.Nat.{add-mod_right, mod-eq_of_lt, mod_self}
use qtun.Transport.Client.Balance.{targets}

abbrev hit : ℕ → ℕ → ℕ
hit a i = if a == i then 1 else 0

-- How often `i` is among the remainders of the next `k` serial numbers.
abbrev hits : ℕ → ℕ → ℕ → ℕ → ℕ
hits n s zero i = 0
hits n s (suc k) i = hit ((s + 1) % n) i + hits n (s + 1) k i

hits-suc : (n s k i : ℕ) → hits n s (suc k) i ≡ hits n s k i + hit ((s + k + 1) % n) i
hits-suc n s zero i =
    let same : s + 1 ≡ s + 0 + 1 = omega arith in omega (arith, ap (λ m. hit (m % n) i) same)
hits-suc n s (suc k) i =
    let same : s + 1 + k + 1 ≡ s + suc k + 1 = omega arith in
    omega (arith, hits-suc n (s + 1) k i, ap (λ m. hit (m % n) i) same)

hits-shift : (n s i : ℕ) → hits n (s + 1) n i ≡ hits n s n i
hits-shift n s i =
    let same : (s + n + 1) % n ≡ (s + 1) % n =
      ap (λ m. m % n) (omega arith) ∙ add-mod_right (s + 1) n in
    omega (arith, hits-suc n s n i, ap (λ m. hit m i) same)

hits-any : (n s i : ℕ) → hits n s n i ≡ hits n 0 n i
hits-any n zero i = refl
hits-any n (suc s) i =
    let next : suc s ≡ s + 1 = omega arith in
    ap (λ t. hits n t n i) next ∙ hits-shift n s i ∙ hits-any n s i

hits_small : (n s k i : ℕ) → s + k < n → hits n s k i ≡ (if ltb s i && leb i (s + k) then 1 else 0)
hits_small n s zero i lt = ground arith
hits_small n s (suc k) i lt =
    let small : (s + 1) % n ≡ s + 1 = mod-eq_of_lt (omega arith) in
    ground (arith, hits_small n (s + 1) k i (omega arith), small)

hits-one : (n s i : ℕ) → i < n → hits n s n i ≡ 1
hits-one zero s i lt = absurd (omega arith)
hits-one (suc m) s i lt = ground (
  arith,
  hits-any (suc m) s i,
  hits-suc (suc m) 0 m i,
  hits_small (suc m) 0 m i (omega arith),
  mod_self (suc m),
)

-- How many messages were handed over to a connection.
abbrev pub count_to : ℕ → List (ℕ × Bytes) → ℕ
count_to i [] = 0
count_to i ((j, message) ∷ more) = hit j i + count_to i more

pub count_to-append :
    (i : ℕ) (xs ys : List (ℕ × Bytes)) → count_to i (xs ++ ys) ≡ count_to i xs + count_to i ys
count_to-append i [] ys = omega arith
count_to-append i ((j, m) ∷ xs) ys = omega (arith, count_to-append i xs ys)

count_to-targets :
    (n s i : ℕ) (ds : List Bytes) → count_to i (targets n s ds) ≡ hits n s (length ds) i
count_to-targets n s i [] = refl
count_to-targets n s i (d ∷ ds) = omega (arith, count_to-targets n (s + 1) i ds)

-- As many messages as there are threads: one for each connection.
pub count_to-one :
    (n s i : ℕ) (ds : List Bytes) → i < n → length ds ≡ n → count_to i (targets n s ds) ≡ 1
count_to-one n s i ds lt size =
    count_to-targets n s i ds ∙ ap (λ k. hits n s k i) size ∙ hits-one n s i lt
