-- ===== src/Base/Outcome.antt =====
-- What a Go call comes back with: a value, an error, or a panic; and calls that change a state.
use mathlib.Core.Path.{◌≡◌, refl}
use mathlib.Core.Logic.{◌⊎◌, inl, inr}

pub data Panic : Type 0 where
  index_out_of_range nil_dereference divide_by_zero raised : Panic

pub data Result {ℓ κ} (E : Type ℓ) (A : Type κ) : Type (ℓ ⊔ κ) where
  ok : A → Result E A
  err : E → Result E A
  panic : Panic → Result E A

-- A call over a state `S`. What it did to the state stays done when it fails.
abbrev pub Action {ℓ κ μ} : Type ℓ → Type κ → Type μ → Type (ℓ ⊔ κ ⊔ μ)
Action S E A = S → Result E A × S

abbrev pub and_then {ℓ κ μ ν} :
    {S : Type ℓ} {E : Type κ} {A : Type μ} {B : Type ν}
    → Result E A × S
    → (A → Action S E B)
    → Result E B × S
and_then (ok a, s) f = f a s
and_then (err e, s) f = (err e, s)
and_then (panic p, s) f = (panic p, s)

infixl 5 ◌>>=◌ ◌>>◌
abbrev pub ◌>>=◌ {ℓ κ μ ν} :
    {S : Type ℓ} {E : Type κ} {A : Type μ} {B : Type ν}
    → Action S E A
    → (A → Action S E B)
    → Action S E B
◌>>=◌ m f s = and_then (m s) f

abbrev pub ◌>>◌ {ℓ κ μ} :
    {S : Type ℓ} {E : Type κ} {B : Type μ} → Action S E (Unit {0}) → Action S E B → Action S E B
m >> k = m >>= λ _. k

abbrev pub pure {ℓ κ μ} : {S : Type ℓ} {E : Type κ} {A : Type μ} → A → Action S E A
pure a s = (ok a, s)

abbrev pub fail {ℓ κ μ} : {S : Type ℓ} {E : Type κ} {A : Type μ} → E → Action S E A
fail e s = (err e, s)

-- `fmt.Errorf("…: %v", err)` round a call's error.
abbrev pub wrapped {ℓ κ μ ν} :
    {S : Type ℓ} {E : Type κ} {F : Type ν} {A : Type μ} → (E → F) → Result E A × S → Result F A × S
wrapped f (ok a, s) = (ok a, s)
wrapped f (err e, s) = (err (f e), s)
wrapped f (panic p, s) = (panic p, s)

abbrev pub wrap {ℓ κ μ ν} :
    {S : Type ℓ} {E : Type κ} {F : Type ν} {A : Type μ} → (E → F) → Action S E A → Action S F A
wrap f m s = wrapped f (m s)

-- A sequence that succeeds went through its first part.
pub >>-eq-ok {ℓ κ μ} :
    {S : Type ℓ} {E : Type κ} {B : Type μ} (m : Result E (Unit {0}) × S) (k : Action S E B) {b : B}
    {s' : S}
    → and_then m (λ _. k) ≡ (ok b, s')
    → (s : S) × (m ≡ (ok tt, s)) × (k s ≡ (ok b, s'))
>>-eq-ok (ok u, s) k h = (s, refl, h)
>>-eq-ok (err e, s) k h = absurd (cc)
>>-eq-ok (panic p, s) k h = absurd (cc)

pub >>=-eq-ok {ℓ κ μ ν} :
    {S : Type ℓ} {E : Type κ} {A : Type μ} {B : Type ν} (m : Result E A × S) (f : A → Action S E B)
    {b : B} {s' : S}
    → and_then m f ≡ (ok b, s')
    → (a : A) × (s : S) × (m ≡ (ok a, s)) × (f a s ≡ (ok b, s'))
>>=-eq-ok (ok a, s) f h = (a, s, refl, h)
>>=-eq-ok (err e, s) f h = absurd (cc)
>>=-eq-ok (panic p, s) f h = absurd (cc)

pub wrapped-eq-ok {ℓ κ μ ν} :
    {S : Type ℓ} {E : Type κ} {F : Type ν} {A : Type μ} (f : E → F) (m : Result E A × S) {a : A}
    {s : S}
    → wrapped f m ≡ (ok a, s)
    → m ≡ (ok a, s)
wrapped-eq-ok f (ok a, s) h = cc
wrapped-eq-ok f (err e, s) h = absurd (cc)
wrapped-eq-ok f (panic p, s) h = absurd (cc)

-- Not an `ok`.
abbrev pub Fails {ℓ κ} : {E : Type ℓ} {A : Type κ} → Result E A → Type 0
Fails (ok a) = ⊥
Fails (err e) = Unit {0}
Fails (panic p) = Unit {0}

pub Fails-cases {ℓ κ} :
    {E : Type ℓ} {A : Type κ} (r : Result E A) → ((a : A) × (r ≡ ok a)) ⊎ Fails r
Fails-cases (ok a) = inl (a, refl)
Fails-cases (err e) = inr tt
Fails-cases (panic p) = inr tt
