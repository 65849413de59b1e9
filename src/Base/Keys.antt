-- ===== src/Base/Keys.antt =====
-- Keys of Go's maps: types with decided equality. A Go string or byte slice is the list of its
-- bytes.
use Prim.Native.Nat.{ℕ}
use Prim.Native.Char.{code}
use Prim.Native.String.{String}
use mathlib.Core.Path.{refl}
use mathlib.Core.List.{List, [], ◌∷◌}
use native.Mathlib.Decide.{ℕ_discrete}

abbrev pub Bytes : Type 0
Bytes = List ℕ

-- The bytes of an ASCII text.
abbrev pub text : String → Bytes
text String.[] = []
text (String.◌∷◌ c s) = code c ∷ text s

unfoldable pub bytes_discrete : Discrete Bytes
unfolding ℕ_discrete
bytes_discrete [] [] = yes refl
bytes_discrete [] (y ∷ ys) = no λ e. cc
bytes_discrete (x ∷ xs) [] = no λ e. cc
bytes_discrete (x ∷ xs) (y ∷ ys) =
    let rest = bytes_discrete xs ys in
    elim (ℕ_discrete x y) [
      | yes p ↦ elim rest [ yes q ↦ yes (cc) | no q ↦ no λ e. q (cc) ]
      | no p ↦ no λ e. p (cc)
    ]

pub record Key (K : Type 0) : Type 0 where
  pub dec : Discrete K

instance abbrev pub ℕ_key : Key ℕ
ℕ_key = record { dec = ℕ_discrete }

instance abbrev pub bytes_key : Key Bytes
bytes_key = record { dec = bytes_discrete }
