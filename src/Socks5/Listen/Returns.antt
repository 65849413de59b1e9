-- ===== src/Socks5/Listen/Returns.antt =====
-- What Go's calls and the authentication come back with.
use qtun.Base.{
  ◌≡◌, ◌≤◌, take, drop, length-take_of_le, inl, inr, Bool, true, false, Bool-cases, none, some, [],
  ◌∷◌, ◌==◌, ltb, length, if◌then◌else◌, arith, Bytes, ℕ, Result, ok, err, panic, Action, and_then,
  wrapped, wrap, Option-cases, List-cases, ℕ_key, bytes_key,
}
use qtun.Base.Map.{lookup}
use qtun.Stream.{Stream, IoError, read_byte, read_full, write}
use qtun.Socks5.Wire.{io}
use qtun.Socks5.Auth.{
  Authenticator, no_auth_authenticator, user_pass_authenticator, authenticate_none,
  answer_user_pass, read_user_pass, check_user_pass, authenticate_user_pass, run_authenticator,
  read_methods, no_acceptable_auth, AuthMethods, select_method, authenticate,
}

-- Not a panic.
abbrev pub IsReturn {ℓ κ} : {E : Type ℓ} {A : Type κ} → Result E A → Type 0
IsReturn (ok a) = Unit {0}
IsReturn (err e) = Unit {0}
IsReturn (panic p) = ⊥

pub and_then-IsReturn {ℓ κ μ ν} :
    {S : Type ℓ} {E : Type κ} {A : Type μ} {B : Type ν} (r : Result E A × S) (f : A → Action S E B)
    → IsReturn r.0
    → ((a : A) (s : S) → IsReturn (f a s).0)
    → IsReturn (and_then r f).0
and_then-IsReturn (ok a, s) f h k = k a s
and_then-IsReturn (err e, s) f h k = tt
and_then-IsReturn (panic p, s) f h k = h

pub wrapped-IsReturn {ℓ κ μ ν} :
    {S : Type ℓ} {E : Type κ} {F : Type ν} {A : Type μ} (f : E → F) (r : Result E A × S)
    → IsReturn r.0
    → IsReturn (wrapped f r).0
wrapped-IsReturn f (ok a, s) h = tt
wrapped-IsReturn f (err e, s) h = tt
wrapped-IsReturn f (panic p, s) h = h

pub if-IsReturn {ℓ κ μ} :
    {S : Type ℓ} {E : Type κ} {A : Type μ} (b : Bool) (m k : Action S E A) (s : S)
    → IsReturn (m s).0
    → IsReturn (k s).0
    → IsReturn ((if b then m else k) s).0
if-IsReturn true m k s h g = h
if-IsReturn false m k s h g = g

read_byte-IsReturn : (s : Stream) → IsReturn (read_byte s).0
unfolding read_byte
read_byte-IsReturn s = elim (List-cases s.input) [
  | inl e ↦ ground arith
  | inr (b, rest, e) ↦ ground arith
]

read_full-IsReturn : (n : ℕ) (s : Stream) → IsReturn (read_full n s).0
unfolding read_full
read_full-IsReturn n s = elim (Bool-cases (ltb (length s.input) n)) [
  | inl e ↦ ground arith
  | inr e ↦ ground arith
]

pub write-IsReturn : (bytes : Bytes) (s : Stream) → IsReturn (write bytes s).0
unfolding write
write-IsReturn bytes s = elim (List-cases s.faults) [
  | inl e ↦ ground arith
  | inr (none, later, e) ↦ ground arith
  | inr (some f, later, e) ↦ ground arith
]

-- The calls of Go's `io`, with their errors wrapped.
pub read_byte-wrapped :
    {F : Type 0} (f : IoError → F) (s : Stream) → IsReturn (wrap f read_byte s).0
read_byte-wrapped f s = wrapped-IsReturn f (read_byte s) (read_byte-IsReturn s)

pub read_full-wrapped :
    {F : Type 0} (f : IoError → F) (n : ℕ) (s : Stream) → IsReturn (wrap f (read_full n) s).0
read_full-wrapped f n s = wrapped-IsReturn f (read_full n s) (read_full-IsReturn n s)

-- What follows a read of `n` bytes gets `n` bytes.
pub read-then :
    {A F : Type 0} (f : IoError → F) (n : ℕ) (s : Stream) (next : Bytes → Action Stream F A)
    → ((bytes : Bytes) (t : Stream) → length bytes ≡ n → IsReturn (next bytes t).0)
    → IsReturn (and_then (wrap f (read_full n) s) next).0
unfolding read_full
read-then f n s next after = elim (Bool-cases (ltb (length s.input) n)) [
  | inl short ↦ ground arith
  | inr enough ↦
      let fits : n ≤ length s.input = ground arith in
      ground (
        arith,
        after (take n s.input) (record s { input = drop n s.input })
            (length-take_of_le n s.input fits),
      )
]

pub write-wrapped :
    {F : Type 0} (f : IoError → F) (bytes : Bytes) (s : Stream)
    → IsReturn (wrap f (write bytes) s).0
write-wrapped f bytes s = wrapped-IsReturn f (write bytes s) (write-IsReturn bytes s)

-- Authentication.
answer_user_pass-IsReturn :
    (accepted : Bool) (user : Bytes) (s : Stream) → IsReturn (answer_user_pass accepted user s).0
unfolding answer_user_pass
answer_user_pass-IsReturn true user s =
    and_then-IsReturn (wrap io (write (1 ∷ 0 ∷ [])) s) _ (write-wrapped io _ s) (λ a t. tt)
answer_user_pass-IsReturn false user s =
    and_then-IsReturn (wrap io (write (1 ∷ 1 ∷ [])) s) _ (write-wrapped io _ s) (λ a t. tt)

-- The two bytes are there, so that no index is out of range.
check_user_pass-IsReturn :
    (valid : Bytes → Bytes → Bool) (header : Bytes) (s : Stream)
    → length header ≡ 2
    → IsReturn (check_user_pass valid header s).0
unfolding check_user_pass read_user_pass
check_user_pass-IsReturn valid [] s two = absurd (omega arith)
check_user_pass-IsReturn valid (a ∷ []) s two = absurd (omega arith)
check_user_pass-IsReturn valid (a ∷ b ∷ more) s two =
    if-IsReturn (a == 1) _ _ s
      (and_then-IsReturn _ _ (read_full-wrapped io b s) (λ user s3.
        and_then-IsReturn _ _ (read_byte-wrapped io s3) (λ n s4.
          and_then-IsReturn _ _ (read_full-wrapped io n s4)
            (λ pass s5. answer_user_pass-IsReturn (valid user pass) user s5))))
      tt

authenticate_user_pass-IsReturn :
    (valid : Bytes → Bytes → Bool) (s : Stream) → IsReturn (authenticate_user_pass valid s).0
unfolding authenticate_user_pass
authenticate_user_pass-IsReturn valid s =
    and_then-IsReturn _ _ (write-wrapped io _ s)
      (λ _ s1. read-then io 2 s1 _ (λ header s2 two. check_user_pass-IsReturn valid header s2 two))

run_authenticator-IsReturn : (a : Authenticator) (s : Stream) → IsReturn (run_authenticator a s).0
unfolding run_authenticator authenticate_none
run_authenticator-IsReturn no_auth_authenticator s =
    and_then-IsReturn _ _ (write-wrapped io _ s) (λ a t. tt)
run_authenticator-IsReturn (user_pass_authenticator valid) s =
    authenticate_user_pass-IsReturn valid s

select_method-IsReturn :
    (methods : AuthMethods) (ms : Bytes) (s : Stream) → IsReturn (select_method methods ms s).0
unfolding select_method no_acceptable_auth
select_method-IsReturn methods [] s = tt
select_method-IsReturn methods (m ∷ ms) s = elim (Option-cases (lookup m methods)) [
  | inl e ↦ ground (arith, select_method-IsReturn methods ms s)
  | inr (a, e) ↦ ground (arith, run_authenticator-IsReturn a s)
]

pub authenticate-IsReturn :
    (methods : AuthMethods) (s : Stream) → IsReturn (authenticate methods s).0
unfolding authenticate read_methods
authenticate-IsReturn methods s =
    and_then-IsReturn _ _
      (wrapped-IsReturn _ _
        (and_then-IsReturn _ _ (read_byte-IsReturn s) (λ n t. read_full-IsReturn n t)))
      (λ ms t. select_method-IsReturn methods ms t)
