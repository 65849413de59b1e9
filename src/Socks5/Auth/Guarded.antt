-- ===== src/Socks5/Auth/Guarded.antt =====
-- Authentication against a store of credentials: who is let in.
use qtun.Base.{
  ℕ, ◌≡◌, refl, sym, ap, ◌∙◌, Bool, true, false, some, [], ◌∷◌, ◌++◌, append_assoc, arith,
  ℕ_discrete, length, Bytes, ℕ_key, bytes_key, ok, wrap, >>=-eq-ok, wrapped-eq-ok,
}
use qtun.Stream.{Stream, read_byte, read_full, write}
use qtun.Stream.Laws.{read_full-eq-ok, read_byte-eq-ok, input-write}
use qtun.Socks5.Wire.{user_auth_version, AuthContext, io, auth_methods_unread}
use qtun.Socks5.Auth.{
  CredentialStore, answer_user_pass, read_user_pass, check_user_pass, authenticate_user_pass,
  run_authenticator, read_methods, no_acceptable_auth, AuthMethods, select_method, authenticate,
  new_auth_methods,
}
use qtun.Base.Map.{lookup, insert}
use qtun.Socks5.Auth.Laws.{encode_credentials}

answer_user_pass-ok :
    (accepted : Bool) (user : Bytes) (s s' : Stream) (ctx : AuthContext)
    → answer_user_pass accepted user s ≡ (ok ctx, s')
    → (accepted ≡ true) × (ctx ≡ record { method = 2; username = some user }) × (s'.input ≡ s.input)
unfolding answer_user_pass
answer_user_pass-ok true user s s' ctx h =
    let (u, s1, wrote, done) = >>=-eq-ok (wrap io (write (1 ∷ 0 ∷ [])) s) _ h in
    let sent = wrapped-eq-ok io (write (1 ∷ 0 ∷ []) s) wrote in
    (refl, ground arith, ground (arith, sent, input-write (1 ∷ 0 ∷ []) s))
answer_user_pass-ok false user s s' ctx h =
    let (u, s1, wrote, done) = >>=-eq-ok (wrap io (write (1 ∷ 1 ∷ [])) s) _ h in
    absurd (ground arith)

-- Who got in: a user with a password that the store accepts.
abbrev pub LetIn : CredentialStore → AuthContext → Bytes → Bytes → Type 0
LetIn valid ctx user pass =
    (valid user pass ≡ true) × (ctx ≡ record { method = 2; username = some user })

-- What three reads took, put together.
joined :
    {before behind_user behind_len behind_pass after : Bytes} {n : ℕ} (user pass : Bytes)
    → before ≡ user ++ behind_user
    → behind_user ≡ n ∷ behind_len
    → behind_len ≡ pass ++ behind_pass
    → length pass ≡ n
    → after ≡ behind_pass
    → before ≡ user ++ (length pass ∷ (pass ++ after))
joined user pass in_user in_len in_pass fits quiet = cc

read_user_pass-ok :
    (valid : CredentialStore) (user_len : ℕ) (s s' : Stream) (ctx : AuthContext)
    → read_user_pass valid user_len s ≡ (ok ctx, s')
    → (user pass : Bytes) × LetIn valid ctx user pass
      × (length user ≡ user_len)
      × (s.input ≡ user ++ (length pass ∷ (pass ++ s'.input)))
unfolding read_user_pass
read_user_pass-ok valid user_len s s' ctx h =
    let (user, s1, got_user, h1) = >>=-eq-ok (wrap io (read_full user_len) s) _ h in
    let (pass_len, s2, got_len, h2) = >>=-eq-ok (wrap io read_byte s1) _ h1 in
    let (pass, s3, got_pass, h3) = >>=-eq-ok (wrap io (read_full pass_len) s2) _ h2 in
    let (accepted, named, quiet) = answer_user_pass-ok (valid user pass) user s3 s' ctx h3 in
    let (fits, in_user) =
      read_full-eq-ok user_len s (wrapped-eq-ok io (read_full user_len s) got_user) in
    let in_len = read_byte-eq-ok s1 (wrapped-eq-ok io (read_byte s1) got_len) in
    let (pass_fits, in_pass) =
      read_full-eq-ok pass_len s2 (wrapped-eq-ok io (read_full pass_len s2) got_pass) in
    (user, pass, (accepted, named), fits, joined user pass in_user in_len in_pass pass_fits quiet)

check_user_pass-ok :
    (valid : CredentialStore) (header : Bytes) (s s' : Stream) (ctx : AuthContext)
    → length header ≡ 2
    → check_user_pass valid header s ≡ (ok ctx, s')
    → (n : ℕ) × (header ≡ user_auth_version ∷ n ∷ []) × (read_user_pass valid n s ≡ (ok ctx, s'))
unfolding check_user_pass
check_user_pass-ok valid (a ∷ b ∷ []) s s' ctx two h = (b, ground arith, ground arith)
check_user_pass-ok valid [] s s' ctx two h = absurd (omega arith)
check_user_pass-ok valid (a ∷ []) s s' ctx two h = absurd (omega arith)
check_user_pass-ok valid (a ∷ b ∷ c ∷ more) s s' ctx two h = absurd (omega arith)

-- Nobody gets through the sub-negotiation without sending a pair that the store accepts, whichever
-- writes fail; the context then names that user.
pub authenticate_user_pass-valid :
    (valid : CredentialStore) (s s' : Stream) (ctx : AuthContext)
    → authenticate_user_pass valid s ≡ (ok ctx, s')
    → (user pass : Bytes) × LetIn valid ctx user pass
      × (s.input ≡ encode_credentials user pass ++ s'.input)
unfolding authenticate_user_pass
authenticate_user_pass-valid valid s s' ctx h =
    let (u, s1, wrote, h1) = >>=-eq-ok (wrap io (write (5 ∷ 2 ∷ [])) s) _ h in
    let (header, s2, got, h2) = >>=-eq-ok (wrap io (read_full 2) s1) _ h1 in
    let (two, in_header) = read_full-eq-ok 2 s1 (wrapped-eq-ok io (read_full 2 s1) got) in
    let (n, bytes, h3) = check_user_pass-ok valid header s2 s' ctx two h2 in
    let (user, pass, let_in, fits, behind) = read_user_pass-ok valid n s2 s' ctx h3 in
    let same : s1.input ≡ s.input =
      ground (arith, wrapped-eq-ok io (write (5 ∷ 2 ∷ []) s) wrote, input-write (5 ∷ 2 ∷ []) s) in
    (
      user,
      pass,
      let_in,
      sym same
          ∙ in_header
          ∙ ap (λ l. l ++ s2.input) bytes
          ∙ ap (λ t. user_auth_version ∷ n ∷ t)
              (behind ∙ sym (append_assoc user (length pass ∷ pass) s'.input))
          ∙ ap (λ m. user_auth_version ∷ m ∷ ((user ++ (length pass ∷ pass)) ++ s'.input))
              (sym fits),
    )

-- The authenticators that `New` installs for a store of credentials and no list of its own.
abbrev pub guarded : CredentialStore → AuthMethods
guarded valid = new_auth_methods [] (some valid)

select_method-guarded :
    (valid : CredentialStore) (methods : Bytes) (s s' : Stream) (ctx : AuthContext)
    → select_method (guarded valid) methods s ≡ (ok ctx, s')
    → authenticate_user_pass valid s ≡ (ok ctx, s')
unfolding select_method new_auth_methods no_acceptable_auth lookup insert run_authenticator
select_method-guarded valid [] s s' ctx h = absurd (ground arith)
select_method-guarded valid (m ∷ ms) s s' ctx h = elim (ℕ_discrete 2 m) [
  | yes two ↦ ground arith
  | no other ↦ select_method-guarded valid ms s s' ctx (ground arith)
]

-- What the client of a guarded server has sent when it is let in: its list of methods, and a pair.
abbrev pub opening : Bytes → Bytes → Bytes → Bytes
opening methods user pass = length methods ∷ (methods ++ encode_credentials user pass)

opened :
    {input behind_n behind_list pair : Bytes} {n : ℕ} (methods : Bytes)
    → input ≡ n ∷ behind_n
    → behind_n ≡ methods ++ behind_list
    → length methods ≡ n
    → behind_list ≡ pair
    → input ≡ length methods ∷ (methods ++ pair)
opened methods at_n at_list fits behind = cc

-- A server made by `New` with a store of credentials, and no authenticators of its own, lets nobody
-- past `authenticate` who has not sent, right behind the list of methods, a pair that the store
-- accepts: whatever methods are offered, and whichever writes fail. The context names that user,
-- and nothing but the list and the pair has been read.
pub authenticate-guarded :
    (valid : CredentialStore) (s s' : Stream) (ctx : AuthContext)
    → authenticate (guarded valid) s ≡ (ok ctx, s')
    → (methods user pass : Bytes) × LetIn valid ctx user pass
      × (s.input ≡ opening methods user pass ++ s'.input)
unfolding authenticate read_methods
authenticate-guarded valid s s' ctx h =
    let (methods, s2, got, h2) = >>=-eq-ok (wrap auth_methods_unread read_methods s) _ h in
    let (n, s1, got_n, got_methods) =
      >>=-eq-ok (read_byte s) _ (wrapped-eq-ok auth_methods_unread (read_methods s) got) in
    let (user, pass, let_in, behind) =
      authenticate_user_pass-valid valid s2 s' ctx
        (select_method-guarded valid methods s2 s' ctx h2) in
    let (fits, in_methods) = read_full-eq-ok n s1 got_methods in
    (
      methods,
      user,
      pass,
      let_in,
      opened methods (read_byte-eq-ok s got_n) in_methods fits behind
          ∙ ap (◌∷◌ (length methods))
              (sym (append_assoc methods (encode_credentials user pass) s'.input)),
    )
