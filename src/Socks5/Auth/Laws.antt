-- ===== src/Socks5/Auth/Laws.antt =====
-- Which method is negotiated, and who gets through.
use qtun.Base.{
  ℕ, ◌≡◌, refl, none, some, [], ◌∷◌, ◌++◌, append-nil, append_assoc, arith, if◌then◌else◌, length,
  All, Bytes, ℕ_key, bytes_key, ok, err,
}
use qtun.Stream.{Stream, read_byte, write}
use qtun.Stream.Laws.{read_full-append}
use qtun.Socks5.Wire.{user_auth_version, user_auth_failed, no_supported_auth}
use qtun.Socks5.Auth.{
  CredentialStore, Authenticator, answer_user_pass, read_user_pass, check_user_pass,
  authenticate_user_pass, run_authenticator, read_methods, no_acceptable_auth, AuthMethods,
  select_method, authenticate,
}
use qtun.Base.Map.{lookup}

abbrev Unknown : AuthMethods → ℕ → Type 0
Unknown m method = lookup method m ≡ none

select_method-Unknown :
    (m : AuthMethods) (before after : Bytes)
    → All (Unknown m) before
    → select_method m (before ++ after) ≡ select_method m after
unfolding select_method
select_method-Unknown m [] after h = refl
select_method-Unknown m (b ∷ before) after (h, hs) =
    rw (h, select_method) (select_method-Unknown m before after hs)

read_methods-list :
    (methods rest : Bytes) (s : Stream)
    → s.input ≡ length methods ∷ (methods ++ rest)
    → read_methods s ≡ (ok methods, record s { input = rest })
unfolding read_methods read_byte
read_methods-list methods rest s e =
    ground
      (arith, read_full-append (length methods) methods rest (record s { input = methods ++ rest }))

authenticate-list :
    (m : AuthMethods) (methods rest : Bytes) (s : Stream)
    → s.input ≡ length methods ∷ (methods ++ rest)
    → authenticate m s ≡ select_method m methods (record s { input = rest })
unfolding authenticate
authenticate-list m methods rest s e = rw (read_methods-list methods rest s e) refl

-- The server takes the first of the client's methods that it knows, in the client's order, and
-- goes on with that method's authenticator at the byte behind the list.
pub authenticate-first :
    (m : AuthMethods) (before after rest : Bytes) (method : ℕ) (a : Authenticator) (s : Stream)
    → All (Unknown m) before
    → lookup method m ≡ some a
    → let methods = before ++ (method ∷ after) in
      s.input ≡ length methods ∷ (methods ++ rest)
      → authenticate m s ≡ run_authenticator a (record s { input = rest })
unfolding select_method
authenticate-first m before after rest method a s unknown known e = ground (
  arith,
  authenticate-list m (before ++ (method ∷ after)) rest s e,
  select_method-Unknown m before (method ∷ after) unknown,
)

-- If it knows none of them it answers 5, 255 and gives up; that holds also where the answer cannot
-- be written.
pub authenticate-none :
    (m : AuthMethods) (methods rest : Bytes) (s : Stream)
    → All (Unknown m) methods
    → s.input ≡ length methods ∷ (methods ++ rest)
    → authenticate m s
      ≡ (err no_supported_auth, (write (5 ∷ 255 ∷ []) (record s { input = rest })).1)
unfolding select_method no_acceptable_auth
authenticate-none m methods rest s unknown e = ground (
  arith,
  append-nil methods,
  authenticate-list m methods rest s e,
  select_method-Unknown m methods [] unknown,
)

-- What a client sends for a user and a password (RFC 1929).
abbrev pub encode_credentials : Bytes → Bytes → Bytes
encode_credentials user pass = user_auth_version ∷ length user ∷ (user ++ (length pass ∷ pass))

-- On a connection whose writes succeed the sub-negotiation answers 5, 2 and then 1, 0 or 1, 1, by
-- the verdict of the credential store on what the client sent, and only a valid pair yields a
-- context, with the user's name in it.
pub authenticate_user_pass-encode :
    (valid : CredentialStore) (user pass rest : Bytes) (s : Stream)
    → s.faults ≡ []
    → s.input ≡ encode_credentials user pass ++ rest
    → authenticate_user_pass valid s ≡ (
        if valid user pass
        then (
          ok (record { method = 2; username = some user }),
          record s { input = rest; output = s.output ++ (5 ∷ 2 ∷ []) ++ (1 ∷ 0 ∷ []) },
        )
        else (
          err user_auth_failed,
          record s { input = rest; output = s.output ++ (5 ∷ 2 ∷ []) ++ (1 ∷ 1 ∷ []) },
        ))
unfolding authenticate_user_pass check_user_pass read_user_pass answer_user_pass write read_byte
authenticate_user_pass-encode valid user pass rest s fine e =
    let s1 : Stream = record s { output = s.output ++ (5 ∷ 2 ∷ []) } in
    let tail : Bytes = length pass ∷ pass in
    ground (
      arith,
      read_full-append 2 (user_auth_version ∷ length user ∷ []) ((user ++ tail) ++ rest) s1,
      append_assoc user tail rest,
      read_full-append (length user) user (tail ++ rest)
          (record s1 { input = user ++ (tail ++ rest) }),
      read_full-append (length pass) pass rest (record s1 { input = pass ++ rest }),
    )
