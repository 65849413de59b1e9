-- ===== src/Socks5/Auth.antt =====
-- socks5/auth.go, and the authenticators that `New` of socks5/socks5.go installs.
pub mod Laws
pub mod Guarded
use qtun.Base.{
  ℕ, Bool, Option, none, some, List, ◌∷◌, ◌==◌, if◌then◌else◌, get_elem?, Bytes, ℕ_key, bytes_key,
  err, Action, pure, fail, wrap, [], ◌>>=◌, ◌>>◌,
}
use qtun.Stream.{Stream, IoError, read_byte, read_full, write}
use qtun.Socks5.Wire.{
  socks5_version, no_auth, no_acceptable, user_pass_auth, user_auth_version, auth_success,
  auth_failure, AuthContext, SocksError, io, user_auth_failed, no_supported_auth,
  unsupported_auth_version, auth_methods_unread, byte_at,
}
use qtun.Base.Map.{Map, lookup, insert}

-- A `CredentialStore`
abbrev pub CredentialStore : Type 0
CredentialStore = Bytes → Bytes → Bool

-- The two implementations of the `Authenticator` interface.
pub data Authenticator : Type 0 where
  no_auth_authenticator : Authenticator
  user_pass_authenticator : CredentialStore → Authenticator

-- `GetCode`
abbrev pub get_code : Authenticator → ℕ
get_code no_auth_authenticator = no_auth
get_code (user_pass_authenticator valid) = user_pass_auth

-- `Authenticate` of `NoAuthAuthenticator`
unfoldable pub authenticate_none : Action Stream SocksError AuthContext
authenticate_none = do
  wrap io (write (socks5_version ∷ no_auth ∷ []))
  pure (record { method = no_auth; username = none })

-- `Authenticate` of `UserPassAuthenticator`, from the verdict on.
unfoldable pub answer_user_pass : Bool → Bytes → Action Stream SocksError AuthContext
answer_user_pass accepted user =
    if accepted
    then (do
      wrap io (write (user_auth_version ∷ auth_success ∷ []))
      pure (record { method = user_pass_auth; username = some user }))
    else (do wrap io (write (user_auth_version ∷ auth_failure ∷ [])); fail user_auth_failed)

-- The same, behind the check of the version.
unfoldable pub read_user_pass : CredentialStore → ℕ → Action Stream SocksError AuthContext
read_user_pass valid user_len = do
  user ← wrap io (read_full user_len)
  pass_len ← wrap io read_byte
  pass ← wrap io (read_full pass_len)
  answer_user_pass (valid user pass) user

unfoldable pub check_user_pass : CredentialStore → Bytes → Action Stream SocksError AuthContext
check_user_pass valid header = do
  version ← byte_at header 0
  if version == user_auth_version
      then (do user_len ← byte_at header 1; read_user_pass valid user_len)
      else fail (unsupported_auth_version version)

unfoldable pub authenticate_user_pass : CredentialStore → Action Stream SocksError AuthContext
authenticate_user_pass valid = do
  wrap io (write (socks5_version ∷ user_pass_auth ∷ []))
  header ← wrap io (read_full 2)
  check_user_pass valid header

unfoldable pub run_authenticator : Authenticator → Action Stream SocksError AuthContext
run_authenticator no_auth_authenticator = authenticate_none
run_authenticator (user_pass_authenticator valid) = authenticate_user_pass valid

-- `readMethods`
unfoldable pub read_methods : Action Stream IoError Bytes
read_methods = do num_methods ← read_byte; read_full num_methods

-- `noAcceptableAuth` does not look at the outcome of its write.
unfoldable pub no_acceptable_auth : Action Stream SocksError AuthContext
no_acceptable_auth s = (err no_supported_auth, (write (socks5_version ∷ no_acceptable ∷ []) s).1)

abbrev pub AuthMethods : Type 0
AuthMethods = Map ℕ Authenticator

-- The loop over the client's methods.
unfoldable pub select_method : AuthMethods → Bytes → Action Stream SocksError AuthContext
select_method auth_methods [] = no_acceptable_auth
select_method auth_methods (method ∷ methods) =
    let rest = select_method auth_methods methods in
    elim (lookup method auth_methods) [ some cator ↦ run_authenticator cator | none ↦ rest ]

-- `authenticate`
unfoldable pub authenticate : AuthMethods → Action Stream SocksError AuthContext
authenticate auth_methods = do
  methods ← wrap auth_methods_unread read_methods
  select_method auth_methods methods

-- The authentication methods of `New`: those given, or else user and password if there is a store
-- of credentials, or else none.
unfoldable pub default_methods : List Authenticator → Option CredentialStore → List Authenticator
default_methods (a ∷ as') credentials = a ∷ as'
default_methods [] (some valid) = user_pass_authenticator valid ∷ []
default_methods [] none = no_auth_authenticator ∷ []

unfoldable pub install : List Authenticator → AuthMethods → AuthMethods
install [] m = m
install (a ∷ more) m = install more (insert (get_code a) a m)

-- `server.authMethods` after `New`
unfoldable pub new_auth_methods : List Authenticator → Option CredentialStore → AuthMethods
unfolding default_methods install
new_auth_methods given credentials = install (default_methods given credentials) []
