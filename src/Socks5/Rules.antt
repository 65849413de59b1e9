-- ===== src/Socks5/Rules.antt =====
-- socks5/ruleset.go and socks5/credentials.go.
use qtun.Base.{
  ◌≡◌, ◌↔◌, ◌⊎◌, ite, Bool, true, false, none, some, arith, bytes_discrete, ◌==◌, if◌then◌else◌,
  Bytes, ℕ_key, bytes_key,
}
use qtun.Base.Map.{Map, lookup}
use qtun.Socks5.Wire.{connect_command, bind_command, associate_command, Request}

pub record PermitCommand : Type 0 where
  pub enable_connect : Bool
  pub enable_bind : Bool
  pub enable_associate : Bool

unfoldable pub permit_all : PermitCommand
permit_all = record { enable_connect = true; enable_bind = true; enable_associate = true }

unfoldable pub permit_none : PermitCommand
permit_none = record { enable_connect = false; enable_bind = false; enable_associate = false }

-- `Allow` (the context that it returns is the one that it was given)
unfoldable pub allow : PermitCommand → Request → Bool
allow p req =
    if req.command == connect_command
    then p.enable_connect
    else if req.command == bind_command
    then p.enable_bind
    else if req.command == associate_command
    then p.enable_associate
    else false

-- `StaticCredentials`
abbrev pub StaticCredentials : Type 0
StaticCredentials = Map Bytes Bytes

unfoldable pub valid : StaticCredentials → Bytes → Bytes → Bool
valid s user password = elim (lookup user s) [
  | none ↦ false
  | some pass ↦ ite (bytes_discrete password pass) true false
]

-- A rule set allows a request exactly if its command is one of the three and is enabled.
pub allow_iff :
    (p : PermitCommand) (req : Request)
    → (allow p req ≡ true) ↔ (
        ((req.command ≡ connect_command) × (p.enable_connect ≡ true))
        ⊎ (((req.command ≡ bind_command) × (p.enable_bind ≡ true))
            ⊎ ((req.command ≡ associate_command) × (p.enable_associate ≡ true))))
unfolding allow
allow_iff p req = ground arith

-- A static store accepts a pair exactly if it maps that user to that password.
pub valid_iff :
    (s : StaticCredentials) (user password : Bytes)
    → (valid s user password ≡ true) ↔ (lookup user s ≡ some password)
unfolding valid
valid_iff s user password = ground arith
