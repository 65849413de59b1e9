-- ===== src/Iface/Device.antt =====
-- iface/iface.go: how the tunnel device is created and set up by the commands of the system.
pub mod Commands
use qtun.Base.{
  ℕ, Bool, Option, none, some, List, [], ◌∷◌, ◌++◌, if◌then◌else◌, Bytes, text, index_out_of_range,
  raised, Result, ok, err, panic, Action, pure, ◌>>◌,
}
use qtun.Iface.{ip_string}
use qtun.Transport.Client.{split}

-- What the system and Go's libraries do: `net.ParseCIDR` as the text of the IP and the mask,
-- `water.New` as the name of the device, `runtime.GOOS`, `strconv.Itoa`, and whether a command
-- succeeds.
pub record System : Type 0 where
  pub parse_cidr : Bytes → Option (Bytes × Bytes)
  pub new_device : Option Bytes
  pub is_darwin : Bool
  pub itoa : ℕ → Bytes
  pub succeeds : List Bytes → Bool

pub record Iface : Type 0 where
  pub ip : Bytes
  pub mtu : ℕ
  -- The device's name, once there is one.
  pub ifce : Option Bytes
  -- The commands that were run, in order.
  pub commands : List (List Bytes)

-- `New`; the name that is given is not used.
unfoldable pub new_iface : Bytes → ℕ → Iface
new_iface ip mtu = record { ip = ip; mtu = mtu; ifce = none; commands = [] }

pub data StartError : Type 0 where
  bad_cidr no_device : StartError
  command_failed : List Bytes → StartError

-- The four numbers of the mask with dots.
unfoldable pub netmask : Bytes → Result StartError Bytes
netmask (a ∷ b ∷ c ∷ d ∷ more) = ok (ip_string (a ∷ b ∷ c ∷ d ∷ []))
netmask mask = panic index_out_of_range

-- `strings.Join` with dots.
unfoldable pub join_dots : List Bytes → Bytes
join_dots [] = []
join_dots (p ∷ []) = p
join_dots (p ∷ q ∷ ps) = p ++ (b'.' ∷ join_dots (q ∷ ps))

-- `ipdot[:len(ipdot)-1]`; a split always has a part.
unfoldable pub but_last : List Bytes → List Bytes
but_last [] = []
but_last (p ∷ []) = []
but_last (p ∷ q ∷ ps) = p ∷ but_last (q ∷ ps)

unfoldable pub subnet : Bytes → Bytes
subnet ip = join_dots (but_last (split b'.' ip)) ++ text ".0"

module _ (sys : System) where
  -- `exec.Command(…).CombinedOutput()`
  unfoldable pub run_command : List Bytes → Action Iface StartError (Unit {0})
  run_command argv i =
      let i' : Iface = record i { commands = i.commands ++ (argv ∷ []) } in
      if sys.succeeds argv then (ok tt, i') else (err (command_failed argv), i')

  unfoldable pub ifconfig : Bytes → Bytes → Bytes → ℕ → List Bytes
  ifconfig name ip mask mtu =
      let rest = text "netmask" ∷ mask ∷ text "mtu" ∷ sys.itoa mtu ∷ text "up" ∷ [] in
      if sys.is_darwin
      then text "ifconfig" ∷ name ∷ ip ∷ ip ∷ rest
      else text "ifconfig" ∷ name ∷ ip ∷ rest

  unfoldable pub route_add : Bytes → List Bytes
  route_add ip = text "route" ∷ text "add" ∷ text "-net" ∷ subnet ip ∷ ip ∷ []

  -- `AddSysRoute`, which panics if its command fails.
  unfoldable pub add_sys_route : Bytes → Action Iface StartError (Unit {0})
  add_sys_route ip i =
      let (outcome, i') = run_command (route_add ip) i in
      elim outcome [ ok _ ↦ (ok tt, i') | err _ ↦ (panic raised, i') | panic p ↦ (panic p, i') ]

  -- `Start`, from the device on.
  unfoldable pub set_up : Bytes → Bytes → Bytes → Action Iface StartError (Unit {0})
  set_up name ip mask i =
      (run_command (ifconfig name ip mask i.mtu)
          >> (if sys.is_darwin then add_sys_route ip else pure tt))
        i

  -- `Start`
  unfoldable pub start : Action Iface StartError (Unit {0})
  start i = elim (sys.parse_cidr i.ip) [
    | none ↦ (err bad_cidr, i)
    | some (ip, mask) ↦ elim sys.new_device [
      | none ↦ (err no_device, i)
      | some name ↦ elim (netmask mask) [
        | err e ↦ (err e, record i { ifce = some name })
        | panic p ↦ (panic p, record i { ifce = some name })
        | ok mask_text ↦ set_up name ip mask_text (record i { ifce = some name })
      ]
    ]
  ]
