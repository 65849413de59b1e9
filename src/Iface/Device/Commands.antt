-- ===== src/Iface/Device/Commands.antt =====
-- Which commands set the device up.
use qtun.Base.{
  ℕ, ◌+◌, ◌/◌, ◌%◌, ◌≡◌, ◌≢◌, inl, inr, Bool, true, false, Bool-cases, refl, ap, ◌∙◌, some, List,
  [], ◌∷◌, ◌++◌, append-nil, append_assoc, arith, All, if◌then◌else◌, Bytes, text, ok, err, panic,
  raised, ltb,
}
use qtun.Iface.{itoa_byte, ip_string}
use qtun.Transport.Client.{split, split_from}
use qtun.Iface.Device.{
  System, command_failed, new_iface, netmask, join_dots, but_last, subnet, run_command, ifconfig,
  route_add, add_sys_route, set_up, start,
}

-- Splitting at a byte that the first part does not have.
split_from-part :
    (sep : ℕ) (part xs rest : Bytes)
    → All (λ b. b ≢ sep) xs
    → split_from sep part (xs ++ (sep ∷ rest)) ≡ (part ++ xs) ∷ split_from sep [] rest
unfolding split_from
split_from-part sep part [] rest all = ground (arith, append-nil part)
split_from-part sep part (x ∷ xs) rest (ne, all) =
    ground
      (arith, split_from-part sep (part ++ (x ∷ [])) xs rest all, append_assoc part (x ∷ []) xs)

split_from-last :
    (sep : ℕ) (part xs : Bytes) → All (λ b. b ≢ sep) xs → split_from sep part xs ≡ (part ++ xs) ∷ []
unfolding split_from
split_from-last sep part [] all = ground (arith, append-nil part)
split_from-last sep part (x ∷ xs) (ne, all) =
    ground (arith, split_from-last sep (part ++ (x ∷ [])) xs all, append_assoc part (x ∷ []) xs)

digit : (k : ℕ) → b'0' + k ≢ b'.'
digit k = λ e. omega arith

itoa_byte-All : (n : ℕ) → All (λ b. b ≢ b'.') (itoa_byte n)
itoa_byte-All n = elim (Bool-cases (ltb n 10)) [
  | inl small ↦ rw small (digit n, tt)
  | inr big ↦ elim (Bool-cases (ltb n 100)) [
    | inl middle ↦ rw (big, middle) (digit (n / 10), (digit (n % 10), tt))
    | inr large ↦ rw (big, large) (digit (n / 100), (digit (n / 10 % 10), (digit (n % 10), tt)))
  ]
]

-- Splitting the text of an address gives the texts of its numbers.
split-ip_string :
    (a b c d : ℕ)
    → split b'.' (ip_string (a ∷ b ∷ c ∷ d ∷ []))
      ≡ itoa_byte a ∷ itoa_byte b ∷ itoa_byte c ∷ itoa_byte d ∷ []
unfolding split ip_string
split-ip_string a b c d = ground (
  arith,
  split_from-part b'.' [] (itoa_byte a)
      (itoa_byte b ++ (b'.' ∷ (itoa_byte c ++ (b'.' ∷ itoa_byte d)))) (itoa_byte-All a),
  split_from-part b'.' [] (itoa_byte b) (itoa_byte c ++ (b'.' ∷ itoa_byte d)) (itoa_byte-All b),
  split_from-part b'.' [] (itoa_byte c) (itoa_byte d) (itoa_byte-All c),
  split_from-last b'.' [] (itoa_byte d) (itoa_byte-All d),
)

subnet-ip_string :
    (a b c d : ℕ) → subnet (ip_string (a ∷ b ∷ c ∷ d ∷ [])) ≡ ip_string (a ∷ b ∷ c ∷ 0 ∷ [])
unfolding subnet but_last join_dots ip_string
subnet-ip_string a b c d =
    ap (λ (parts : List Bytes). join_dots (but_last parts) ++ text ".0") (split-ip_string a b c d)
    ∙ append_assoc (itoa_byte a) (b'.' ∷ (itoa_byte b ++ (b'.' ∷ itoa_byte c))) (text ".0")
    ∙ ap (λ (l : Bytes). itoa_byte a ++ (b'.' ∷ l))
        (append_assoc (itoa_byte b) (b'.' ∷ itoa_byte c) (text ".0"))

-- The command that adds the route of an address: it is always that of the first three numbers.
abbrev pub route_24 : ℕ → ℕ → ℕ → ℕ → List Bytes
route_24 a b c d =
    text "route"
    ∷ text "add"
    ∷ text "-net"
    ∷ ip_string (a ∷ b ∷ c ∷ 0 ∷ [])
    ∷ ip_string (a ∷ b ∷ c ∷ d ∷ [])
    ∷ []

-- The command that sets the device up: macOS wants the address twice, for both ends.
abbrev pub setup_of : Bool → Bytes → Bytes → Bytes → Bytes → List Bytes
setup_of true name ip mask mtu =
    text "ifconfig" ∷ name ∷ ip ∷ ip ∷ text "netmask" ∷ mask ∷ text "mtu" ∷ mtu ∷ text "up" ∷ []
setup_of false name ip mask mtu =
    text "ifconfig" ∷ name ∷ ip ∷ text "netmask" ∷ mask ∷ text "mtu" ∷ mtu ∷ text "up" ∷ []

-- For an address that parses, with a mask of four numbers, and a device that is created: `Start`
-- runs `ifconfig` on the device, with the address (twice on macOS, once elsewhere), the mask, the MTU
-- and `up` in this order, and returns its error if it fails. On macOS, and only there, it
-- runs `route` after that, for the addresses that share the first three numbers, whatever the mask
-- says, and panics if it fails. Nothing else is run.
pub start-ifconfig :
    (sys : System) (cidr : Bytes) (a b c d : ℕ) (mask : Bytes) (mask_text name : Bytes) (mtu : ℕ)
    → sys.parse_cidr cidr ≡ some (ip_string (a ∷ b ∷ c ∷ d ∷ []), mask)
    → netmask mask ≡ ok mask_text
    → sys.new_device ≡ some name
    → (setup : List Bytes) × (setup
        ≡ setup_of sys.is_darwin name (ip_string (a ∷ b ∷ c ∷ d ∷ [])) mask_text (sys.itoa mtu))
      × (start sys (new_iface cidr mtu) ≡ (
          if sys.succeeds setup
          then if sys.is_darwin
            then (
              if sys.succeeds (route_24 a b c d) then ok tt else panic raised,
              record {
                ip = cidr;
                mtu = mtu;
                ifce = some name;
                commands = setup ∷ route_24 a b c d ∷ [];
              },
            )
            else (ok tt, record { ip = cidr; mtu = mtu; ifce = some name; commands = setup ∷ [] })
          else (
            err (command_failed setup),
            record { ip = cidr; mtu = mtu; ifce = some name; commands = setup ∷ [] },
          )))
unfolding start new_iface set_up run_command add_sys_route route_add ifconfig
start-ifconfig sys cidr a b c d mask mask_text name mtu parsed masked made = (
  setup_of sys.is_darwin name (ip_string (a ∷ b ∷ c ∷ d ∷ [])) mask_text (sys.itoa mtu),
  refl,
  ground (arith, parsed, masked, made, subnet-ip_string a b c d),
)
