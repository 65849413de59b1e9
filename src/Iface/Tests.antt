-- ===== src/Iface/Tests.antt =====
-- The tunnel device on a small input, and its theorem at it.
use qtun.Base.{◌≡◌, refl, true, some, List, [], ◌∷◌, Bytes, text, ok}
use qtun.Iface.{ip_string}
use qtun.Iface.Device.{System, new_iface, netmask, start}
use qtun.Iface.Device.Commands.{route_24, setup_of, start-ifconfig}

-- A Mac on which everything succeeds; the address is in a network of 16 bits.
abbrev mac : System
mac = record {
  parse_cidr = λ cidr. some (ip_string (10 ∷ 237 ∷ 0 ∷ 1 ∷ []), 255 ∷ 255 ∷ 0 ∷ 0 ∷ []);
  new_device = some (text "utun3");
  is_darwin = true;
  itoa = λ n. text "1500";
  succeeds = λ argv. true;
}

mask_16 : netmask (255 ∷ 255 ∷ 0 ∷ 0 ∷ []) ≡ ok (text "255.255.0.0")
unfolding netmask ip_string
mask_16 = refl

route_16 :
    route_24 10 237 0 1
    ≡ text "route" ∷ text "add" ∷ text "-net" ∷ text "10.237.0.0" ∷ text "10.237.0.1" ∷ []
unfolding ip_string
route_16 = refl

start-ifconfig_example :
    (setup : List Bytes) × (setup
      ≡ setup_of true
          (text "utun3")
          (ip_string (10 ∷ 237 ∷ 0 ∷ 1 ∷ []))
          (text "255.255.0.0")
          (text "1500"))
    × (start mac (new_iface (text "10.237.0.1/16") 1500) ≡ (
      ok tt,
      record {
        ip = text "10.237.0.1/16";
        mtu = 1500;
        ifce = some (text "utun3");
        commands = setup ∷ route_24 10 237 0 1 ∷ [];
      },
    ))
start-ifconfig_example =
    start-ifconfig mac (text "10.237.0.1/16") 10 237 0 1 (255 ∷ 255 ∷ 0 ∷ 0 ∷ [])
      (text "255.255.0.0") (text "utun3") 1500 refl mask_16 refl
