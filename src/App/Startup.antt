-- ===== src/App/Startup.antt =====
-- qtun/app.go: `SetProxy`, `StartFetchTunInterface`, and what `Run` does with them in client mode.
use qtun.Base.{
  ℕ, zero, suc, ◌+◌, ◌≡◌, refl, inl, inr, ◌⊎◌, ◌≢◌, List, [], ◌∷◌, ◌++◌, length, arith, Bytes, text,
  nil_dereference, Result, ok, err, panic,
}
use qtun.Iface.Device as Device

-- `runtime.GOOS`, as far as the code tells the systems apart.
pub data Goos : Type 0 where
  darwin linux windows another : Goos

-- `SetProxy`: the commands that it runs, whose outcome is only logged; it has no error to return.
-- `cmd` stays nil on a system that has no case.
unfoldable pub set_proxy : Goos → Result Device.StartError (List (List Bytes))
set_proxy darwin = ok (
    (text "networksetup"
      ∷ text "-setautoproxyurl"
      ∷ text "Wi-Fi"
      ∷ text "http://127.0.0.1:6061/proxy.pac"
      ∷ [])
    ∷ [])
set_proxy linux = ok []
set_proxy windows = ok []
set_proxy another = panic nil_dereference

-- `for i := 0; i < 10; i++`
unfoldable pub counted : ℕ → ℕ → List ℕ
counted i zero = []
counted i (suc left) = i ∷ counted (i + 1) left

-- What has been started: the device, and the workers by their numbers.
pub record Started : Type 0 where
  pub iface : Device.Iface
  pub workers : List ℕ

-- `StartFetchTunInterface`, up to the loop of its own worker.
unfoldable pub start_fetch_tun_interface :
    Device.System → Bytes → ℕ → Result Device.StartError (Unit {0}) × Started
unfolding counted
start_fetch_tun_interface sys ip mtu =
    let (outcome, iface) = Device.start sys (Device.new_iface ip mtu) in
    elim outcome [
      | ok _ ↦ (ok tt, record { iface = iface; workers = counted 0 10 ++ (255 ∷ []) })
      | err e ↦ (err e, record { iface = iface; workers = [] })
      | panic p ↦ (panic p, record { iface = iface; workers = [] })
    ]

-- `Run` in client mode, from `SetProxy` on.
unfoldable pub run_client :
    Goos → Device.System → Bytes → ℕ → Result Device.StartError (Unit {0}) × Started
run_client goos sys ip mtu = elim (set_proxy goos) [
  | ok _ ↦ start_fetch_tun_interface sys ip mtu
  | err e ↦ (err e, record { iface = Device.new_iface ip mtu; workers = [] })
  | panic p ↦ (panic p, record { iface = Device.new_iface ip mtu; workers = [] })
]

-- What `StartFetchTunInterface` has done, by the outcome of the device.
abbrev pub Follows :
    Result Device.StartError (Unit {0}) × Device.Iface
    → Result Device.StartError (Unit {0}) × Started
    → Type 0
Follows device r =
    (r.0 ≡ device.0)
    × (r.1.iface ≡ device.1)
    × (((r.0 ≡ ok tt) × (length r.1.workers ≡ 11)) ⊎ ((r.0 ≢ ok tt) × (r.1.workers ≡ [])))

start_fetch-Follows :
    (sys : Device.System) (ip : Bytes) (mtu : ℕ)
    → Follows (Device.start sys (Device.new_iface ip mtu)) (start_fetch_tun_interface sys ip mtu)
unfolding start_fetch_tun_interface counted
start_fetch-Follows sys ip mtu = by_device (Device.start sys (Device.new_iface ip mtu)) refl
  where
    by_device :
        (d : Result Device.StartError (Unit {0}) × Device.Iface)
        → Device.start sys (Device.new_iface ip mtu) ≡ d
        → Follows
            (Device.start sys (Device.new_iface ip mtu))
            (start_fetch_tun_interface sys ip mtu)
    by_device (ok u, i) e =
        (ground (arith, e), ground (arith, e), inl (ground (arith, e), ground (arith, e)))
    by_device (err x, i) e =
        (ground (arith, e), ground (arith, e), inr ((λ f. ground (arith, e)), ground (arith, e)))
    by_device (panic p, i) e =
        (ground (arith, e), ground (arith, e), inr ((λ f. ground (arith, e)), ground (arith, e)))

-- The client's workers, for every system and whatever its commands give. On macOS, Linux and Windows
-- there are eleven if the device comes up, and none otherwise, and the outcome is the device's; on any
-- other system `SetProxy` panics, and neither a device nor a worker is there.
pub run_client-workers :
    (goos : Goos) (sys : Device.System) (ip : Bytes) (mtu : ℕ)
    → (Follows (Device.start sys (Device.new_iface ip mtu)) (run_client goos sys ip mtu)
        × (goos ≢ another))
      ⊎ ((goos ≡ another)
          × (run_client goos sys ip mtu
              ≡ (panic nil_dereference, record { iface = Device.new_iface ip mtu; workers = [] })))
unfolding run_client set_proxy
run_client-workers darwin sys ip mtu = inl (start_fetch-Follows sys ip mtu, λ e. cc)
run_client-workers linux sys ip mtu = inl (start_fetch-Follows sys ip mtu, λ e. cc)
run_client-workers windows sys ip mtu = inl (start_fetch-Follows sys ip mtu, λ e. cc)
run_client-workers another sys ip mtu = inr (refl, refl)
