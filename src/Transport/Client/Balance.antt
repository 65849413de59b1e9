-- ===== src/Transport/Client/Balance.antt =====
-- Where the client's messages go.
use qtun.Base.{
  ap, true, ℕ, zero, suc, ◌+◌, ◌%◌, ◌^◌, ◌≤◌, ◌<◌, ◌≡◌, refl, ◌≢◌, Option, some, List, [], ◌∷◌,
  ◌++◌, map, append-nil, append_assoc, arith, length, get_elem?, All, Bytes, ℕ_key, bytes_key,
  index_out_of_range, raised, Result, ok, panic, ◌>>◌, pure,
}
use native.Mathlib.Nat.{div-add-mod}
use qtun.Protocol.{envelope_ping, Codec}
use qtun.Transport.Client.{
  ClientConn, Client, ClientCall, write_at, write, split, port_from, get_conn_port, PingEnv,
  ping_message, send_ping,
}

-- A slot that is not nil, with a `writeProcess` that receives what is sent.
abbrev pub IsServed : Option ClientConn → Type 0
IsServed o = (conn : ClientConn) × (o ≡ some conn) × (conn.receives ≡ true)

-- A client whose connections were all set up, each with a `writeProcess` that receives.
pub record IsStarted (c : Client) : Type 0 where
  pub some_threads : 0 < c.threads
  pub all_there : length c.conns ≡ c.threads
  pub connected : All IsServed c.conns

get_elem?-connected :
    (conns : List (Option ClientConn)) (i : ℕ)
    → i < length conns
    → All IsServed conns
    → (conn : ClientConn) × (get_elem? conns i ≡ some (some conn)) × (conn.receives ≡ true)
get_elem?-connected [] i h all = absurd (omega arith)
get_elem?-connected (o ∷ rest) zero h ((conn, there, receives), all) =
    (conn, ap some there, receives)
get_elem?-connected (o ∷ rest) (suc i) h (served, all) =
    get_elem?-connected rest i (omega arith) all

-- While the serial number is not about to overflow, `Write` on a started client returns, and hands
-- the message to the connection whose index is the new serial number modulo the threads.
pub write-started :
    (bytes : Bytes) (c : Client)
    → IsStarted c
    → c.serial + 1 < 2 ^ 63
    → write bytes c ≡ (
      ok tt,
      record c {
        serial = c.serial + 1;
        handed = c.handed ++ (((c.serial + 1) % c.threads, bytes) ∷ []);
      },
    )
unfolding write write_at
write-started bytes c v small =
    let next : ℕ = (c.serial + 1) % c.threads in
    let (conn, there, receives) =
      get_elem?-connected c.conns next (grind (arith, v.some_threads, v.all_there)) v.connected in
    ground (arith, there, receives, v.some_threads)

-- Numbers less than `n` apart have different remainders.
mod_ne : (n a b : ℕ) → a < b → b < a + n → a % n ≢ b % n
mod_ne n a b lt near same = grind (arith, div-add-mod a n, div-add-mod b n)

-- A run of `Write` calls.
abbrev pub write_run : List Bytes → ClientCall (Unit {0})
write_run [] = pure tt
write_run (d ∷ ds) = write d >> write_run ds

-- The indices that a run of messages goes to, from a serial number on.
abbrev pub targets : ℕ → ℕ → List Bytes → List (ℕ × Bytes)
targets threads serial [] = []
targets threads serial (d ∷ ds) = ((serial + 1) % threads, d) ∷ targets threads (serial + 1) ds

pub write_run-targets :
    (ds : List Bytes) (c : Client)
    → IsStarted c
    → c.serial + length ds < 2 ^ 63
    → write_run ds c ≡ (
      ok tt,
      record c {
        serial = c.serial + length ds;
        handed = c.handed ++ targets c.threads c.serial ds;
      },
    )
write_run-targets [] c v small = ground (arith, append-nil c.handed)
write_run-targets (d ∷ ds) c v small =
    let here : List (ℕ × Bytes) = ((c.serial + 1) % c.threads, d) ∷ [] in
    let c' : Client = record c { serial = c.serial + 1; handed = c.handed ++ here } in
    ground (
      arith,
      write-started d c v (omega arith),
      write_run-targets ds c'
          (record {
            some_threads = v.some_threads;
            all_there = v.all_there;
            connected = v.connected;
          })
          (omega arith),
      append_assoc c.handed here (targets c.threads (c.serial + 1) ds),
    )

abbrev pub Distinct : List (ℕ × Bytes) → Type 0
Distinct [] = Unit {0}
Distinct (x ∷ xs) = All (λ y. x.0 ≢ y.0) xs × Distinct xs

targets-ne :
    (threads first serial : ℕ) (ds : List Bytes)
    → first ≤ serial
    → serial + length ds < first + threads
    → All (λ y. first % threads ≢ y.0) (targets threads serial ds)
targets-ne threads first serial [] le near = tt
targets-ne threads first serial (d ∷ ds) le near = (
  mod_ne threads first (serial + 1) (omega arith) (omega arith),
  targets-ne threads first (serial + 1) ds (omega arith) (omega arith),
)

targets-Distinct :
    (threads serial : ℕ) (ds : List Bytes)
    → length ds ≤ threads
    → Distinct (targets threads serial ds)
targets-Distinct threads serial [] le = tt
targets-Distinct threads serial (d ∷ ds) le = (
  targets-ne threads (serial + 1) (serial + 1) ds (omega arith) (omega arith),
  targets-Distinct threads (serial + 1) ds (omega arith),
)

-- Round robin: of as many messages as there are threads, or fewer, that a started client writes one
-- after the other, all are handed over, in order, and no two to the same connection. The serial
-- number stays below 2 ^ 63.
pub write_run-balanced :
    (ds : List Bytes) (c : Client)
    → IsStarted c
    → c.serial + length ds < 2 ^ 63
    → length ds ≤ c.threads
    → (to : List (ℕ × Bytes)) × ((write_run ds c).0 ≡ ok tt)
      × ((write_run ds c).1.handed ≡ c.handed ++ to)
      × (map (λ t. t.1) to ≡ ds)
      × Distinct to
write_run-balanced ds c v small few = (
  targets c.threads c.serial ds,
  rw (write_run-targets ds c v small) refl,
  rw (write_run-targets ds c v small) refl,
  messages c.threads c.serial ds,
  targets-Distinct c.threads c.serial ds few,
)
  where
    messages : (n s : ℕ) (ds : List Bytes) → map (λ t. t.1) (targets n s ds) ≡ ds
    messages n s [] = refl
    messages n s (d ∷ ds) = rw (messages n (s + 1) ds)

-- The fourth part of a list, and what the panic is where there is none.
abbrev pub fourth : List Bytes → Result (Unit {0}) Bytes
fourth [] = panic raised
fourth (a ∷ []) = panic raised
fourth (a ∷ b ∷ []) = panic raised
fourth (a ∷ b ∷ c ∷ []) = panic index_out_of_range
fourth (a ∷ b ∷ c ∷ d ∷ _) = ok d

port_from-fourth : (parts : List Bytes) → port_from parts ≡ fourth parts
unfolding port_from
port_from-fourth [] = refl
port_from-fourth (a ∷ []) = refl
port_from-fourth (a ∷ b ∷ []) = refl
port_from-fourth (a ∷ b ∷ c ∷ []) = refl
port_from-fourth (a ∷ b ∷ c ∷ d ∷ more) = ground arith

-- `GetConnPort` returns the fourth part of the address between colons, and panics on every address
-- that has fewer: by its own test where there are fewer than three, and by the index where there
-- are three.
pub get_conn_port-fourth : (addr : Bytes) → get_conn_port addr ≡ fourth (split b':' addr)
unfolding get_conn_port
get_conn_port-fourth addr = port_from-fourth (split b':' addr)

-- The ping of any connection is handed to the connection at the next serial number modulo the
-- threads, whichever that is, while it names the address of its own. The client is started,
-- each of its connections has a `writeProcess` that receives, the serial number stays below 2 ^ 63,
-- and the configured IP and the local address parse.
pub send_ping-target :
    (codec : Codec) (env : PingEnv) (conn : ClientConn) (ip port : Bytes) (c : Client)
    → IsStarted c
    → c.serial + 1 < 2 ^ 63
    → env.parsed_ip ≡ some ip
    → get_conn_port conn.local_addr ≡ ok port
    → send_ping codec env conn c ≡ (
      ok tt,
      record c {
        serial = c.serial + 1;
        handed =
            c.handed
            ++ ((
              (c.serial + 1) % c.threads,
              codec.marshal (record { type = some (envelope_ping (ping_message env ip port)) }),
            )
                ∷ []);
      },
    )
unfolding send_ping
send_ping-target codec env conn ip port c v small has_ip has_port =
    let ping : Bytes =
      codec.marshal (record { type = some (envelope_ping (ping_message env ip port)) }) in
    ground (arith, write-started ping c v small)
