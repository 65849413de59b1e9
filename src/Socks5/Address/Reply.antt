-- ===== src/Socks5/Address/Reply.antt =====
-- `sendReply`: the bytes of a reply.
use qtun.Base.{ℕ, ◌^◌, ◌<◌, ◌≡◌, refl, ◌≢◌, none, some, [], ◌∷◌, arith, ℕ_key, bytes_key, ok}
use qtun.Socks5.Wire.{socks5_version, to4, to16}
use qtun.Socks5.Address.{reply_of}
use qtun.Socks5.Address.Read.{Host, v4, v6, name, IsHost, encode, spec}

-- The hosts that `sendReply` writes as they are: it takes the empty name for no name, and an IPv4
-- address in sixteen bytes for one in four.
abbrev pub IsPlain : Host → Type 0
IsPlain (v4 ip) = Unit {0}
IsPlain (v6 ip) = to4 ip ≡ none
IsPlain (name n) = n ≢ []

-- The reply for an address that is well-formed and plain is what the protocol asks for: the version,
-- the code, a zero, and the address as a request would write it.
pub reply_of-spec :
    (resp : ℕ) (h : Host) (port : ℕ)
    → IsHost h
    → IsPlain h
    → port < 2 ^ 16
    → reply_of resp (some (spec h port)) ≡ ok (socks5_version ∷ resp ∷ 0 ∷ encode h port)
unfolding reply_of to4 to16
reply_of-spec resp (v4 ip) port fits plain small = ground arith
reply_of-spec resp (v6 ip) port fits plain small = ground arith
reply_of-spec resp (name []) port fits plain small = absurd (plain refl)
reply_of-spec resp (name (b ∷ bs)) port fits plain small = ground arith
