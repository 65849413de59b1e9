-- ===== src/Transport/Frame/Head.antt =====
-- The first half of `read` on what `write` produced, and on shorter or longer input.
use qtun.Base.{ℕ, ◌^◌, ◌<◌, ◌≡◌, ◌∷◌, ◌++◌, Bytes, ok, arith, length}
use qtun.Stream.{Stream, read_byte}
use qtun.Stream.Laws.{read_full-append}
use qtun.Transport.Frame.{read_head, put_uint16, uint16_of}

uint16_of-put_uint16 : (n : ℕ) → n < 2 ^ 16 → uint16_of (put_uint16 n) ≡ n
uint16_of-put_uint16 n h = omega arith

pub read_head-put :
    (secure n : ℕ) (body rest : Bytes) (s : Stream)
    → n < 2 ^ 16
    → length body ≡ n
    → s.input ≡ secure ∷ put_uint16 n ++ (body ++ rest)
    → read_head s ≡ (ok (secure, body), record s { input = rest })
unfolding read_head read_byte
read_head-put secure n body rest s h l e = ground (
  arith,
  read_full-append 2 (put_uint16 n) (body ++ rest)
      (record s { input = put_uint16 n ++ (body ++ rest) }),
  read_full-append n body rest (record s { input = body ++ rest }),
  uint16_of-put_uint16 n,
)
