-- ===== src/Network/Xtea/Words.antt =====
-- The words that src/protocol.cpp copies in and out of a buffer, byte by byte.
use native.Mathlib.Nat.{pow-suc}
use dark_global_12_x.Base.{
  ℕ, zero, suc, ◌+◌, ◌*◌, ◌/◌, ◌%◌, ◌^◌, ◌≤◌, ◌<◌, ◌≡◌, refl, ap, ◌⊎◌, inl, inr, arith,
}
use dark_global_12_x.Base.Words.{u32_mod}
use dark_global_12_x.Network.Buffer.{
  Buffer, read_bytes, write_bytes, bytes_le, from_le, length-bytes_le, from_le-bytes_le, Holds,
  write_bytes-below, write_bytes-above, write_bytes-Holds, Holds-read_bytes,
}
use dark_global_12_x.Network.Xtea.{read_word, write_word}

-- The bytes from p on, n of them, are the same.
abbrev pub Same : ℕ → ℕ → Buffer → Buffer → Type 0
Same p n buf buf' = (i : ℕ) → p ≤ i → i < p + n → buf' i ≡ buf i

abbrev pub IsBytes : Buffer → Type 0
IsBytes buf = (i : ℕ) → buf i < 256

read_bytes-Same :
    (n p : ℕ) (buf buf' : Buffer) → Same p n buf buf' → read_bytes n p buf' ≡ read_bytes n p buf
unfolding read_bytes
read_bytes-Same zero p buf buf' h = refl
read_bytes-Same (suc n) p buf buf' h = rw (
  h p (omega arith) (omega arith),
  read_bytes-Same n (suc p) buf buf' (λ i a b. h i (omega arith) (omega arith)),
)

Holds-Same : (n p : ℕ) (buf buf' : Buffer) → Holds buf' p (read_bytes n p buf) → Same p n buf buf'
unfolding read_bytes
Holds-Same zero p buf buf' h i a b = absurd (omega arith)
Holds-Same (suc n) p buf buf' h i a b = ground (arith, Holds-Same n (suc p) buf buf' h.1 i)

bytes_le-read_bytes :
    (n p : ℕ) (buf : Buffer)
    → IsBytes buf
    → bytes_le n (from_le (read_bytes n p buf)) ≡ read_bytes n p buf
unfolding bytes_le from_le read_bytes
bytes_le-read_bytes zero p buf h = refl
bytes_le-read_bytes (suc n) p buf h =
    let b = h p in
    let r = from_le (read_bytes n (suc p) buf) in
    let low : (buf p + 256 * r) % 256 ≡ buf p = omega arith in
    let high : (buf p + 256 * r) / 256 ≡ r = omega arith in
    rw (low, high, bytes_le-read_bytes n (suc p) buf h)

from_le-lt : (n p : ℕ) (buf : Buffer) → IsBytes buf → from_le (read_bytes n p buf) < 256 ^ n
unfolding from_le read_bytes
from_le-lt zero p buf h = omega arith
from_le-lt (suc n) p buf h = omega (arith, h p, from_le-lt n (suc p) buf h, pow-suc 256 n)

pub read_word-lt : (p : ℕ) (buf : Buffer) → IsBytes buf → read_word p buf < u32_mod
unfolding read_word
read_word-lt p buf h = from_le-lt 4 p buf h

pub read_word-write_word :
    (p v : ℕ) (buf : Buffer) → v < u32_mod → read_word p (write_word p v buf) ≡ v
unfolding read_word write_word
read_word-write_word p v buf h =
    let held = Holds-read_bytes _ p (bytes_le 4 v) (write_bytes-Holds p (bytes_le 4 v) buf) in
    rw (rw (length-bytes_le 4 v) at held) (from_le-bytes_le 4 v h)

pub read_word-Same :
    (p : ℕ) (buf buf' : Buffer) → Same p 4 buf buf' → read_word p buf' ≡ read_word p buf
unfolding read_word
read_word-Same p buf buf' h = ap from_le (read_bytes-Same 4 p buf buf' h)

pub write_word-outside :
    (p v : ℕ) (buf : Buffer) (i : ℕ) → (i < p) ⊎ (p + 4 ≤ i) → write_word p v buf i ≡ buf i
unfolding write_word
write_word-outside p v buf i (inl h) = write_bytes-below p (bytes_le 4 v) buf i h
write_word-outside p v buf i (inr h) =
    write_bytes-above p (bytes_le 4 v) buf i (rw (length-bytes_le 4 v) h)

pub write_word-Same :
    (p : ℕ) (src buf : Buffer) → IsBytes src → Same p 4 src (write_word p (read_word p src) buf)
unfolding write_word read_word
write_word-Same p src buf h =
    Holds-Same 4 p src _
      (rw (bytes_le-read_bytes 4 p src h) (write_bytes-Holds p (read_bytes 4 p src) buf))

pub write_word-IsBytes : (p v : ℕ) (buf : Buffer) → IsBytes buf → IsBytes (write_word p v buf)
unfolding write_word write_bytes bytes_le
write_word-IsBytes p v buf h i = ground (arith, h i)
