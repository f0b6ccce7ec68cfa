-- ===== src/Network/Xtea.antt =====
-- The cipher of Protocol::XTEA_encrypt and Protocol::XTEA_decrypt in src/protocol.cpp.
pub mod Block
pub mod Words
pub mod Loop
use dark_global_12_x.Base.{
  ℕ, zero, suc, ◌+◌, ◌*◌, ◌/◌, ◌%◌, ◌^◌, Bool, true, false, bit_xor, ltb, if◌then◌else◌, ◌==◌,
}
use dark_global_12_x.Base.Words.{u32_mod, add32, sub32}
use dark_global_12_x.Network.Buffer.{Buffer, read_bytes, write_bytes, bytes_le, from_le}

-- Protocol::key
pub record Key : Type 0 where
  pub k0 : ℕ
  pub k1 : ℕ
  pub k2 : ℕ
  pub k3 : ℕ

unfoldable pub key_at : Key → ℕ → ℕ
key_at k i = if i == 0 then k.k0 else if i == 1 then k.k1 else if i == 2 then k.k2 else k.k3

abbrev pub delta : ℕ
delta = 0x61C88647

-- The variables of the inner loop.
pub record State : Type 0 where
  pub sum : ℕ
  pub v0 : ℕ
  pub v1 : ℕ

abbrev pub xor32 : ℕ → ℕ → ℕ
xor32 a b = bit_xor a b % u32_mod

-- ((v << 4 ^ v >> 5) + v) ^ (sum + k[index])
unfoldable pub mix : Key → ℕ → ℕ → ℕ → ℕ
mix k v sum index =
    xor32 (add32 (xor32 (v * 2 ^ 4 % u32_mod) (v / 2 ^ 5)) v) (add32 sum (key_at k index))

-- k[sum & 3] and k[(sum >> 11) & 3]
abbrev pub low_index : ℕ → ℕ
low_index sum = sum % 4

abbrev pub high_index : ℕ → ℕ
high_index sum = sum / 2 ^ 11 % 4

-- One turn of the loop of XTEA_encrypt.
unfoldable pub encrypt_round : Key → State → State
encrypt_round k s =
    let v0 = add32 s.v0 (mix k s.v1 s.sum (low_index s.sum)) in
    let sum = sub32 s.sum delta in
    record { sum = sum; v0 = v0; v1 = add32 s.v1 (mix k v0 sum (high_index sum)) }

-- One turn of the loop of XTEA_decrypt.
unfoldable pub decrypt_round : Key → State → State
decrypt_round k s =
    let v1 = sub32 s.v1 (mix k s.v0 s.sum (high_index s.sum)) in
    let sum = add32 s.sum delta in
    record { sum = sum; v0 = sub32 s.v0 (mix k v1 sum (low_index sum)); v1 = v1 }

-- for (int32_t i = n; --i >= 0;) s = body(s);
unfoldable pub repeat {ℓ} : {S : Type ℓ} → ℕ → (S → S) → S → S
repeat zero body s = s
repeat (suc n) body s = repeat n body (body s)

abbrev pub rounds : ℕ
rounds = 32

unfoldable pub encrypt_block : Key → ℕ × ℕ → ℕ × ℕ
encrypt_block k (v0, v1) =
    let s = repeat rounds (encrypt_round k) (record { sum = 0; v0 = v0; v1 = v1 }) in (s.v0, s.v1)

unfoldable pub decrypt_block : Key → ℕ × ℕ → ℕ × ℕ
decrypt_block k (v0, v1) =
    let s = repeat rounds (decrypt_round k) (record { sum = 0xC6EF3720; v0 = v0; v1 = v1 }) in
    (s.v0, s.v1)

-- memcpy(&v, buffer + p, 4) and memcpy(buffer + p, &v, 4)
unfoldable pub read_word : ℕ → Buffer → ℕ
read_word p buf = from_le (read_bytes 4 p buf)

unfoldable pub write_word : ℕ → ℕ → Buffer → Buffer
write_word p v buf = write_bytes p (bytes_le 4 v) buf

-- The body of the outer loop, at buffer + p, with a block function.
unfoldable pub crypt_block : (ℕ × ℕ → ℕ × ℕ) → ℕ → Buffer → Buffer
crypt_block f p buf =
    let (v0, v1) = f (read_word p buf, read_word (p + 4) buf) in
    write_word (p + 4) v1 (write_word p v0 buf)

-- while (readPos < messageLength), on fuel. A turn moves readPos on by 8, so a fuel of
-- messageLength is never used up.
unfoldable pub crypt_loop : (ℕ × ℕ → ℕ × ℕ) → ℕ → ℕ → ℕ → ℕ → Buffer → Buffer
crypt_loop f zero base read_pos len buf = buf
crypt_loop f (suc fuel) base read_pos len buf =
    let rest = crypt_loop f fuel base (read_pos + 8) len (crypt_block f (base + read_pos) buf) in
    if ltb read_pos len then rest else buf
