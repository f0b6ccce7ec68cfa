-- ===== src/Network/Protocol/Frame.antt =====
-- The layout of the messages that Protocol::onSendMessage of src/protocol.cpp makes.
use dark_global_12_x.Base.{
  ℕ, zero, suc, ◌+◌, ◌-◌, ◌*◌, ◌/◌, ◌%◌, ◌≤◌, ◌<◌, ◌≡◌, ◌≢◌, refl, ◌∙◌, ◌⊎◌, inl, inr, arith, All,
  Bool-cases, replicate, ==_iff, ◌==◌,
}
use dark_global_12_x.Base.Words.{u16_mod}
use dark_global_12_x.Network.Buffer.{
  write_bytes, read_bytes, bytes_le, length-bytes_le, Holds, write_bytes-below, write_bytes-above,
  write_bytes-Holds, write_bytes-lt, bytes_le-lt,
}
use dark_global_12_x.Network.Message.{Message, add_padding_bytes, can_add, max_body_length}
use dark_global_12_x.Network.Output.{
  OutputMessage, add_header, write_message_length, add_crypto_header, adler_checksum,
}
use dark_global_12_x.Network.Xtea.Words.{IsBytes}
use dark_global_12_x.Network.Protocol.{pad}

-- The size of a message after padding.
abbrev pub padded : ℕ → ℕ
padded n = (n + 7) / 8 * 8

add_padding_bytes-room :
    (n : ℕ) (m : Message)
    → n + m.position < max_body_length
    → add_padding_bytes n m ≡ record m {
      buffer = write_bytes m.position (replicate n 0x33) m.buffer;
      size = (m.size + n) % u16_mod;
    }
unfolding add_padding_bytes can_add
add_padding_bytes-room n m h = ground arith

-- Padding makes the size a multiple of 8, moves nothing that was written, and keeps the start.
pub pad_lem :
    (o : OutputMessage)
    → o.position + 8 < max_body_length
    → o.size < max_body_length
    → ((pad o).size ≡ padded o.size)
      × ((pad o).output_start ≡ o.output_start)
      × ((i : ℕ) → i < o.position → (pad o).buffer i ≡ o.buffer i)
unfolding pad
pad_lem o room fits = elim (Bool-cases (o.size % 8 == 0)) [
  | inl even ↦ rw even (let e = (==_iff (o.size % 8) 0).0 even in omega arith, refl, λ i h. refl)
  | inr odd ↦
      rw (odd, add_padding_bytes-room (8 - o.size % 8) o.message (omega arith))
        (
          let ne : o.size % 8 ≢ 0 = ground arith in omega arith,
          refl,
          λ i h. write_bytes-below o.position _ o.buffer i h,
        )
]

replicate-lt : (n : ℕ) → All (λ b. b < 256) (replicate n 0x33)
replicate-lt zero = tt
replicate-lt (suc n) = (omega arith, replicate-lt n)

pub pad-IsBytes :
    (o : OutputMessage)
    → o.position + 8 < max_body_length
    → IsBytes o.buffer
    → IsBytes (pad o).buffer
unfolding pad
pad-IsBytes o room h = elim (Bool-cases (o.size % 8 == 0)) [
  | inl even ↦ rw even h
  | inr odd ↦
      rw (odd, add_padding_bytes-room (8 - o.size % 8) o.message (omega arith))
        (write_bytes-lt o.position _ o.buffer (replicate-lt (8 - o.size % 8)) h)
]

-- The length in front of a fresh message's body, and the start that goes with it.
pub write_message_length_lem :
    (o : OutputMessage)
    → o.output_start ≡ 8
    → o.size + 2 < u16_mod
    → let w = write_message_length o in
      (w.output_start ≡ 6)
      × (w.size ≡ o.size + 2)
      × Holds w.buffer 6 (bytes_le 2 o.size)
      × ((i : ℕ) → 8 ≤ i → w.buffer i ≡ o.buffer i)
      × (IsBytes o.buffer → IsBytes w.buffer)
      × (w.position ≡ o.position)
unfolding write_message_length add_header
write_message_length_lem o start fits =
    let e : (o.output_start + u16_mod - 2) % u16_mod ≡ 6 = omega arith in
    rw e (
      refl,
      omega arith,
      write_bytes-Holds 6 (bytes_le 2 o.size) o.buffer,
      (λ i h.
          write_bytes-above 6 (bytes_le 2 o.size) o.buffer i
            (omega (arith, length-bytes_le 2 o.size))),
      write_bytes-lt 6 (bytes_le 2 o.size) o.buffer (bytes_le-lt 2 o.size),
      refl,
    )

add_header-frame :
    (n v : ℕ) (o : OutputMessage) (start : ℕ)
    → o.output_start ≡ start + n
    → o.output_start ≤ 8
    → o.size + n < u16_mod
    → let w = add_header n v o in
      (w.output_start ≡ start)
      × (w.size ≡ o.size + n)
      × ((i : ℕ) → start + n ≤ i → w.buffer i ≡ o.buffer i)
unfolding add_header
add_header-frame n v o start e low fits =
    let e' : (o.output_start + u16_mod - n) % u16_mod ≡ start = omega arith in
    rw e' (
      refl,
      omega arith,
      (λ i h.
          write_bytes-above start (bytes_le n v) o.buffer i (omega (arith, length-bytes_le n v))),
    )

two_headers :
    (v : ℕ) (o : OutputMessage)
    → o.output_start ≡ 6
    → o.size + 6 < u16_mod
    → let w = add_header 2 (add_header 4 v o).size (add_header 4 v o) in
      (w.output_start ≡ 0) × (w.size ≡ o.size + 6) × ((i : ℕ) → 6 ≤ i → w.buffer i ≡ o.buffer i)
two_headers v o start fits =
    let first = add_header-frame 4 v o 2 (omega arith) (omega arith) (omega arith) in
    let o' = add_header 4 v o in
    let second = add_header-frame 2 o'.size o' 0 (omega arith) (omega arith) (omega arith) in
    (second.0, omega arith, λ i h. second.2 i (omega arith) ∙ first.2 i h)

-- Both kinds of crypto header put six bytes in front of an encrypted body that starts at offset 6,
-- so the message starts at the buffer's first byte, and leave the body alone.
pub add_crypto_header-frame :
    (kind sequence : ℕ) (o : OutputMessage)
    → (kind ≡ 1) ⊎ (kind ≡ 2)
    → o.output_start ≡ 6
    → o.size + 6 < u16_mod
    → let w = (add_crypto_header kind sequence o).0 in
      (w.output_start ≡ 0) × (w.size ≡ o.size + 6) × ((i : ℕ) → 6 ≤ i → w.buffer i ≡ o.buffer i)
unfolding add_crypto_header write_message_length
add_crypto_header-frame kind sequence o (inl k) start fits =
    let v = adler_checksum (read_bytes o.size o.output_start o.buffer) in
    rw k (two_headers v o start fits)
add_crypto_header-frame kind sequence o (inr k) start fits =
    rw k (two_headers sequence o start fits)
