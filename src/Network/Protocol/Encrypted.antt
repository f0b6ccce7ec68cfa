-- ===== src/Network/Protocol/Encrypted.antt =====
-- The encrypted part of a message that src/protocol.cpp sends, and its decryption.
use dark_global_12_x.Base.{
  ℕ, ◌+◌, ◌-◌, ◌%◌, ◌≤◌, ◌<◌, ◌≡◌, ap, ◌∙◌, Bool, true, false, List, [], ◌∷◌, arith, length, All,
  All-append, ltb,
}
use dark_global_12_x.Network.Buffer.{
  Buffer, bytes_le, length-bytes_le, bytes_le-lt, Holds, Holds-from, Holds-agree,
}
use dark_global_12_x.Network.Message.{Message, get, max_body_length}
use dark_global_12_x.Network.Fields.{Field, byte, u16, u32, str, position, Fits, encode, encode_all}
use dark_global_12_x.Network.Fields.Read.{get-Holds}
use dark_global_12_x.Network.Output.{OutputMessage, write_message_length}
use dark_global_12_x.Network.Xtea.{Key, encrypt_block, decrypt_block, crypt_loop}
use dark_global_12_x.Network.Xtea.Words.{IsBytes}
use dark_global_12_x.Network.Xtea.Loop.{crypt_loop-back}
use dark_global_12_x.Network.Protocol.{pad, xtea_encrypt, xtea_decrypt}
use dark_global_12_x.Network.Protocol.Frame.{padded, pad_lem, pad-IsBytes, write_message_length_lem}

encode-lt : (f : Field) → Fits f → All (λ b. b < 256) (encode f)
unfolding encode
encode-lt (byte v) h = (h, tt)
encode-lt (u16 v) h = bytes_le-lt 2 v
encode-lt (u32 v) h = bytes_le-lt 4 v
encode-lt (str s) h = All-append _ (bytes_le 2 (length s)) s (bytes_le-lt 2 (length s)) h.1
encode-lt (position p) h =
    All-append _ (bytes_le 2 p.x) _ (bytes_le-lt 2 p.x)
      (All-append _ (bytes_le 2 p.y) _ (bytes_le-lt 2 p.y) (h.2, tt))

pub encode_all-lt : (fs : List Field) → All Fits fs → All (λ b. b < 256) (encode_all fs)
unfolding encode_all
encode_all-lt [] h = tt
encode_all-lt (f ∷ fs) h = All-append _ (encode f) _ (encode-lt f h.0) (encode_all-lt fs h.1)

-- The message that the other side has received: all bytes, the position behind the headers.
abbrev pub received : OutputMessage → Message
received o = record (o.message) { position = 6; overrun = false }

-- An encrypted message with a body of n bytes that starts, with its length, at offset 6 is
-- decrypted to that body, its size set to n.
pub xtea_decrypt-body :
    (k : Key) (n : ℕ) (plain cipher : Buffer) (overrun : Bool)
    → n < max_body_length
    → IsBytes plain
    → Holds plain 6 (bytes_le 2 n)
    → ((i : ℕ)
        → 6 ≤ i
        → cipher i ≡ crypt_loop (encrypt_block k) (padded (n + 2)) 6 0 (padded (n + 2)) plain i)
    → (buf : Buffer) × ((i : ℕ) → 6 ≤ i → buf i ≡ plain i)
      × (xtea_decrypt k
            (record { size = padded (n + 2) + 6; position = 6; overrun = overrun; buffer = cipher })
          ≡ (true, record { size = n; position = 8; overrun = overrun; buffer = buf }))
unfolding xtea_decrypt
xtea_decrypt-body k n plain cipher overrun fits bytes len enc = (buf, back, result)
  where
    total : ℕ
    total = padded (n + 2)

    buf : Buffer
    buf = crypt_loop (decrypt_block k) total 6 0 total cipher

    back : (i : ℕ) → 6 ≤ i → buf i ≡ plain i
    back i h =
        crypt_loop-back k total 6 0 total plain cipher bytes (λ j b. enc j (omega arith)) i
          (omega arith)

    m : ℕ → Buffer → Message
    m p b = record { size = total + 6; position = p; overrun = overrun; buffer = b }

    inner : get 2 (m 6 buf) ≡ (n, m 8 buf)
    inner =
        get-Holds 2 n (m 6 buf) (omega arith) (omega (arith, length-bytes_le 2 n))
          (Holds-from plain buf 6 6 (bytes_le 2 n) back (omega arith) len)

    result :
        xtea_decrypt k (m 6 cipher)
        ≡ (true, record { size = n; position = 8; overrun = overrun; buffer = buf })
    result =
        let whole : (total + 6 + 2) % 8 ≡ 0 = omega arith in
        let size : total + 6 - 6 ≡ total = omega arith in
        let short : ltb (total + 6) (n + 8) ≡ false = ground arith in rw (whole, size, inner, short)

-- The encrypted part of what is sent of a message with a body of n bytes.
abbrev pub Encrypted : Key → OutputMessage → OutputMessage → Buffer → Type 0
Encrypted k o w plain =
    IsBytes plain
    × Holds plain 6 (bytes_le 2 o.size)
    × ((i : ℕ) → 8 ≤ i → i < o.position → plain i ≡ o.buffer i)
    × (w.size ≡ padded (o.size + 2))
    × (w.output_start ≡ 6)
    × ((i : ℕ)
        → w.buffer i
          ≡ crypt_loop (encrypt_block k) (padded (o.size + 2)) 6 0 (padded (o.size + 2)) plain i)

pub xtea_encrypt-Encrypted :
    (k : Key) (o : OutputMessage)
    → o.output_start ≡ 8
    → o.position ≡ o.size + 8
    → o.size + 16 < max_body_length
    → IsBytes o.buffer
    → (plain : Buffer) × Encrypted k o (xtea_encrypt k (write_message_length o)) plain
unfolding xtea_encrypt
xtea_encrypt-Encrypted k o start built room bytes =
    let o1 = write_message_length o in
    let f1 = write_message_length_lem o start (omega arith) in
    let f2 = pad_lem o1 (omega arith) (omega arith) in
    let size : (pad o1).size ≡ padded (o.size + 2) = f2.0 ∙ ap padded f1.1 in
    let starts : (pad o1).output_start ≡ 6 = f2.1 ∙ f1.0 in
    (
      (pad o1).buffer,
      (
        pad-IsBytes o1 (omega arith) (f1.4 bytes),
        Holds-agree o1.buffer (pad o1).buffer 6 o1.position (bytes_le 2 o.size) f2.2
            (omega (arith, length-bytes_le 2 o.size)) f1.2,
        (λ i lo hi. f2.2 i (omega arith) ∙ f1.3 i lo),
        size,
        starts,
        (λ i. rw (size, starts)),
      ),
    )
