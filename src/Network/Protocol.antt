-- ===== src/Network/Protocol.antt =====
-- src/protocol.cpp: what a protocol does to the messages it sends and receives.
-- The raw RSA operation of src/rsa.cpp is a library's, and a parameter.
pub mod Frame
pub mod Encrypted
pub mod Loopback
use dark_global_12_x.Base.{
  ℕ, ◌+◌, ◌-◌, ◌%◌, Bool, true, false, not, ◌&&◌, Option, none, some, List, [], ◌∷◌, ltb, ◌==◌,
  if◌then◌else◌,
}
use dark_global_12_x.Network.Buffer.{Buffer}
use dark_global_12_x.Network.Message.{
  Message, get, get_byte, add_padding_bytes, max_protocol_body_length,
}
use dark_global_12_x.Network.Output.{
  OutputMessage, fresh_output, write_message_length, add_crypto_header,
}
use dark_global_12_x.Network.Xtea.{Key, encrypt_block, decrypt_block, crypt_loop}

pub record Protocol : Type 0 where
  pub raw_messages : Bool
  pub encryption_enabled : Bool
  pub checksum_enabled : Bool
  pub compact_crypt : Bool
  pub sequence_number : ℕ
  pub key : Key
  pub output_buffer : Option OutputMessage

-- The first lines of XTEA_encrypt: the message is filled up to a multiple of 8.
unfoldable pub pad : OutputMessage → OutputMessage
pad o =
    if o.size % 8 == 0
    then o
    else record o { message = add_padding_bytes (8 - o.size % 8) o.message }

unfoldable pub xtea_encrypt : Key → OutputMessage → OutputMessage
xtea_encrypt k o =
    let o' = pad o in
    record o' {
      message = record (o'.message) {
        buffer = crypt_loop (encrypt_block k) o'.size o'.output_start 0 o'.size o'.buffer;
      };
    }

abbrev pub inner_length : ℕ × Message → Bool × Message
inner_length (inner, m) =
    if ltb m.size (inner + 8) then (false, m) else (true, record m { size = inner })

-- XTEA_decrypt. `(length - 6) & 7` of an int is zero where length + 2 is a multiple of 8, and then
-- length - 6 is not negative.
unfoldable pub xtea_decrypt : Key → Message → Bool × Message
xtea_decrypt k m =
    if not ((m.size + 2) % 8 == 0)
    then (false, m)
    else let len = m.size - 6 in
      inner_length
        (get 2 (record m { buffer = crypt_loop (decrypt_block k) len m.position 0 len m.buffer }))

abbrev pub header_kind : Protocol → ℕ
header_kind p = if p.compact_crypt then 2 else if p.checksum_enabled then 1 else 0

abbrev pub add_headers : Protocol → OutputMessage → Protocol × OutputMessage
add_headers p o =
    let (o', sequence) = add_crypto_header (header_kind p) p.sequence_number o in
    (record p { sequence_number = sequence }, o')

-- Protocol::onSendMessage
unfoldable pub on_send_message : OutputMessage → Protocol → Protocol × OutputMessage
on_send_message o p =
    if p.raw_messages
    then (p, o)
    else if p.encryption_enabled
    then add_headers p (xtea_encrypt p.key (write_message_length o))
    else (p, write_message_length o)

-- Protocol::onRecvMessage up to its call of parsePacket: the message that is parsed, if any.
abbrev pub accept : Bool × Message → Option Message
accept (true, m) = some m
accept (false, m) = none

unfoldable pub on_recv_message : Message → Protocol → Option Message
on_recv_message m p = if p.encryption_enabled then accept (xtea_decrypt p.key m) else some m

-- Protocol::getOutputBuffer, with the message that it had to send first, if any. `buf` is the
-- memory of a new message.
abbrev pub renew_buffer : ℕ → Buffer → Option OutputMessage → OutputMessage × Option OutputMessage
renew_buffer size buf none = (fresh_output buf, none)
renew_buffer size buf (some o) =
    if ltb max_protocol_body_length (o.size + size) then (fresh_output buf, some o) else (o, none)

unfoldable pub get_output_buffer :
    ℕ → Buffer → Protocol → OutputMessage × Protocol × Option OutputMessage
get_output_buffer size buf p =
    let (o, sent) = renew_buffer size buf p.output_buffer in
    (o, record p { output_buffer = some o }, sent)

-- Protocol::RSA_decrypt: 128 bytes are decrypted in place, and the first must be zero.
abbrev pub starts_with_zero : ℕ × Message → Bool × Message
starts_with_zero (b, m) = (b == 0, m)

unfoldable pub rsa_decrypt : (ℕ → Buffer → Buffer) → Message → Bool × Message
rsa_decrypt decrypt m =
    if ltb m.size (m.position + 128)
    then (false, m)
    else starts_with_zero (get_byte (record m { buffer = decrypt m.position m.buffer }))
