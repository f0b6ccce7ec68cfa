-- ===== src/Network/Protocol/Loopback.antt =====
-- From one side of src/protocol.cpp to the other: padding, XTEA, headers and fields.
use dark_global_12_x.Base.{
  ℕ, ◌+◌, ◌%◌, ◌≤◌, ◌<◌, ◌≡◌, refl, ap, ◌∙◌, true, false, ◌||◌, List, some, arith, length, All,
}
use dark_global_12_x.Base.Words.{u16_mod}
use dark_global_12_x.Network.Buffer.{
  Buffer, write_bytes, Holds, Holds-from, Holds-within, write_bytes-Holds, write_bytes-lt,
}
use dark_global_12_x.Network.Message.{Message, fresh, max_body_length}
use dark_global_12_x.Network.Fields.{Field, Fits, encode_all, write_fields, read_fields}
use dark_global_12_x.Network.Fields.Write.{write_fields-put}
use dark_global_12_x.Network.Fields.Read.{read_fields-Holds}
use dark_global_12_x.Network.Output.{OutputMessage, write_message_length}
use dark_global_12_x.Network.Xtea.Words.{IsBytes}
use dark_global_12_x.Network.Protocol.{
  accept, Protocol, xtea_encrypt, xtea_decrypt, on_send_message, on_recv_message, header_kind,
}
use dark_global_12_x.Network.Protocol.Frame.{padded, add_crypto_header-frame}
use dark_global_12_x.Network.Protocol.Encrypted.{
  received, encode_all-lt, xtea_decrypt-body, Encrypted, xtea_encrypt-Encrypted,
}

-- What is sent of a message whose headers are in use: it starts at the first byte.
on_send_message-Encrypted :
    (p : Protocol) (o : OutputMessage)
    → p.raw_messages ≡ false
    → p.encryption_enabled ≡ true
    → (p.checksum_enabled || p.compact_crypt) ≡ true
    → o.output_start ≡ 8
    → o.position ≡ o.size + 8
    → o.size + 16 < max_body_length
    → IsBytes o.buffer
    → let w = (on_send_message o p).1 in
      (plain : Buffer) × (e : OutputMessage) × Encrypted p.key o e plain
      × (w.output_start ≡ 0)
      × (w.size ≡ e.size + 6)
      × ((i : ℕ) → 6 ≤ i → w.buffer i ≡ e.buffer i)
unfolding on_send_message
on_send_message-Encrypted p o raw enc kind start built room bytes =
    let e = xtea_encrypt p.key (write_message_length o) in
    let (plain, facts) = xtea_encrypt-Encrypted p.key o start built room bytes in
    let headers =
      add_crypto_header-frame (header_kind p) p.sequence_number e (ground arith) facts.4
        (omega arith) in
    rw (raw, enc) (plain, e, facts, headers.0, headers.1, headers.2)

abbrev pub outgoing : List Field → Buffer → OutputMessage
outgoing fs buf = record { message = write_fields fs (fresh buf); output_start = 8 }

outgoing-put :
    (fs : List Field) (buf : Buffer)
    → All Fits fs
    → length (encode_all fs) + 16 < max_body_length
    → write_fields fs (fresh buf) ≡ record {
      size = length (encode_all fs);
      position = length (encode_all fs) + 8;
      overrun = false;
      buffer = write_bytes 8 (encode_all fs) buf;
    }
outgoing-put fs buf fits room =
    let e : (0 + length (encode_all fs)) % u16_mod ≡ length (encode_all fs) = omega arith in
    let e' : (8 + length (encode_all fs)) % u16_mod ≡ length (encode_all fs) + 8 = omega arith in
    write_fields-put fs (fresh buf) fits (omega arith) (omega arith) (omega arith) ∙ λ i. record {
      size = e i;
      position = e' i;
      overrun = false;
      buffer = write_bytes 8 (encode_all fs) buf;
    }

-- What one side sends of the fields that it wrote, the other side, under the same key, reads.
abbrev pub Delivers : List Field → OutputMessage → Protocol → Type 0
Delivers fs sent q =
    (m : Message) × (sent.output_start ≡ 0)
    × (on_recv_message (received sent) q ≡ some m)
    × (m.size ≡ length (encode_all fs))
    × ((read_fields fs m).0 ≡ fs)
    × ((read_fields fs m).1.overrun ≡ false)

Delivers-built :
    (fs : List Field) (o : OutputMessage) (p q : Protocol)
    → All Fits fs
    → (o.size ≡ length (encode_all fs)) × (o.position ≡ o.size + 8) × (o.output_start ≡ 8)
    → Holds o.buffer 8 (encode_all fs)
    → IsBytes o.buffer
    → length (encode_all fs) + 16 < max_body_length
    → p.raw_messages ≡ false
    → p.encryption_enabled ≡ true
    → (p.checksum_enabled || p.compact_crypt) ≡ true
    → q.encryption_enabled ≡ true
    → q.key ≡ p.key
    → Delivers fs (on_send_message o p).1 q
unfolding on_recv_message
Delivers-built fs o p q fits shape body bytes room raw enc kind enc' key =
    let n = o.size in
    let (plain, e, facts, starts, total, same) =
      on_send_message-Encrypted p o raw enc kind shape.2 shape.1 (omega arith) bytes in
    let w = (on_send_message o p).1 in
    let (buf, back, result) =
      xtea_decrypt-body p.key n plain w.buffer false (omega arith) facts.0 facts.1
        (λ i h. same i h ∙ facts.5 i) in
    let m : Message = record { size = n; position = 8; overrun = false; buffer = buf } in
    let size : w.size ≡ padded (n + 2) + 6 = total ∙ ap (λ (k : ℕ). k + 6) facts.3 in
    let there : Holds plain 8 (encode_all fs) =
      Holds-within o.buffer plain 8 o.position 8 (encode_all fs) facts.2 (omega arith) (omega arith)
        body in
    let arrived : Holds buf 8 (encode_all fs) =
      Holds-from plain buf 6 8 (encode_all fs) back (omega arith) there in
    let read = read_fields-Holds fs m fits (omega arith) (omega arith) arrived in
    (
      m,
      starts,
      rw (enc', key)
          (ap
              (λ (k : ℕ). accept (
                xtea_decrypt p.key
                  (record { size = k; position = 6; overrun = false; buffer = w.buffer })))
              size
            ∙ ap accept result),
      shape.0,
      ap (λ (r : List Field × Message). r.0) read,
      ap (λ (r : List Field × Message). r.1.overrun) read,
    )

-- Fields that fit and have room, written to a new message and sent with encryption and one of the
-- two headers, reach a protocol that has the same key: the message starts at the buffer's first
-- byte, onRecvMessage accepts it and hands it on with the length of the body, and reading the same
-- sequence of fields gives every one of them back, with no overrun. The memory of the new message
-- may hold any bytes.
pub on_recv_message-on_send_message :
    (fs : List Field) (buf : Buffer) (p q : Protocol)
    → All Fits fs
    → IsBytes buf
    → length (encode_all fs) + 16 < max_body_length
    → p.raw_messages ≡ false
    → p.encryption_enabled ≡ true
    → (p.checksum_enabled || p.compact_crypt) ≡ true
    → q.encryption_enabled ≡ true
    → q.key ≡ p.key
    → Delivers fs (on_send_message (outgoing fs buf) p).1 q
on_recv_message-on_send_message fs buf p q fits bytes room raw enc kind enc' key =
    rw (outgoing-put fs buf fits room) (
      Delivers-built fs (record { message = _; output_start = 8 }) p q fits (refl, refl, refl)
        (write_bytes-Holds 8 (encode_all fs) buf)
        (write_bytes-lt 8 (encode_all fs) buf (encode_all-lt fs fits) bytes) room raw enc kind enc'
        key)
