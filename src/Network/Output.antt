-- ===== src/Network/Output.antt =====
-- OutputMessage of src/outputmessage.h and adlerChecksum of src/tools.cpp.
pub mod Adler
use dark_global_12_x.Base.{
  ℕ, zero, suc, ◌+◌, ◌-◌, ◌*◌, ◌%◌, ◌^◌, ltb, ◌==◌, if◌then◌else◌, List, [], ◌∷◌, length, take,
  drop,
}
use dark_global_12_x.Base.Words.{u16_mod, u32_mod}
use dark_global_12_x.Network.Buffer.{Buffer, write_bytes, read_bytes, bytes_le}
use dark_global_12_x.Network.Message.{Message, fresh, initial_buffer_position, max_size}

pub record OutputMessage : Type 0 where
  pub message : Message
  pub open message use *
  pub output_start : ℕ

abbrev pub fresh_output : Buffer → OutputMessage
fresh_output buf = record { message = fresh buf; output_start = initial_buffer_position }

-- add_header<T>, for a T of n bytes. The assertion that there is room is the caller's.
unfoldable pub add_header : ℕ → ℕ → OutputMessage → OutputMessage
add_header n v o =
    let start = (o.output_start + u16_mod - n) % u16_mod in
    record {
      message = record (o.message) {
        buffer = write_bytes start (bytes_le n v) o.buffer;
        size = (o.size + n) % u16_mod;
      };
      output_start = start;
    }

unfoldable pub write_message_length : OutputMessage → OutputMessage
write_message_length o = add_header 2 o.size o

abbrev pub adler : ℕ
adler = 65521

-- do { a += *data++; b += a; } while (--tmp); on uint32_t
unfoldable pub adler_chunk : List ℕ → ℕ × ℕ → ℕ × ℕ
adler_chunk [] (a, b) = (a, b)
adler_chunk (x ∷ xs) (a, b) = let a' = (a + x) % u32_mod in adler_chunk xs (a', (b + a') % u32_mod)

abbrev pub reduce : ℕ × ℕ → ℕ × ℕ
reduce (a, b) = (a % adler, b % adler)

-- while (length > 0), in chunks of up to 5552 bytes, on fuel: each turn takes a byte at least, so a
-- fuel of `length` is never used up.
unfoldable pub adler_loop : ℕ → ℕ → List ℕ → ℕ × ℕ → ℕ × ℕ
adler_loop chunk zero bytes s = s
adler_loop chunk (suc fuel) [] s = s
adler_loop chunk (suc fuel) (x ∷ xs) s =
    adler_loop chunk fuel (drop chunk (x ∷ xs)) (reduce (adler_chunk (take chunk (x ∷ xs)) s))

unfoldable pub adler_checksum : List ℕ → ℕ
adler_checksum bytes =
    if ltb max_size (length bytes)
    then 0
    else (let (a, b) = adler_loop 5552 (length bytes) bytes (1, 0) in (b * 2 ^ 16 + a) % u32_mod)

-- addCryptoHeader, with the sequence number that it may count up.
abbrev pub crypto_header : ℕ → ℕ → OutputMessage → OutputMessage × ℕ
crypto_header kind sequence o =
    if kind == 1
    then (add_header 4 (adler_checksum (read_bytes o.size o.output_start o.buffer)) o, sequence)
    else if kind == 2
    then (add_header 4 sequence o, (sequence + 1) % u32_mod)
    else (o, sequence)

unfoldable pub add_crypto_header : ℕ → ℕ → OutputMessage → OutputMessage × ℕ
add_crypto_header kind sequence o =
    let (o', sequence') = crypto_header kind sequence o in (write_message_length o', sequence')

-- append: the body of another message, from its initial position on.
unfoldable pub append : Message → OutputMessage → OutputMessage
append msg o = record o {
  message = record (o.message) {
    buffer = write_bytes o.position (read_bytes msg.size 8 msg.buffer) o.buffer;
    size = (o.size + msg.size) % u16_mod;
    position = (o.position + msg.size) % u16_mod;
  };
}
