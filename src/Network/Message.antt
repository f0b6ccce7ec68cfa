-- ===== src/Network/Message.antt =====
-- NetworkMessage of src/networkmessage.h and src/networkmessage.cpp. Sizes and positions are
-- uint16_t and wrap. The buffer's own bounds are those of `can_add` and `can_read`.
use dark_global_12_x.Base.{
  ℕ, ◌+◌, ◌-◌, ◌*◌, ◌%◌, Bool, true, false, not, ◌||◌, List, [], ◌∷◌, ltb, leb, ◌==◌, if◌then◌else◌,
  length, replicate,
}
use dark_global_12_x.Base.Words.{u16_mod, u64_mod}
use dark_global_12_x.Position.{Position}
use dark_global_12_x.Network.Buffer.{Buffer, write_bytes, read_bytes, bytes_le, from_le}

-- NETWORKMESSAGE_MAXSIZE and the constants of the class.
abbrev pub max_size : ℕ
max_size = 24590

abbrev pub initial_buffer_position : ℕ
initial_buffer_position = 8

abbrev pub header_length : ℕ
header_length = 2

abbrev pub checksum_length : ℕ
checksum_length = 4

abbrev pub xtea_multiple : ℕ
xtea_multiple = 8

abbrev pub max_body_length : ℕ
max_body_length = max_size - header_length - checksum_length - xtea_multiple

abbrev pub max_protocol_body_length : ℕ
max_protocol_body_length = max_body_length - 10

pub record Message : Type 0 where
  pub size : ℕ
  pub position : ℕ
  pub overrun : Bool
  pub buffer : Buffer

-- A fresh message: the buffer of a C++ message is not cleared, so it is an argument.
abbrev pub fresh : Buffer → Message
fresh buf = record { size = 0; position = initial_buffer_position; overrun = false; buffer = buf }

-- NetworkMessage::reset
unfoldable pub reset : Message → Message
reset m = fresh m.buffer

unfoldable pub can_add : ℕ → Message → Bool
can_add n m = ltb ((n + m.position) % u64_mod) max_body_length

-- canRead sets `overrun` when it refuses.
unfoldable pub can_read : ℕ → Message → Bool
can_read n m = not (ltb (m.size + 8) (m.position + n) || leb max_size (n + m.position))

abbrev pub with_overrun : Message → Message
with_overrun m = record m { overrun = true }

abbrev pub advance : ℕ → Message → Message
advance n m = record m { position = (m.position + n) % u16_mod }

-- get<T>, for a T of n bytes
unfoldable pub get : ℕ → Message → ℕ × Message
get n m =
    if can_read n m
    then (from_le (read_bytes n m.position m.buffer), advance n m)
    else (0, with_overrun m)

unfoldable pub get_byte : Message → ℕ × Message
get_byte m = if can_read 1 m then (m.buffer m.position, advance 1 m) else (0, with_overrun m)

unfoldable pub get_previous_byte : Message → ℕ × Message
get_previous_byte m =
    let p = (m.position + u16_mod - 1) % u16_mod in (m.buffer p, record m { position = p })

-- skipBytes: the int16_t count as its bit pattern.
unfoldable pub skip_bytes : ℕ → Message → Message
skip_bytes count m = advance count m

abbrev pub take_string : ℕ → Message → List ℕ × Message
take_string n m =
    if can_read n m then (read_bytes n m.position m.buffer, advance n m) else ([], with_overrun m)

unfoldable pub get_string : ℕ → Message → List ℕ × Message
get_string n m = if n == 0 then (let (len, m') = get 2 m in take_string len m') else take_string n m

unfoldable pub get_position : Message → Position × Message
get_position m =
    let (x, m1) = get 2 m in
    let (y, m2) = get 2 m1 in let (z, m3) = get_byte m2 in (record { x = x; y = y; z = z }, m3)

-- memcpy at the position, with both counters moved.
abbrev pub put : List ℕ → Message → Message
put bs m = record m {
  buffer = write_bytes m.position bs m.buffer;
  position = (m.position + length bs) % u16_mod;
  size = (m.size + length bs) % u16_mod;
}

unfoldable pub add_byte : ℕ → Message → Message
add_byte v m = if can_add 1 m then put (v ∷ []) m else m

-- add<T>, for a T of n bytes
unfoldable pub add : ℕ → ℕ → Message → Message
add n v m = if can_add n m then put (bytes_le n v) m else m

unfoldable pub add_bytes : List ℕ → Message → Message
add_bytes bs m = if not (can_add (length bs) m) || ltb 8192 (length bs) then m else put bs m

unfoldable pub add_padding_bytes : ℕ → Message → Message
add_padding_bytes n m =
    if can_add n m
    then record m {
      buffer = write_bytes m.position (replicate n 0x33) m.buffer;
      size = (m.size + n) % u16_mod;
    }
    else m

unfoldable pub add_string : List ℕ → Message → Message
add_string s m =
    if not (can_add (length s + 2) m) || ltb 8192 (length s) then m else put s (add 2 (length s) m)

unfoldable pub add_position : Position → Message → Message
add_position p m = add_byte p.z (add 2 p.y (add 2 p.x m))

-- getLengthHeader and decodeHeader
unfoldable pub get_length_header : Message → ℕ
get_length_header m = (m.buffer 0 + 256 * m.buffer 1) % u16_mod

unfoldable pub decode_header : Message → ℕ × Message
decode_header m =
    let n = m.buffer 0 + 256 * m.buffer 1 in (n % u16_mod, record m { size = n % u16_mod })

-- getBodyBuffer moves the position behind the length header.
unfoldable pub body_buffer : Message → Message
body_buffer m = record m { position = header_length }
