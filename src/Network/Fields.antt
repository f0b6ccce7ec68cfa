-- ===== src/Network/Fields.antt =====
-- Sequences of fields of src/networkmessage.cpp, as a handler writes and reads them.
pub mod Write
pub mod Read
use dark_global_12_x.Base.{
  ℕ, zero, suc, ◌+◌, ◌-◌, ◌*◌, ◌/◌, ◌%◌, ◌^◌, ◌≤◌, ◌<◌, ◌≡◌, ◌≢◌, refl, ap, sym, Bool, true, false,
  List, [], ◌∷◌, ◌++◌, arith, length, All, length-append, ltb, leb, ◌==◌, if◌then◌else◌,
}
use dark_global_12_x.Base.Words.{u8_mod, u16_mod, u32_mod}
use dark_global_12_x.Position.{Position}
use dark_global_12_x.Position.Order.{eq_of_coordinates}
use dark_global_12_x.Network.Buffer.{
  Buffer, write_bytes, read_bytes, bytes_le, from_le, length-bytes_le, from_le-bytes_le, Holds,
  write_bytes-below, write_bytes-append, write_bytes-Holds, Holds-read_bytes, Holds-agree,
  Holds-append, Holds-split,
}
use dark_global_12_x.Network.Message.{
  Message, fresh, can_add, can_read, get, get_byte, get_string, get_position, put, add_byte, add,
  add_string, add_position, advance, take_string, max_size, max_body_length,
}

-- A field that a protocol handler writes with one call, and what it takes to fit its type.
pub data Field : Type 0 where
  byte u16 u32 : ℕ → Field
  str : List ℕ → Field
  position : Position → Field

abbrev pub Fits : Field → Type 0
Fits (byte v) = v < u8_mod
Fits (u16 v) = v < u16_mod
Fits (u32 v) = v < u32_mod
Fits (str s) = (length s ≤ 8192) × All (λ b. b < u8_mod) s
Fits (position p) = (p.x < u16_mod) × (p.y < u16_mod) × (p.z < u8_mod)

unfoldable pub encode : Field → List ℕ
encode (byte v) = v ∷ []
encode (u16 v) = bytes_le 2 v
encode (u32 v) = bytes_le 4 v
encode (str s) = bytes_le 2 (length s) ++ s
encode (position p) = bytes_le 2 p.x ++ (bytes_le 2 p.y ++ (p.z ∷ []))

abbrev pub write_field : Field → Message → Message
write_field (byte v) m = add_byte v m
write_field (u16 v) m = add 2 v m
write_field (u32 v) m = add 4 v m
write_field (str s) m = add_string s m
write_field (position p) m = add_position p m

-- The read that matches a field, with the field that it gives.
abbrev pub read_like : Field → Message → Field × Message
read_like (byte v) m = let (w, m') = get_byte m in (byte w, m')
read_like (u16 v) m = let (w, m') = get 2 m in (u16 w, m')
read_like (u32 v) m = let (w, m') = get 4 m in (u32 w, m')
read_like (str s) m = let (w, m') = get_string 0 m in (str w, m')
read_like (position p) m = let (w, m') = get_position m in (position w, m')

unfoldable pub write_fields : List Field → Message → Message
write_fields [] m = m
write_fields (f ∷ fs) m = write_fields fs (write_field f m)

unfoldable pub read_fields : List Field → Message → List Field × Message
read_fields [] m = ([], m)
read_fields (f ∷ fs) m =
    let (g, m1) = read_like f m in let (gs, m2) = read_fields fs m1 in (g ∷ gs, m2)

unfoldable pub encode_all : List Field → List ℕ
encode_all [] = []
encode_all (f ∷ fs) = encode f ++ encode_all fs

-- There is room for n more bytes.
abbrev pub Room : ℕ → Message → Type 0
Room n m = n + m.position < max_body_length

-- A message as it is built: length and position move together.
abbrev pub IsBuilt : Message → Type 0
IsBuilt m = m.position ≡ m.size + 8
