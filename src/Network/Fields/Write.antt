-- ===== src/Network/Fields/Write.antt =====
-- Writing fields into a NetworkMessage of src/networkmessage.cpp.
use dark_global_12_x.Base.{
  ℕ, ◌+◌, ◌%◌, ◌≤◌, ◌<◌, ◌≡◌, true, false, List, [], ◌∷◌, ◌++◌, arith, length, All, length-append,
  ltb,
}
use dark_global_12_x.Base.Words.{u16_mod}
use dark_global_12_x.Position.{Position}
use dark_global_12_x.Network.Buffer.{write_bytes, bytes_le, length-bytes_le, write_bytes-append}
use dark_global_12_x.Network.Message.{
  Message, can_add, put, add_byte, add, add_string, add_position,
}
use dark_global_12_x.Network.Fields.{
  Field, byte, u16, u32, str, position, Fits, encode, write_field, write_fields, encode_all, Room,
}

can_add-Room : (n k : ℕ) (m : Message) → n ≤ k → Room k m → can_add n m ≡ true
unfolding can_add
can_add-Room n k m h r = ground arith

pub put-nil : (m : Message) → m.position < u16_mod → m.size < u16_mod → m ≡ put [] m
unfolding write_bytes
put-nil m p s =
    let e : m.position ≡ (m.position + 0) % u16_mod = omega arith in
    let e' : m.size ≡ (m.size + 0) % u16_mod = omega arith in
    λ i. record m { position = e i; size = e' i }

put-append :
    (bs cs : List ℕ) (m : Message)
    → m.position + length bs < u16_mod
    → put cs (put bs m) ≡ put (bs ++ cs) m
put-append bs cs m h = λ i. record {
  size = sizes m.size i;
  position = sizes m.position i;
  overrun = m.overrun;
  buffer = buffers i;
}
  where
    sizes :
        (n : ℕ)
        → ((n + length bs) % u16_mod + length cs) % u16_mod ≡ (n + length (bs ++ cs)) % u16_mod
    sizes n = omega (arith, length-append bs cs)

    buffers :
        write_bytes ((m.position + length bs) % u16_mod) cs (write_bytes m.position bs m.buffer)
        ≡ write_bytes m.position (bs ++ cs) m.buffer
    buffers =
        let e : (m.position + length bs) % u16_mod ≡ m.position + length bs = omega arith in
        rw (e, write_bytes-append m.position bs cs m.buffer)

pub add-put : (n v : ℕ) (m : Message) → Room n m → add n v m ≡ put (bytes_le n v) m
unfolding add
add-put n v m r = rw (can_add-Room n n m (omega arith) r)

add_byte-put : (v : ℕ) (m : Message) → Room 1 m → add_byte v m ≡ put (v ∷ []) m
unfolding add_byte
add_byte-put v m r = rw (can_add-Room 1 1 m (omega arith) r)

add_string-put :
    (s : List ℕ) (m : Message)
    → length s ≤ 8192
    → Room (length s + 2) m
    → add_string s m ≡ put (bytes_le 2 (length s) ++ s) m
unfolding add_string
add_string-put s m h r =
    let short : ltb 8192 (length s) ≡ false = ground arith in
    rw
      (
        can_add-Room (length s + 2) (length s + 2) m (omega arith) r,
        short,
        add-put 2 (length s) m (omega arith),
      )
      (put-append (bytes_le 2 (length s)) s m (omega (arith, length-bytes_le 2 (length s))))

add_position-put :
    (p : Position) (m : Message)
    → Room 5 m
    → add_position p m ≡ put (bytes_le 2 p.x ++ (bytes_le 2 p.y ++ p.z ∷ [])) m
unfolding add_position
add_position-put p m r =
    let m1 = put (bytes_le 2 p.x) m in
    let m2 = put (bytes_le 2 p.y) m1 in
    let lx = length-bytes_le 2 p.x in
    let ly = length-bytes_le 2 p.y in
    rw
      (
        add-put 2 p.x m (omega arith),
        add-put 2 p.y m1 (omega arith),
        add_byte-put p.z m2 (omega arith),
        put-append (bytes_le 2 p.y) (p.z ∷ []) m1 (omega arith),
      )
      (put-append (bytes_le 2 p.x) (bytes_le 2 p.y ++ p.z ∷ []) m (omega arith))

-- Each write that fits is one `put` of the field's code.
write_field-put :
    (f : Field) (m : Message)
    → Fits f
    → Room (length (encode f)) m
    → write_field f m ≡ put (encode f) m
unfolding encode
write_field-put (byte v) m fits r = add_byte-put v m r
write_field-put (u16 v) m fits r = add-put 2 v m (omega (arith, length-bytes_le 2 v))
write_field-put (u32 v) m fits r = add-put 4 v m (omega (arith, length-bytes_le 4 v))
write_field-put (str s) m fits r =
    add_string-put s m fits.0
      (omega (arith, length-append (bytes_le 2 (length s)) s, length-bytes_le 2 (length s)))
write_field-put (position p) m fits r = add_position-put p m (
    omega (
      arith,
      length-append (bytes_le 2 p.x) (bytes_le 2 p.y ++ p.z ∷ []),
      length-append (bytes_le 2 p.y) (p.z ∷ []),
      length-bytes_le 2 p.x,
      length-bytes_le 2 p.y,
    ))

-- Fields that fit, with room for all their bytes, are written one behind the other.
pub write_fields-put :
    (fs : List Field) (m : Message)
    → All Fits fs
    → m.position < u16_mod
    → m.size < u16_mod
    → Room (length (encode_all fs)) m
    → write_fields fs m ≡ put (encode_all fs) m
unfolding write_fields encode_all
write_fields-put [] m fits p s r = put-nil m p s
write_fields-put (f ∷ fs) m fits p s r =
    let len = length-append (encode f) (encode_all fs) in
    rw
      (
        write_field-put f m fits.0 (omega arith),
        write_fields-put fs (put (encode f) m) fits.1 (omega arith) (omega arith) (omega arith),
      )
      (put-append (encode f) (encode_all fs) m (omega arith))
