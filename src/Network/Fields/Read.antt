-- ===== src/Network/Fields/Read.antt =====
-- Reading fields from a NetworkMessage of src/networkmessage.cpp.
use dark_global_12_x.Base.{
  ℕ, ◌+◌, ◌%◌, ◌^◌, ◌≤◌, ◌<◌, ◌≡◌, refl, ap, ◌∙◌, true, List, [], ◌∷◌, ◌++◌, arith, length, All,
  length-append,
}
use dark_global_12_x.Base.Words.{u16_mod}
use dark_global_12_x.Position.{Position}
use dark_global_12_x.Network.Buffer.{
  read_bytes, bytes_le, length-bytes_le, from_le-bytes_le, Holds, write_bytes-Holds,
  Holds-read_bytes, Holds-split,
}
use dark_global_12_x.Network.Message.{
  Message, can_read, get, get_byte, get_string, get_position, put, advance, take_string, max_size,
}
use dark_global_12_x.Network.Fields.{
  Field, byte, u16, u32, str, position, Fits, encode, read_like, write_fields, read_fields,
  encode_all, Room, IsBuilt,
}
use dark_global_12_x.Network.Fields.Write.{write_fields-put}

-- A reader has n more bytes in front of it.
abbrev pub Readable : ℕ → Message → Type 0
Readable n m = (m.position + n ≤ m.size + 8) × (m.position + n < max_size)

can_read-Readable : (n k : ℕ) (m : Message) → n ≤ k → Readable k m → can_read n m ≡ true
unfolding can_read
can_read-Readable n k m h r = ground arith

pub get-Holds :
    (n v : ℕ) (m : Message)
    → v < 256 ^ n
    → Readable n m
    → Holds m.buffer m.position (bytes_le n v)
    → get n m ≡ (v, advance n m)
unfolding get
get-Holds n v m fits r h =
    let e : read_bytes n m.position m.buffer ≡ bytes_le n v =
      rw length-bytes_le at (Holds-read_bytes m.buffer m.position (bytes_le n v) h) in
    rw (can_read-Readable n n m (omega arith) r, e, from_le-bytes_le n v fits)

get_byte-Holds :
    (v : ℕ) (m : Message)
    → Readable 1 m
    → Holds m.buffer m.position (v ∷ [])
    → get_byte m ≡ (v, advance 1 m)
unfolding get_byte
get_byte-Holds v m r h = rw (can_read-Readable 1 1 m (omega arith) r, h.0)

take_string-Holds :
    (s : List ℕ) (m : Message)
    → Readable (length s) m
    → Holds m.buffer m.position s
    → take_string (length s) m ≡ (s, advance (length s) m)
take_string-Holds s m r h = rw (
  can_read-Readable (length s) (length s) m (omega arith) r,
  Holds-read_bytes m.buffer m.position s h,
)

advance-advance : (a b c : ℕ) (m : Message) → a + b ≡ c → advance b (advance a m) ≡ advance c m
advance-advance a b c m e =
    let p : ((m.position + a) % u16_mod + b) % u16_mod ≡ (m.position + c) % u16_mod = omega arith in
    λ i. record m { position = p i }

abbrev ReadsBack : Field → Message → Type 0
ReadsBack f m = read_like f m ≡ (f, advance (length (encode f)) m)

get_string-Holds :
    (s : List ℕ) (m : Message)
    → length s ≤ 8192
    → Readable (length s + 2) m
    → Holds m.buffer m.position (bytes_le 2 (length s) ++ s)
    → get_string 0 m ≡ (s, advance (length s + 2) m)
unfolding get_string
get_string-Holds s m fits r h =
    let parts =
      Holds-split m.buffer m.position (m.position + 2) (bytes_le 2 (length s)) s
        (omega (arith, length-bytes_le 2 (length s))) h in
    let wide : length s < 256 ^ 2 = omega arith in
    let e : (m.position + 2) % u16_mod ≡ m.position + 2 = omega arith in
    let tail : Holds m.buffer ((m.position + 2) % u16_mod) s = rw e parts.1 in
    rw (
      get-Holds 2 (length s) m wide (omega arith) parts.0,
      take_string-Holds s (advance 2 m) (omega arith) tail,
      advance-advance 2 (length s) (length s + 2) m (omega arith),
    )

get_position-Holds :
    (p : Position) (m : Message)
    → Fits (position p)
    → Readable 5 m
    → Holds m.buffer m.position (encode (position p))
    → get_position m ≡ (p, advance 5 m)
unfolding get_position encode
get_position-Holds p m fits r h =
    let px =
      Holds-split m.buffer m.position (m.position + 2) (bytes_le 2 p.x) _
        (omega (arith, length-bytes_le 2 p.x)) h in
    let py =
      Holds-split m.buffer (m.position + 2) (m.position + 4) (bytes_le 2 p.y) _
        (omega (arith, length-bytes_le 2 p.y)) px.1 in
    let e2 : (m.position + 2) % u16_mod ≡ m.position + 2 = omega arith in
    let e4 : ((m.position + 2) % u16_mod + 2) % u16_mod ≡ m.position + 4 = omega arith in
    let hy : Holds m.buffer ((m.position + 2) % u16_mod) (bytes_le 2 p.y) = rw e2 py.0 in
    let hz : Holds m.buffer (((m.position + 2) % u16_mod + 2) % u16_mod) (p.z ∷ []) = rw e4 py.1 in
    rw
      (
        get-Holds 2 p.x m (omega arith) (omega arith) px.0,
        get-Holds 2 p.y (advance 2 m) (omega arith) (omega arith) hy,
        get_byte-Holds p.z (advance 2 (advance 2 m)) (omega arith) hz,
      )
      (ap (λ (r : Message). (p, r))
        (ap (advance 1) (advance-advance 2 2 4 m (omega arith))
          ∙ advance-advance 4 1 5 m (omega arith)))

read_like-Holds :
    (f : Field) (m : Message)
    → Fits f
    → Readable (length (encode f)) m
    → Holds m.buffer m.position (encode f)
    → read_like f m ≡ (f, advance (length (encode f)) m)
unfolding encode
read_like-Holds (byte v) m fits r h = rw (get_byte-Holds v m r h)
read_like-Holds (u16 v) m fits r h =
    let l = length-bytes_le 2 v in rw (l, get-Holds 2 v m (omega arith) (omega arith) h)
read_like-Holds (u32 v) m fits r h =
    let l = length-bytes_le 4 v in rw (l, get-Holds 4 v m (omega arith) (omega arith) h)
read_like-Holds (str s) m fits r h =
    let l : length (bytes_le 2 (length s) ++ s) ≡ length s + 2 =
      omega (arith, length-append (bytes_le 2 (length s)) s, length-bytes_le 2 (length s)) in
    rw (l, get_string-Holds s m fits.0 (omega arith) h)
read_like-Holds (position p) m fits r h =
    let l : length (encode (position p)) ≡ 5 = omega (
      arith,
      length-append (bytes_le 2 p.x) (bytes_le 2 p.y ++ p.z ∷ []),
      length-append (bytes_le 2 p.y) (p.z ∷ []),
      length-bytes_le 2 p.x,
      length-bytes_le 2 p.y,
    ) in
    rw (l, get_position-Holds p m fits (omega arith) h)

pub read_fields-Holds :
    (fs : List Field) (m : Message)
    → All Fits fs
    → m.position < u16_mod
    → Readable (length (encode_all fs)) m
    → Holds m.buffer m.position (encode_all fs)
    → read_fields fs m ≡ (fs, advance (length (encode_all fs)) m)
unfolding read_fields encode_all
read_fields-Holds [] m fits p r h =
    let e : m.position ≡ (m.position + 0) % u16_mod = omega arith in
    λ i. ([], record m { position = e i })
read_fields-Holds (f ∷ fs) m fits p r h =
    let len = length-append (encode f) (encode_all fs) in
    let parts =
      Holds-split m.buffer m.position (m.position + length (encode f)) (encode f) _ refl h in
    let m1 = advance (length (encode f)) m in
    let e : m1.position ≡ m.position + length (encode f) = omega arith in
    let tail : Holds m1.buffer m1.position (encode_all fs) = rw e parts.1 in
    rw
      (
        read_like-Holds f m fits.0 (omega arith) parts.0,
        read_fields-Holds fs m1 fits.1 (omega arith) (omega arith) tail,
      )
      (ap (λ (r : Message). (f ∷ fs, r)) (advance-advance _ _ _ m (omega arith)))

-- A message that is built up from its start and has room for all the fields: reading it from where
-- the fields were put, in the same order, gives back each field, raises no overrun, and stops
-- behind the last one.
pub read_fields-write_fields :
    (fs : List Field) (m : Message)
    → All Fits fs
    → IsBuilt m
    → Room (length (encode_all fs)) m
    → let w = write_fields fs m in read_fields fs (record w { position = m.position }) ≡ (fs, w)
read_fields-write_fields fs m fits built room =
    rw (write_fields-put fs m fits (omega arith) (omega arith) room) (
      read_fields-Holds fs (record (put (encode_all fs) m) { position = m.position }) fits
        (omega arith) (omega arith) (write_bytes-Holds m.position (encode_all fs) m.buffer))
