-- ===== src/Loader/Stream.antt =====
-- src/fileloader.h, PropStream and PropWriteStream: properties written one behind the other, and read
-- in the same order. A stream is the bytes from p to end; a buffer is its bytes.
use dark_global_12_x.Base.{
  ℕ, ◌^◌, ◌-◌, ◌<◌, ◌≡◌, refl, sym, ap, ◌∙◌, false, Option, none, some, List, [], ◌∷◌, ◌++◌,
  append_assoc, append-nil, map, All, arith, ltb, if◌then◌else◌, length, take, drop, take-exact,
  drop-exact, length-append, Bool-cases, inl, inr,
}
use dark_global_12_x.Base.Words.{u16_mod}
use dark_global_12_x.Network.Buffer.{bytes_le, from_le, from_le-bytes_le, length-bytes_le}

-- read<T>, of n = sizeof(T) bytes: what is read and what is left, or nothing, with the stream as it was.
unfoldable pub read : ℕ → List ℕ → Option (ℕ × List ℕ)
read n p = if ltb (length p) n then none else some (from_le (take n p), drop n p)

abbrev pub read_characters : Option (ℕ × List ℕ) → Option (List ℕ × List ℕ)
read_characters none = none
read_characters (some (str_len, p)) =
    if ltb (length p) str_len then none else some (take str_len p, drop str_len p)

-- PropStream::readString
unfoldable pub read_string : List ℕ → Option (List ℕ × List ℕ)
read_string p = read_characters (read 2 p)

-- PropStream::skip
unfoldable pub skip : ℕ → List ℕ → Option (List ℕ)
skip n p = if ltb (length p) n then none else some (drop n p)

-- write<T>
unfoldable pub write : ℕ → ℕ → List ℕ → List ℕ
write n add buffer = buffer ++ bytes_le n add

-- PropWriteStream::writeString: a string that is too long is written as an empty one.
unfoldable pub write_string : List ℕ → List ℕ → List ℕ
unfolding write
write_string str buffer =
    if ltb (u16_mod - 1) (length str) then write 2 0 buffer else write 2 (length str) buffer ++ str

-- A property, as the source writes it by one call and reads it by one call: a number of n bytes or a
-- string.
pub data Field : Type 0 where
  number : (n v : ℕ) → Field
  string : List ℕ → Field

pub data Shape : Type 0 where
  a_number : ℕ → Shape
  a_string : Shape

abbrev pub shape : Field → Shape
shape (number n v) = a_number n
shape (string s) = a_string

unfoldable pub write_field : Field → List ℕ → List ℕ
write_field (number n v) buffer = write n v buffer
write_field (string s) buffer = write_string s buffer

abbrev pub as_number : ℕ → Option (ℕ × List ℕ) → Option (Field × List ℕ)
as_number n none = none
as_number n (some (v, p)) = some (number n v, p)

abbrev pub as_string : Option (List ℕ × List ℕ) → Option (Field × List ℕ)
as_string none = none
as_string (some (s, p)) = some (string s, p)

unfoldable pub read_field : Shape → List ℕ → Option (Field × List ℕ)
read_field (a_number n) p = as_number n (read n p)
read_field a_string p = as_string (read_string p)

unfoldable pub write_props : List Field → List ℕ → List ℕ
write_props [] buffer = buffer
write_props (f ∷ fs) buffer = write_props fs (write_field f buffer)

abbrev pub before : Field → Option (List Field × List ℕ) → Option (List Field × List ℕ)
before f none = none
before f (some (fs, p)) = some (f ∷ fs, p)

unfoldable pub read_props : List Shape → List ℕ → Option (List Field × List ℕ)
read_props [] p = some ([], p)
read_props (k ∷ ks) p = elim (read_field k p) [
  | none ↦ none
  | some (f, q) ↦ before f (read_props ks q)
]

-- What a field is read as, and the numbers that their type holds.
abbrev pub stored : Field → Field
stored (number n v) = number n v
stored (string s) = if ltb (u16_mod - 1) (length s) then string [] else string s

abbrev pub Fits : Field → Type 0
Fits (number n v) = v < 256 ^ n
Fits (string s) = Unit

-- What a field adds to a buffer.
abbrev field_bytes : Field → List ℕ
field_bytes (number n v) = bytes_le n v
field_bytes (string s) =
    if ltb (u16_mod - 1) (length s) then bytes_le 2 0 else bytes_le 2 (length s) ++ s

write_field_lem : (f : Field) (buffer : List ℕ) → write_field f buffer ≡ buffer ++ field_bytes f
unfolding write_field write write_string
write_field_lem (number n v) buffer = refl
write_field_lem (string s) buffer = elim (Bool-cases (ltb (u16_mod - 1) (length s))) [
  | inl long ↦ rw long refl
  | inr short ↦ rw short (append_assoc buffer (bytes_le 2 (length s)) s)
]

read-bytes_le :
    (n v : ℕ) (rest : List ℕ) → v < 256 ^ n → read n (bytes_le n v ++ rest) ≡ some (v, rest)
unfolding read
read-bytes_le n v rest h =
    let l = length-bytes_le n v in
    let enough : ltb (length (bytes_le n v ++ rest)) n ≡ false =
      ground (arith, length-append (bytes_le n v) rest, l) in
    rw
      (
        enough,
        take-exact n (bytes_le n v) rest l,
        drop-exact n (bytes_le n v) rest l,
        from_le-bytes_le n v h,
      )
      refl

read_characters-append :
    (s rest : List ℕ) → read_characters (some (length s, s ++ rest)) ≡ some (s, rest)
read_characters-append s rest =
    let enough : ltb (length (s ++ rest)) (length s) ≡ false =
      ground (arith, length-append s rest) in
    rw (enough, take-exact (length s) s rest refl, drop-exact (length s) s rest refl) refl

read_string-append :
    (s rest : List ℕ)
    → length s < u16_mod
    → read_string ((bytes_le 2 (length s) ++ s) ++ rest) ≡ some (s, rest)
unfolding read_string
read_string-append s rest h =
    rw (append_assoc (bytes_le 2 (length s)) s rest, read-bytes_le 2 (length s) (s ++ rest) h)
      (read_characters-append s rest)

read_field-field_bytes :
    (f : Field) (rest : List ℕ)
    → Fits f
    → read_field (shape f) (field_bytes f ++ rest) ≡ some (stored f, rest)
unfolding read_field read_string
read_field-field_bytes (number n v) rest h = ap (as_number n) (read-bytes_le n v rest h)
read_field-field_bytes (string s) rest h = elim (Bool-cases (ltb (u16_mod - 1) (length s))) [
  | inl long ↦ rw long (
      ap as_string (
        ap read_characters (read-bytes_le 2 0 rest (omega arith)) ∙ read_characters-append [] rest))
  | inr short ↦ rw short (ap as_string (read_string-append s rest (ground (arith, short))))
]

write_props-append :
    (fs : List Field) (b1 b2 : List ℕ) → write_props fs (b1 ++ b2) ≡ b1 ++ write_props fs b2
unfolding write_props
write_props-append [] b1 b2 = refl
write_props-append (f ∷ fs) b1 b2 =
    ap (write_props fs) (
      write_field_lem f (b1 ++ b2)
      ∙ append_assoc b1 b2 (field_bytes f)
      ∙ ap (λ (q : List ℕ). b1 ++ q) (sym (write_field_lem f b2)))
    ∙ write_props-append fs b1 (write_field f b2)

-- Fields written into an empty buffer, with anything behind them, are read back in their order, and
-- what is behind them is left. The numbers must fit their types. A string of more than 65535 bytes
-- is read back as an empty one.
pub read_props-write_props :
    (fs : List Field) (rest : List ℕ)
    → All Fits fs
    → read_props (map shape fs) (write_props fs [] ++ rest) ≡ some (map stored fs, rest)
unfolding read_props write_props
read_props-write_props [] rest h = refl
read_props-write_props (f ∷ fs) rest h =
    let start : write_props fs (write_field f []) ++ rest
        ≡ field_bytes f ++ (write_props fs [] ++ rest) =
      ap (λ (q : List ℕ). write_props fs q ++ rest)
        (write_field_lem f [] ∙ sym (append-nil (field_bytes f)))
      ∙ ap (λ (q : List ℕ). q ++ rest) (write_props-append fs (field_bytes f) [])
      ∙ append_assoc (field_bytes f) (write_props fs []) rest in
    rw (start, read_props, read_field-field_bytes f (write_props fs [] ++ rest) h.0)
      (ap (before (stored f)) (read_props-write_props fs rest h.1))
