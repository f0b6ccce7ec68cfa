-- ===== src/Network/Buffer.antt =====
-- Memory that memcpy moves: a buffer gives the byte at each offset. Numbers are little-endian, as
-- on the machines that the server runs on.
use native.Mathlib.Nat.{pow-suc}
use dark_global_12_x.Base.{
  ℕ, zero, suc, ◌+◌, ◌*◌, ◌/◌, ◌%◌, ◌^◌, ◌≤◌, ◌<◌, ◌≡◌, refl, ap, ◌∙◌, List, [], ◌∷◌, ◌++◌, arith,
  ◌==◌, if◌then◌else◌, length, All,
}

abbrev pub Buffer : Type 0
Buffer = ℕ → ℕ

abbrev pub update : ℕ → ℕ → Buffer → Buffer
update p b buf i = if i == p then b else buf i

-- memcpy(buffer + p, bytes, size)
unfoldable pub write_bytes : ℕ → List ℕ → Buffer → Buffer
write_bytes p [] buf = buf
write_bytes p (b ∷ bs) buf = write_bytes (suc p) bs (update p b buf)

-- memcpy(&bytes, buffer + p, n)
unfoldable pub read_bytes : ℕ → ℕ → Buffer → List ℕ
read_bytes zero p buf = []
read_bytes (suc n) p buf = buf p ∷ read_bytes n (suc p) buf

-- The n low bytes of a number, and back.
unfoldable pub bytes_le : ℕ → ℕ → List ℕ
bytes_le zero v = []
bytes_le (suc n) v = v % 256 ∷ bytes_le n (v / 256)

unfoldable pub from_le : List ℕ → ℕ
from_le [] = 0
from_le (b ∷ bs) = b + 256 * from_le bs

pub length-bytes_le : (n v : ℕ) → length (bytes_le n v) ≡ n
unfolding bytes_le
length-bytes_le zero v = refl
length-bytes_le (suc n) v = ap suc (length-bytes_le n (v / 256))

pub from_le-bytes_le : (n v : ℕ) → v < 256 ^ n → from_le (bytes_le n v) ≡ v
unfolding from_le bytes_le
from_le-bytes_le zero v h = omega arith
from_le-bytes_le (suc n) v h =
    let h' : v < 256 * 256 ^ n = omega (arith, pow-suc 256 n) in
    omega (arith, from_le-bytes_le n (v / 256) (omega arith))

-- What is written and what is there already are bytes.
pub write_bytes-lt :
    (p : ℕ) (bs : List ℕ) (buf : Buffer)
    → All (λ b. b < 256) bs
    → ((i : ℕ) → buf i < 256)
    → (i : ℕ) → write_bytes p bs buf i < 256
unfolding write_bytes
write_bytes-lt p [] buf h k = k
write_bytes-lt p (b ∷ bs) buf h k =
    write_bytes-lt (suc p) bs (update p b buf) h.1 (λ i. ground (arith, k i))

pub bytes_le-lt : (n v : ℕ) → All (λ b. b < 256) (bytes_le n v)
unfolding bytes_le
bytes_le-lt zero v = tt
bytes_le-lt (suc n) v = (omega arith, bytes_le-lt n (v / 256))

-- The bytes at an offset are those of a list.
abbrev pub Holds : Buffer → ℕ → List ℕ → Type 0
Holds buf p [] = Unit {0}
Holds buf p (b ∷ bs) = (buf p ≡ b) × Holds buf (suc p) bs

pub write_bytes-below :
    (p : ℕ) (bs : List ℕ) (buf : Buffer) (i : ℕ) → i < p → write_bytes p bs buf i ≡ buf i
unfolding write_bytes
write_bytes-below p [] buf i h = refl
write_bytes-below p (b ∷ bs) buf i h =
    ground (arith, write_bytes-below (suc p) bs (update p b buf) i)

pub write_bytes-above :
    (p : ℕ) (bs : List ℕ) (buf : Buffer) (i : ℕ)
    → p + length bs ≤ i
    → write_bytes p bs buf i ≡ buf i
unfolding write_bytes
write_bytes-above p [] buf i h = refl
write_bytes-above p (b ∷ bs) buf i h =
    ground (arith, write_bytes-above (suc p) bs (update p b buf) i)

pub write_bytes-append :
    (p : ℕ) (bs cs : List ℕ) (buf : Buffer)
    → write_bytes p (bs ++ cs) buf ≡ write_bytes (p + length bs) cs (write_bytes p bs buf)
unfolding write_bytes
write_bytes-append p [] cs buf = let e : p + 0 ≡ p = omega arith in rw e
write_bytes-append p (b ∷ bs) cs buf =
    let e : p + suc (length bs) ≡ suc p + length bs = omega arith in
    rw e (write_bytes-append (suc p) bs cs (update p b buf))

pub write_bytes-Holds : (p : ℕ) (bs : List ℕ) (buf : Buffer) → Holds (write_bytes p bs buf) p bs
unfolding write_bytes
write_bytes-Holds p [] buf = tt
write_bytes-Holds p (b ∷ bs) buf = (
  ground (arith, write_bytes-below (suc p) bs (update p b buf) p),
  write_bytes-Holds (suc p) bs (update p b buf),
)

pub Holds-read_bytes :
    (buf : Buffer) (p : ℕ) (bs : List ℕ) → Holds buf p bs → read_bytes (length bs) p buf ≡ bs
unfolding read_bytes
Holds-read_bytes buf p [] h = refl
Holds-read_bytes buf p (b ∷ bs) h = ground (arith, Holds-read_bytes buf (suc p) bs h.1)

-- What lies below an offset is kept when the bytes from there on change.
pub Holds-agree :
    (buf buf' : Buffer) (p q : ℕ) (bs : List ℕ)
    → ((i : ℕ) → i < q → buf' i ≡ buf i)
    → p + length bs ≤ q
    → Holds buf p bs
    → Holds buf' p bs
Holds-agree buf buf' p q [] same h held = tt
Holds-agree buf buf' p q (b ∷ bs) same h held =
    (ground (arith, same p), Holds-agree buf buf' (suc p) q bs same (omega arith) held.1)

-- And what lies from an offset on is kept when the bytes below change.
pub Holds-from :
    (buf buf' : Buffer) (p q : ℕ) (bs : List ℕ)
    → ((i : ℕ) → p ≤ i → buf' i ≡ buf i)
    → p ≤ q
    → Holds buf q bs
    → Holds buf' q bs
Holds-from buf buf' p q [] same h held = tt
Holds-from buf buf' p q (b ∷ bs) same h held =
    (same q h ∙ held.0, Holds-from buf buf' p (suc q) bs same (omega arith) held.1)

pub Holds-within :
    (buf buf' : Buffer) (p end q : ℕ) (bs : List ℕ)
    → ((i : ℕ) → p ≤ i → i < end → buf' i ≡ buf i)
    → p ≤ q
    → q + length bs ≤ end
    → Holds buf q bs
    → Holds buf' q bs
Holds-within buf buf' p end q [] same h k held = tt
Holds-within buf buf' p end q (b ∷ bs) same h k held = (
  same q h (omega arith) ∙ held.0,
  Holds-within buf buf' p end (suc q) bs same (omega arith) (omega arith) held.1,
)

pub Holds-append :
    (buf : Buffer) (p q : ℕ) (bs cs : List ℕ)
    → p + length bs ≡ q
    → Holds buf p bs
    → Holds buf q cs
    → Holds buf p (bs ++ cs)
Holds-append buf p q [] cs e hb hc = let e' : q ≡ p = omega arith in rw e' at hc
Holds-append buf p q (b ∷ bs) cs e hb hc =
    (hb.0, Holds-append buf (suc p) q bs cs (omega arith) hb.1 hc)

pub Holds-split :
    (buf : Buffer) (p q : ℕ) (bs cs : List ℕ)
    → p + length bs ≡ q
    → Holds buf p (bs ++ cs)
    → Holds buf p bs × Holds buf q cs
Holds-split buf p q [] cs e h = let e' : p ≡ q = omega arith in (tt, rw e' at h)
Holds-split buf p q (b ∷ bs) cs e h =
    let rest = Holds-split buf (suc p) q bs cs (omega arith) h.1 in ((h.0, rest.0), rest.1)
