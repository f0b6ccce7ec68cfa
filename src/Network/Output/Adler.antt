-- ===== src/Network/Output/Adler.antt =====
-- adlerChecksum of src/tools.cpp, which puts its reductions off to the end of a chunk, and the
-- checksum that reduces at every byte.
use dark_global_12_x.Base.{
  ℕ, zero, suc, ◌+◌, ◌-◌, ◌*◌, ◌%◌, ◌^◌, ◌≤◌, ◌<◌, ◌≡◌, refl, sym, ap, ◌∙◌, List, [], ◌∷◌, ◌++◌,
  arith, length, All, take, drop, ltb, if◌then◌else◌,
}
use dark_global_12_x.Base.Words.{u32_mod}
use dark_global_12_x.Network.Message.{max_size}
use dark_global_12_x.Network.Output.{adler, adler_chunk, adler_loop, adler_checksum, reduce}

-- RFC 1950: both sums modulo 65521 after each byte.
unfoldable pub adler_sums : List ℕ → ℕ × ℕ → ℕ × ℕ
adler_sums [] (a, b) = (a, b)
adler_sums (x ∷ xs) (a, b) = let a' = (a + x) % adler in adler_sums xs (a', (b + a') % adler)

-- The second sum after k bytes of the greatest value.
worst : ℕ → ℕ → ℕ → ℕ
worst zero a b = b
worst (suc k) a b = worst k (a + 255) (b + a + 255)

worst_mono : (k a b a' b' : ℕ) → a ≤ a' → b ≤ b' → worst k a b ≤ worst k a' b'
unfolding worst
worst_mono zero a b a' b' h h' = h'
worst_mono (suc k) a b a' b' h h' =
    worst_mono k (a + 255) (b + a + 255) (a' + 255) (b' + a' + 255) (omega arith) (omega arith)

worst-suc : (k a b : ℕ) → worst k a b ≤ worst (suc k) a b
unfolding worst
worst-suc k a b = worst_mono k a b (a + 255) (b + a + 255) (omega arith) (omega arith)

worst-ge : (k a b : ℕ) → b + k * a ≤ worst k a b
unfolding worst
worst-ge zero a b = omega arith
worst-ge (suc k) a b = omega (arith, worst-ge k (a + 255) (b + a + 255))

worst-le : (k n a b : ℕ) → k ≤ n → worst k a b ≤ worst n a b
unfolding worst
worst-le zero zero a b h = omega arith
worst-le (suc k) zero a b h = absurd (omega arith)
worst-le zero (suc n) a b h = omega (arith, worst-le zero n a b (omega arith), worst-suc n a b)
worst-le (suc k) (suc n) a b h = worst-le k n (a + 255) (b + a + 255) (omega arith)

-- No sum of a chunk overflows, so its residues are the reduced sums.
chunk-sums :
    (xs : List ℕ) (a b : ℕ)
    → All (λ x. x < 256) xs
    → worst (length xs) a b < u32_mod
    → a + 255 * length xs < u32_mod
    → reduce (adler_chunk xs (a, b)) ≡ adler_sums xs (a % adler, b % adler)
unfolding adler_chunk adler_sums worst
chunk-sums [] a b h w s = refl
chunk-sums (x ∷ xs) a b h w s =
    let k = length xs in
    let small : b + a + 255 < u32_mod = omega (arith, worst-ge k (a + 255) (b + a + 255)) in
    let ea : (a + x) % u32_mod ≡ a + x = omega arith in
    let eb : (b + (a + x) % u32_mod) % u32_mod ≡ b + (a + x) = omega arith in
    let next =
      worst_mono k (a + x) (b + (a + x)) (a + 255) (b + a + 255) (omega arith) (omega arith) in
    let ra : (a + x) % adler ≡ (a % adler + x) % adler = omega arith in
    let rb : (b + (a + x)) % adler ≡ (b % adler + (a % adler + x) % adler) % adler = omega arith in
    ap (λ (s : ℕ × ℕ). reduce (adler_chunk xs s)) (λ i. (ea i, eb i))
    ∙ chunk-sums xs (a + x) (b + (a + x)) h.1 (omega arith) (omega arith)
    ∙ ap (adler_sums xs) (λ i. (ra i, rb i))

sums-append :
    (xs ys : List ℕ) (s : ℕ × ℕ) → adler_sums (xs ++ ys) s ≡ adler_sums ys (adler_sums xs s)
unfolding adler_sums
sums-append [] ys s = refl
sums-append (x ∷ xs) ys s = sums-append xs ys _

sums-lt :
    (xs : List ℕ) (a b : ℕ)
    → a < adler
    → b < adler
    → ((adler_sums xs (a, b)).0 < adler) × ((adler_sums xs (a, b)).1 < adler)
unfolding adler_sums
sums-lt [] a b h h' = (h, h')
sums-lt (x ∷ xs) a b h h' = sums-lt xs _ _ (omega arith) (omega arith)

take-append-drop : (n : ℕ) (xs : List ℕ) → take n xs ++ drop n xs ≡ xs
take-append-drop zero xs = refl
take-append-drop (suc n) [] = refl
take-append-drop (suc n) (x ∷ xs) = rw (take-append-drop n xs)

length-take-le : (n : ℕ) (xs : List ℕ) → length (take n xs) ≤ n
length-take-le zero xs = omega arith
length-take-le (suc n) [] = omega arith
length-take-le (suc n) (x ∷ xs) = omega (arith, length-take-le n xs)

length-drop-le : (n : ℕ) (xs : List ℕ) → length (drop n xs) ≤ length xs
length-drop-le zero xs = omega arith
length-drop-le (suc n) [] = omega arith
length-drop-le (suc n) (x ∷ xs) = omega (arith, length-drop-le n xs)

All-take : (n : ℕ) (xs : List ℕ) → All (λ x. x < 256) xs → All (λ x. x < 256) (take n xs)
All-take zero xs h = tt
All-take (suc n) [] h = tt
All-take (suc n) (x ∷ xs) h = (h.0, All-take n xs h.1)

All-drop : (n : ℕ) (xs : List ℕ) → All (λ x. x < 256) xs → All (λ x. x < 256) (drop n xs)
All-drop zero xs h = h
All-drop (suc n) [] h = tt
All-drop (suc n) (x ∷ xs) h = All-drop n xs h.1

-- A chunk size at which the second sum stays below 2 ^ 32 from any reduced sums.
abbrev IsSafe : ℕ → Type 0
IsSafe n = (worst n (adler - 1) (adler - 1) < u32_mod) × (n < 100000)

-- One turn of the outer loop.
turn-sums :
    (n : ℕ) (xs : List ℕ) (a b : ℕ)
    → IsSafe n
    → All (λ x. x < 256) xs
    → a < adler
    → b < adler
    → reduce (adler_chunk (take n xs) (a, b)) ≡ adler_sums (take n xs) (a, b)
turn-sums n xs a b safe h ha hb =
    let k = length (take n xs) in
    let short = length-take-le n xs in
    let bound = worst_mono k a b (adler - 1) (adler - 1) (omega arith) (omega arith) in
    let longer = worst-le k n (adler - 1) (adler - 1) short in
    let ra : a % adler ≡ a = omega arith in
    let rb : b % adler ≡ b = omega arith in
    chunk-sums (take n xs) a b (All-take n xs h) (omega arith) (omega arith)
    ∙ ap (adler_sums (take n xs)) (λ i. (ra i, rb i))

loop-sums :
    (c fuel : ℕ) (xs : List ℕ) (a b : ℕ)
    → IsSafe (suc c)
    → All (λ x. x < 256) xs
    → a < adler
    → b < adler
    → length xs ≤ fuel
    → adler_loop (suc c) fuel xs (a, b) ≡ adler_sums xs (a, b)
unfolding adler_loop
loop-sums c zero [] a b safe h ha hb l = unfold adler_sums in refl
loop-sums c zero (x ∷ xs) a b safe h ha hb l = absurd (omega arith)
loop-sums c (suc fuel) [] a b safe h ha hb l = unfold adler_sums in refl
loop-sums c (suc fuel) (x ∷ xs) a b safe h ha hb l =
    let first = take (suc c) (x ∷ xs) in
    let rest = drop (suc c) (x ∷ xs) in
    let s = adler_sums first (a, b) in
    let fits = sums-lt first a b ha hb in
    let fewer = length-drop-le c xs in
    ap (adler_loop (suc c) fuel rest) (turn-sums (suc c) (x ∷ xs) a b safe h ha hb)
    ∙ loop-sums c fuel rest s.0 s.1 safe (All-drop (suc c) (x ∷ xs) h) fits.0 fits.1 (omega arith)
    ∙ sym (sums-append first rest (a, b))
    ∙ ap (λ (ys : List ℕ). adler_sums ys (a, b)) (take-append-drop (suc c) (x ∷ xs))

safe_5552 : worst 5552 65520 65520 ≡ 4294690200
unfolding worst
safe_5552 = refl

-- The checksum of up to 24590 bytes is that of the sums which are reduced at every byte, the second
-- in the high half of the word, though the code reduces only once for each chunk of 5552 bytes; a
-- longer message has the checksum 0.
pub adler_checksum-adler_sums :
    (bytes : List ℕ)
    → All (λ x. x < 256) bytes
    → adler_checksum bytes ≡ (
        if ltb max_size (length bytes)
        then 0
        else (adler_sums bytes (1, 0)).1 * 2 ^ 16 + (adler_sums bytes (1, 0)).0)
unfolding adler_checksum
adler_checksum-adler_sums bytes h =
    let safe : IsSafe 5552 = (omega (arith, safe_5552), omega arith) in
    let e =
      loop-sums 5551 (length bytes) bytes 1 0 safe h (omega arith) (omega arith) (omega arith) in
    let fits = sums-lt bytes 1 0 (omega arith) (omega arith) in
    let word : ((adler_sums bytes (1, 0)).1 * 2 ^ 16 + (adler_sums bytes (1, 0)).0) % u32_mod
        ≡ (adler_sums bytes (1, 0)).1 * 2 ^ 16 + (adler_sums bytes (1, 0)).0 =
      omega arith in
    rw (e, word)
