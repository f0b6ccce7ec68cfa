-- ===== src/Network/Xtea/Block.antt =====
-- Encryption and decryption of a block of two words: Protocol::XTEA_encrypt and XTEA_decrypt.
use dark_global_12_x.Base.{ℕ, zero, suc, ◌<◌, ◌≡◌, refl, ◌∙◌, arith}
use dark_global_12_x.Base.Words.{
  u32_mod, add32, sub32, add32-lt, sub32-lt, sub32-add32, add32-sub32,
}
use dark_global_12_x.Network.Xtea.{
  Key, State, mix, delta, low_index, high_index, encrypt_round, decrypt_round, repeat,
  encrypt_block, decrypt_block, rounds,
}

pub record Fits (s : State) : Type 0 where
  pub sum_fits : s.sum < u32_mod
  pub v0_fits : s.v0 < u32_mod
  pub v1_fits : s.v1 < u32_mod

mix-lt : (k : Key) (v sum i : ℕ) → mix k v sum i < u32_mod
unfolding mix
mix-lt k v sum i = omega arith

encrypt_round-Fits : (k : Key) (s : State) → Fits (encrypt_round k s)
unfolding encrypt_round
encrypt_round-Fits k s = record {
  sum_fits = sub32-lt _ _;
  v0_fits = add32-lt _ _;
  v1_fits = add32-lt _ _;
}

decrypt_round-encrypt_round :
    (k : Key) (s : State) → Fits s → decrypt_round k (encrypt_round k s) ≡ s
unfolding encrypt_round decrypt_round
decrypt_round-encrypt_round k s h =
    let sum' = sub32 s.sum delta in
    let a = mix k s.v1 s.sum (low_index s.sum) in
    let v0' = add32 s.v0 a in
    let b = mix k v0' sum' (high_index sum') in
    rw (
      sub32-add32 s.v1 b h.v1_fits (mix-lt k v0' sum' (high_index sum')),
      add32-sub32 s.sum delta h.sum_fits (omega arith),
      sub32-add32 s.v0 a h.v0_fits (mix-lt k s.v1 s.sum (low_index s.sum)),
    )

-- The order of the turns does not matter where they are all the same.
repeat-body {ℓ} :
    {S : Type ℓ} (n : ℕ) (body : S → S) (s : S) → repeat n body (body s) ≡ body (repeat n body s)
unfolding repeat
repeat-body zero body s = refl
repeat-body (suc n) body s = repeat-body n body (body s)

repeat-Fits : (n : ℕ) (k : Key) (s : State) → Fits s → Fits (repeat n (encrypt_round k) s)
unfolding repeat
repeat-Fits zero k s h = h
repeat-Fits (suc n) k s h = repeat-Fits n k (encrypt_round k s) (encrypt_round-Fits k s)

repeat_back :
    (n : ℕ) (k : Key) (s : State)
    → Fits s
    → repeat n (decrypt_round k) (repeat n (encrypt_round k) s) ≡ s
unfolding repeat
repeat_back zero k s h = refl
repeat_back (suc n) k s h =
    rw
      (
        repeat-body n (encrypt_round k) s,
        decrypt_round-encrypt_round k (repeat n (encrypt_round k) s) (repeat-Fits n k s h),
      )
      (repeat_back n k s h)

-- The sum of the encryption does not depend on the words.
repeat-sum :
    (n : ℕ) (k : Key) (s : State)
    → (repeat n (encrypt_round k) s).sum ≡ repeat n (λ t. sub32 t delta) s.sum
unfolding repeat encrypt_round
repeat-sum zero k s = refl
repeat-sum (suc n) k s = repeat-sum n k (encrypt_round k s)

last_sum : repeat rounds (λ t. sub32 t delta) 0 ≡ 0xC6EF3720
unfolding repeat sub32
last_sum = refl

-- Decryption gives back every block of two 32-bit words that was encrypted under the same key.
pub decrypt_block-encrypt_block :
    (k : Key) (v0 v1 : ℕ)
    → v0 < u32_mod
    → v1 < u32_mod
    → decrypt_block k (encrypt_block k (v0, v1)) ≡ (v0, v1)
unfolding encrypt_block decrypt_block
decrypt_block-encrypt_block k v0 v1 h0 h1 =
    let s : State = record { sum = 0; v0 = v0; v1 = v1 } in
    let e = repeat rounds (encrypt_round k) s in
    let sums : e.sum ≡ 0xC6EF3720 = repeat-sum rounds k s ∙ last_sum in
    let fits : Fits s = record { sum_fits = omega arith; v0_fits = h0; v1_fits = h1 } in
    let back : repeat rounds (decrypt_round k) (record e { sum = 0xC6EF3720 }) ≡ s =
      rw (← sums) (repeat_back rounds k s fits) in
    rw back

-- Each word of an encrypted block is a 32-bit word.
pub encrypt_block-lt :
    (k : Key) (v0 v1 : ℕ)
    → ((encrypt_block k (v0, v1)).0 < u32_mod) × ((encrypt_block k (v0, v1)).1 < u32_mod)
unfolding encrypt_block repeat encrypt_round
encrypt_block-lt k v0 v1 = (add32-lt _ _, add32-lt _ _)
