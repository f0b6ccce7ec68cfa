-- ===== src/Network/Xtea/Loop.antt =====
-- The outer loops of Protocol::XTEA_encrypt and Protocol::XTEA_decrypt over a message's bytes.
use dark_global_12_x.Base.{
  ℕ, zero, suc, ◌+◌, ◌≤◌, ◌<◌, ◌≡◌, refl, ◌∙◌, ◌⊎◌, inl, inr, arith, Bool-cases, ltb, ltb→lt,
  ltb→ge,
}
use dark_global_12_x.Network.Buffer.{Buffer}
use dark_global_12_x.Network.Xtea.{
  Key, encrypt_block, decrypt_block, read_word, write_word, crypt_block, crypt_loop,
}
use dark_global_12_x.Network.Xtea.Block.{decrypt_block-encrypt_block, encrypt_block-lt}
use dark_global_12_x.Network.Xtea.Words.{
  Same, IsBytes, read_word-lt, read_word-write_word, read_word-Same, write_word-outside,
  write_word-Same, write_word-IsBytes,
}

module _ (f : ℕ × ℕ → ℕ × ℕ) where
  pub crypt_block-outside :
      (p : ℕ) (buf : Buffer) (i : ℕ) → (i < p) ⊎ (p + 8 ≤ i) → crypt_block f p buf i ≡ buf i
  unfolding crypt_block
  crypt_block-outside p buf i h =
      let w = f (read_word p buf, read_word (p + 4) buf) in
      write_word-outside (p + 4) w.1 (write_word p w.0 buf) i (omega arith)
      ∙ write_word-outside p w.0 buf i (omega arith)

  crypt_block-IsBytes : (p : ℕ) (buf : Buffer) → IsBytes buf → IsBytes (crypt_block f p buf)
  unfolding crypt_block
  crypt_block-IsBytes p buf h = write_word-IsBytes (p + 4) _ _ (write_word-IsBytes p _ buf h)

  -- The loop changes nothing in front of its first block.
  pub crypt_loop-below :
      (fuel base r len : ℕ) (buf : Buffer) (i : ℕ)
      → i < base + r
      → crypt_loop f fuel base r len buf i ≡ buf i
  unfolding crypt_loop
  crypt_loop-below zero base r len buf i h = refl
  crypt_loop-below (suc fuel) base r len buf i h = ground (
    arith,
    crypt_loop-below fuel base (r + 8) len (crypt_block f (base + r) buf) i,
    crypt_block-outside (base + r) buf i,
  )

module _ (k : Key) where
  encrypted_words :
      (p : ℕ) (buf buf' : Buffer)
      → Same p 8 (crypt_block (encrypt_block k) p buf) buf'
      → let w = encrypt_block k (read_word p buf, read_word (p + 4) buf) in
        (read_word p buf' ≡ w.0) × (read_word (p + 4) buf' ≡ w.1)
  unfolding crypt_block
  encrypted_words p buf buf' same =
      let w = encrypt_block k (read_word p buf, read_word (p + 4) buf) in
      let fits = encrypt_block-lt k (read_word p buf) (read_word (p + 4) buf) in
      let first = write_word p w.0 buf in
      let both = write_word (p + 4) w.1 first in
      (
        read_word-Same p both buf' (λ i a b. same i a (omega arith))
            ∙ read_word-Same p first both
                (λ i a b. write_word-outside (p + 4) w.1 first i (inl (omega arith)))
            ∙ read_word-write_word p w.0 buf fits.0,
        read_word-Same (p + 4) both buf' (λ i a b. same i (omega arith) (omega arith))
            ∙ read_word-write_word (p + 4) w.1 first fits.1,
      )

  -- Decrypting a block whose bytes are an encrypted block's gives that block's bytes.
  crypt_block-back :
      (p : ℕ) (buf buf' : Buffer)
      → IsBytes buf
      → Same p 8 (crypt_block (encrypt_block k) p buf) buf'
      → Same p 8 buf (crypt_block (decrypt_block k) p buf')
  unfolding crypt_block
  crypt_block-back p buf buf' h same i lo hi =
      let words = encrypted_words p buf buf' same in
      let a = read_word p buf in
      let b = read_word (p + 4) buf in
      let plain =
        decrypt_block-encrypt_block k a b (read_word-lt p buf h) (read_word-lt (p + 4) buf h) in
      let first = write_word p a buf' in
      rw (words.0, words.1, plain)
        (elim (Bool-cases (ltb i (p + 4))) [
          | inl low ↦
              write_word-outside (p + 4) b first i (inl (ltb→lt i (p + 4) low))
              ∙ write_word-Same p buf buf' h i lo (ltb→lt i (p + 4) low)
          | inr high ↦ write_word-Same (p + 4) buf first h i (ltb→ge i (p + 4) high) (omega arith)
        ])

  -- One turn of both loops, from the later turns.
  crypt_loop-back_more :
      (fuel base r len : ℕ) (buf buf' : Buffer)
      → IsBytes buf
      → ((i : ℕ)
          → base + r ≤ i
          → buf' i
            ≡ crypt_loop
                (encrypt_block k)
                fuel
                base
                (r + 8)
                len
                (crypt_block (encrypt_block k) (base + r) buf)
                i)
      → (((i : ℕ)
            → base + (r + 8) ≤ i
            → crypt_block (decrypt_block k) (base + r) buf' i
              ≡ crypt_loop
                  (encrypt_block k)
                  fuel
                  base
                  (r + 8)
                  len
                  (crypt_block (encrypt_block k) (base + r) buf)
                  i)
          → (i : ℕ) → base + (r + 8) ≤ i
          → crypt_loop
              (decrypt_block k)
              fuel
              base
              (r + 8)
              len
              (crypt_block (decrypt_block k) (base + r) buf')
              i
            ≡ crypt_block (encrypt_block k) (base + r) buf i)
      → (i : ℕ) → base + r ≤ i
      → crypt_loop
          (decrypt_block k)
          fuel
          base
          (r + 8)
          len
          (crypt_block (decrypt_block k) (base + r) buf')
          i
        ≡ buf i
  crypt_loop-back_more fuel base r len buf buf' h same later i lo =
      elim (Bool-cases (ltb i (base + r + 8))) [
        | inl low ↦
            crypt_loop-below (decrypt_block k) fuel base (r + 8) len _ i (ground arith)
            ∙ crypt_block-back (base + r) buf buf' h block i lo (ltb→lt i _ low)
        | inr high ↦
            later after i (ground arith)
            ∙ crypt_block-outside (encrypt_block k) (base + r) buf i (inr (ltb→ge i _ high))
      ]
    where
      enc : Buffer
      enc = crypt_block (encrypt_block k) (base + r) buf

      block : Same (base + r) 8 enc buf'
      block j a b =
          same j a ∙ crypt_loop-below (encrypt_block k) fuel base (r + 8) len enc j (omega arith)

      after :
          (j : ℕ)
          → base + (r + 8) ≤ j
          → crypt_block (decrypt_block k) (base + r) buf' j
            ≡ crypt_loop (encrypt_block k) fuel base (r + 8) len enc j
      after j a =
          crypt_block-outside (decrypt_block k) (base + r) buf' j (inr (omega arith))
          ∙ same j (omega arith)

  -- Decrypting, block by block, what agrees with an encrypted buffer from the first block on gives
  -- back the bytes that were encrypted, from that block on.
  pub crypt_loop-back :
      (fuel base r len : ℕ) (buf buf' : Buffer)
      → IsBytes buf
      → ((i : ℕ) → base + r ≤ i → buf' i ≡ crypt_loop (encrypt_block k) fuel base r len buf i)
      → (i : ℕ) → base + r ≤ i
      → crypt_loop (decrypt_block k) fuel base r len buf' i ≡ buf i
  unfolding crypt_loop
  crypt_loop-back zero base r len buf buf' h same = same
  crypt_loop-back (suc fuel) base r len buf buf' h same = elim (Bool-cases (ltb r len)) [
    | inl more ↦ rw more (
        crypt_loop-back_more fuel base r len buf buf' h (rw more at same) (
          crypt_loop-back fuel base (r + 8) len (crypt_block (encrypt_block k) (base + r) buf)
            (crypt_block (decrypt_block k) (base + r) buf')
            (crypt_block-IsBytes (encrypt_block k) (base + r) buf h)))
    | inr done ↦ rw done (rw done at same)
  ]
