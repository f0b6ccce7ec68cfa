-- ===== src/Map/Corners.antt =====
-- A leaf of src/map.cpp is that of 8 by 8 coordinates: the path through the tree reads the upper 13 bits
-- of both.
use native.Mathlib.Nat.{
  add-mul-div_right, mul-div-mul_left, div-lt_iff_lt-mul, mul_comm, mul_assoc, pow-suc,
}
use dark_global_12_x.Base.{
  ℕ, zero, suc, ◌+◌, ◌*◌, ◌/◌, ◌%◌, ◌^◌, ◌<◌, ◌≡◌, refl, sym, ap, ◌∙◌, ◌↔◌, Bool, true, false, ◌&&◌,
  ◌==◌, arith, ==_iff,
}
use dark_global_12_x.Map.Tree.{index, shl}
use dark_global_12_x.Map.Paths.{same_path}

-- The upper bits of a coordinate: its bit 15, and those of the coordinate shifted.
digit :
    (d e x : ℕ)
    → 0 < d
    → d * e ≡ 32768
    → x % 65536 / d ≡ x / 32768 % 2 * e + shl x % 65536 / (2 * d)
digit d e x pos h =
    let s = x % 32768 in
    let b = x / 32768 % 2 in
    let weight : b * e * d ≡ b * 32768 =
      mul_assoc b e d ∙ ap (λ (k : ℕ). b * k) (mul_comm e d ∙ h) in
    let whole : x % 65536 ≡ s + b * e * d = omega (arith, weight) in
    let shifted : shl x % 65536 ≡ 2 * s = omega arith in
    rw (whole, shifted, add-mul-div_right s (b * e) pos, mul-div-mul_left {m = 2} s d (omega arith))
      (omega arith)

digit-lt : (d e x : ℕ) → 0 < d → d * e ≡ 32768 → shl x % 65536 / (2 * d) < e
digit-lt d e x pos h =
    let size : e * (2 * d) ≡ 65536 = omega (arith, mul_comm e d, h) in
    (div-lt_iff_lt-mul (omega (arith, pos))).1 (omega (arith, size))

digits :
    (e b b' u u' : ℕ)
    → b < 2
    → b' < 2
    → u < e
    → u' < e
    → b * e + u ≡ b' * e + u'
    → (b ≡ b') × (u ≡ u')
digits e zero zero u u' hb hb' hu hu' h = (refl, omega (arith, h))
digits e zero (suc zero) u u' hb hb' hu hu' h = absurd (omega (arith, h))
digits e (suc zero) zero u u' hb hb' hu hu' h = absurd (omega (arith, h))
digits e (suc zero) (suc zero) u u' hb hb' hu hu' h = (refl, omega (arith, h))
digits e (suc (suc b)) b' u u' hb hb' hu hu' h = absurd (omega (arith, hb))
digits e zero (suc (suc b')) u u' hb hb' hu hu' h = absurd (omega (arith, hb'))
digits e (suc zero) (suc (suc b')) u u' hb hb' hu hu' h = absurd (omega (arith, hb'))

bit-lt : (x : ℕ) → x / 32768 % 2 < 2
bit-lt x = omega arith

-- The same upper bits: bit 15 and those of the shifted coordinates.
digits_iff :
    (d e x x' : ℕ)
    → 0 < d
    → d * e ≡ 32768
    → (x % 65536 / d ≡ x' % 65536 / d)
      ↔ ((x / 32768 % 2 ≡ x' / 32768 % 2) × (shl x % 65536 / (2 * d) ≡ shl x' % 65536 / (2 * d)))
digits_iff d e x x' pos h = (
  λ q.
      digits e (x / 32768 % 2) (x' / 32768 % 2) _ _ (bit-lt x) (bit-lt x') (digit-lt d e x pos h)
        (digit-lt d e x' pos h) (sym (digit d e x pos h) ∙ q ∙ digit d e x' pos h),
  λ q.
      digit d e x pos h
      ∙ ap (λ (k : ℕ). k * e + shl x % 65536 / (2 * d)) q.0
      ∙ ap (λ (k : ℕ). x' / 32768 % 2 * e + k) q.1
      ∙ sym (digit d e x' pos h),
)

&&-true : (a b : Bool) → a && b ≡ true → (a ≡ true) × (b ≡ true)
&&-true true b h = (refl, h)
&&-true false b h = absurd (ground (arith, h))

index-bits :
    (x y x' y' : ℕ)
    → index x' y' ≡ index x y
    → (x / 32768 % 2 ≡ x' / 32768 % 2) × (y / 32768 % 2 ≡ y' / 32768 % 2)
index-bits x y x' y' h = (omega (arith, h), omega (arith, h))

same_path_iff :
    (n d x y x' y' : ℕ)
    → 0 < d
    → d * 2 ^ n ≡ 65536
    → (same_path n x y x' y' ≡ true)
      ↔ ((x % 65536 / d ≡ x' % 65536 / d) × (y % 65536 / d ≡ y' % 65536 / d))
unfolding same_path
same_path_iff zero d x y x' y' pos h =
    let e : d ≡ 65536 = omega (arith, h) in rw e (λ p. (omega arith, omega arith), λ q. refl)
same_path_iff (suc n) d x y x' y' pos h =
    let half : d * 2 ^ n ≡ 32768 = omega (arith, h, ap (λ (k : ℕ). d * k) (pow-suc 2 n)) in
    let ih =
      same_path_iff n (2 * d) (shl x) (shl y) (shl x') (shl y') (omega (arith, pos))
        (omega (arith, half, mul_assoc 2 d (2 ^ n))) in
    let ex = digits_iff d (2 ^ n) x x' pos half in
    let ey = digits_iff d (2 ^ n) y y' pos half in
    (
      λ p.
          let both = &&-true (index x' y' == index x y) _ p in
          let bits = index-bits x y x' y' ((==_iff (index x' y') (index x y)).0 both.0) in
          let rest = ih.0 both.1 in (ex.1 (bits.0, rest.0), ey.1 (bits.1, rest.1)),
      λ q.
          let bx = ex.0 q.0 in
          let by = ey.0 q.1 in
          let here = (==_iff (index x' y') (index x y)).1 (omega (arith, bx.0, by.0)) in
          rw (here, ih.1 (bx.1, by.1)) refl,
    )

-- The 13 levels below the root, down to 8 coordinates.
pub same_leaf_iff :
    (x y x' y' : ℕ)
    → (same_path 13 x y x' y' ≡ true)
      ↔ ((x % 65536 / 8 ≡ x' % 65536 / 8) × (y % 65536 / 8 ≡ y' % 65536 / 8))
same_leaf_iff x y x' y' = same_path_iff 13 8 x y x' y' (omega arith) refl
