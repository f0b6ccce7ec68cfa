-- ===== src/Map/Spectators/Window.antt =====
-- The window of a search of src/map.cpp on one axis, and tests put together.
use dark_global_12_x.Base.{
  ℕ, ◌+◌, ◌-◌, ◌*◌, ◌%◌, ◌/◌, ◌<◌, ◌≤◌, ◌≡◌, refl, sym, ap, ◌∙◌, Bool, true, false, ◌&&◌, ◌||◌,
  arith, if◌then◌else◌,
}
use dark_global_12_x.Base.Words.{u16_mod}
use dark_global_12_x.Map.Spectators.{Search, sees, out_of, clamp, steps}

-- Where a place on one axis is in range, the loop over that axis meets its leaf.
pub meets-steps :
    (x1 x2 place : ℕ)
    → x1 ≤ place
    → place ≤ x2
    → (place - (x1 - x1 % 8)) / 8 < steps (x1 - x1 % 8) (x2 - x2 % 8)
meets-steps x1 x2 place lo hi = ground (arith, lo, hi)

pub meets-corner :
    (x1 place : ℕ)
    → x1 ≤ place
    → (x1 - x1 % 8 + (place - (x1 - x1 % 8)) / 8 * 8) % 65536 / 8 ≡ place % 65536 / 8
meets-corner x1 place lo = omega (arith, lo)

pub clamp-low : (n place : ℕ) → n ≤ place → clamp n ≤ place
clamp-low n place h = ground (arith, h)

pub clamp-high : (n place : ℕ) → place ≤ n → place < u16_mod → place ≤ clamp n
clamp-high n place h k = ground (arith, h, k)

pub axis-low :
    (center min_range max_range center_z at z max_z : ℕ)
    → out_of center min_range max_range center_z at z ≡ false
    → z ≤ max_z
    → clamp (center + center_z - (min_range + max_z)) ≤ at
axis-low center min_range max_range center_z at z max_z h k =
    clamp-low (center + center_z - (min_range + max_z)) at (ground (arith, h, k))

pub axis-high :
    (center min_range max_range center_z at z min_z : ℕ)
    → out_of center min_range max_range center_z at z ≡ false
    → min_z ≤ z
    → at < u16_mod
    → at ≤ clamp (center + max_range + center_z - min_z)
axis-high center min_range max_range center_z at z min_z h k small =
    clamp-high (center + max_range + center_z - min_z) at (ground (arith, h, k)) small

pub sees-parts :
    (s : Search) (c : ℕ)
    → sees s c ≡ true
    → (s.min_range_z ≤ (s.position c).z)
      × ((s.position c).z ≤ s.max_range_z)
      × (out_of s.center_pos.y s.min_range_y s.max_range_y s.center_pos.z
            (s.position c).y
            (s.position c).z
          ≡ false)
      × (out_of s.center_pos.x s.min_range_x s.max_range_x s.center_pos.z
            (s.position c).x
            (s.position c).z
          ≡ false)
sees-parts s c h = (ground (arith, h), ground (arith, h), ground (arith, h), ground (arith, h))

pub regroup : (a b d e : Bool) → ((a || (b && e)) || (d && e)) ≡ (a || ((b || d) && e))
regroup true b d e = refl
regroup false true d true = refl
regroup false true true false = refl
regroup false true false false = refl
regroup false false d e = refl

pub or_true : (a : Bool) → a || true ≡ true
or_true true = refl
or_true false = refl

pub one :
    (k q a b e : Bool)
    → (k ≡ true → q ≡ e)
    → ((if q then (k || a) else a) || (b && e)) ≡ (a || ((k || b) && e))
one true q a b true h = rw (h refl) (sym (or_true a))
one true q a b false h = rw (h refl) (ap (λ (d : Bool). a || d) (and_false b))
  where
    and_false : (b : Bool) → b && false ≡ false
    and_false true = refl
    and_false false = refl
one false true a b e h = refl
one false false a b e h = refl

pub found_iff :
    (a b e : Bool) (spectators : Bool)
    → (e ≡ true → a ≡ b)
    → (spectators || (a && e)) ≡ (spectators || (b && e))
found_iff a b true q h = ap (λ (k : Bool). q || (k && true)) (h refl)
found_iff a b false q h = ap (λ (k : Bool). q || k) (none_false a ∙ sym (none_false b))
  where
    none_false : (k : Bool) → k && false ≡ false
    none_false true = refl
    none_false false = refl
