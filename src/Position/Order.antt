-- ===== src/Position/Order.antt =====
-- The order, the range test and the arithmetic of src/position.h.
use dark_global_12_x.Base.{
  ℕ, ◌+◌, ◌≤◌, ◌<◌, ◌≡◌, ◌↔◌, ◌⊎◌, Bool, true, false, not, ◌&&◌, ◌||◌, arith, leb,
}
use dark_global_12_x.Base.Int.{sub_ℕ, abs}
use dark_global_12_x.Base.Words.{u8_mod, u16_mod}
use dark_global_12_x.Position.{Position, are_in_range, less, greater, equal, unequal, plus, minus}

-- The coordinates fit their types.
pub record IsValid (p : Position) : Type 0 where
  pub x_fits : p.x < u16_mod
  pub y_fits : p.y < u16_mod
  pub z_fits : p.z < u8_mod

-- operator< is transitive and asymmetric.
pub less_strict :
    (a b c : Position) → less a b ≡ true → less b c ≡ true → (less a c ≡ true) × (less b a ≡ false)
unfolding less
less_strict a b c h k = ground arith

-- Of two positions one is less than the other, or they are the same; operator== tells whether they
-- are, operator!= is its negation, and operator> holds of a greater position and of an equal one.
pub less_total :
    (a b : Position)
    → ((less a b ≡ true) ⊎ (less b a ≡ true) ⊎ (a ≡ b))
      × ((equal a b ≡ true) ↔ (a ≡ b))
      × (unequal a b ≡ not (equal a b))
      × (greater a b ≡ (less b a || equal a b))
unfolding less equal unequal greater
less_total a b = (ground arith, (λ h. ground arith, λ h. ground arith), ground arith, ground arith)

within : (d a b : ℕ) → (leb (abs (sub_ℕ a b)) d ≡ true) ↔ ((a ≤ b + d) × (b ≤ a + d))
within d a b = (λ h. ground arith, λ h. ground arith)

&&-true : (p q r : Bool) → ((p && q && r) ≡ true) ↔ ((p ≡ true) × (q ≡ true) × (r ≡ true))
&&-true p q r = (λ h. ground arith, λ h. ground arith)

-- areInRange holds exactly when each coordinate differs by its delta at most, either way.
pub are_in_range_iff :
    (dx dy dz : ℕ) (a b : Position)
    → (are_in_range dx dy dz a b ≡ true) ↔ (
        (a.x ≤ b.x + dx)
        × (b.x ≤ a.x + dx)
        × (a.y ≤ b.y + dy)
        × (b.y ≤ a.y + dy)
        × (a.z ≤ b.z + dz)
        × (b.z ≤ a.z + dz))
unfolding are_in_range
are_in_range_iff dx dy dz a b = (
  λ h.
      let (hx, hy, hz) = (&&-true _ _ _).0 h in
      let x = (within dx a.x b.x).0 hx in
      let y = (within dy a.y b.y).0 hy in
      let z = (within dz a.z b.z).0 hz in (x.0, x.1, y.0, y.1, z.0, z.1),
  λ h. (&&-true _ _ _).1 (
    (within dx a.x b.x).1 (h.0, h.1),
    (within dy a.y b.y).1 (h.2, h.3),
    (within dz a.z b.z).1 (h.4, h.5),
  ),
)

pub eq_of_coordinates : (a b : Position) → a.x ≡ b.x → a.y ≡ b.y → a.z ≡ b.z → a ≡ b
eq_of_coordinates a b hx hy hz = λ i. record { x = hx i; y = hy i; z = hz i }

-- Adding a position and taking it off again, in either order, gives the first one back, also where
-- a coordinate wraps. Condition: the coordinates fit their types.
pub plus-minus :
    (a b : Position) → IsValid a → IsValid b → (plus (minus a b) b ≡ a) × (minus (plus a b) b ≡ a)
unfolding plus minus
plus-minus a b v w = (
  eq_of_coordinates _ a (omega arith) (omega arith) (omega arith),
  eq_of_coordinates _ a (omega arith) (omega arith) (omega arith),
)
