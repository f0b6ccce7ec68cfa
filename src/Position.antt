-- ===== src/Position.antt =====
-- src/position.h: map positions and directions. Coordinates are uint16_t, the floor is uint8_t.
mod Tests
pub mod Order
use dark_global_12_x.Base.{
  ℕ, ◌+◌, ◌-◌, ◌%◌, Bool, true, false, not, ◌&&◌, ◌||◌, ltb, leb, ◌==◌, if◌then◌else◌,
}
use dark_global_12_x.Base.Int.{ℤ, sub_ℕ, abs}
use dark_global_12_x.Base.Words.{u8_mod, u16_mod}

pub data Direction : Type 0 where
  north east south west southwest southeast northwest northeast none : Direction

pub record Position : Type 0 where
  pub x : ℕ
  pub y : ℕ
  pub z : ℕ

unfoldable pub get_offset_x : Position → Position → ℤ
get_offset_x p1 p2 = sub_ℕ p1.x p2.x

unfoldable pub get_offset_y : Position → Position → ℤ
get_offset_y p1 p2 = sub_ℕ p1.y p2.y

unfoldable pub get_offset_z : Position → Position → ℤ
get_offset_z p1 p2 = sub_ℕ p1.z p2.z

unfoldable pub get_distance_x : Position → Position → ℕ
unfolding get_offset_x
get_distance_x p1 p2 = abs (get_offset_x p1 p2)

unfoldable pub get_distance_y : Position → Position → ℕ
unfolding get_offset_y
get_distance_y p1 p2 = abs (get_offset_y p1 p2)

unfoldable pub get_distance_z : Position → Position → ℕ
unfolding get_offset_z
get_distance_z p1 p2 = abs (get_offset_z p1 p2)

-- areInRange<deltax, deltay, deltaz>
unfoldable pub are_in_range : ℕ → ℕ → ℕ → Position → Position → Bool
unfolding get_distance_x get_distance_y get_distance_z
are_in_range dx dy dz p1 p2 =
    leb (get_distance_x p1 p2) dx && leb (get_distance_y p1 p2) dy && leb (get_distance_z p1 p2) dz

unfoldable pub less : Position → Position → Bool
less a b =
    if ltb a.z b.z
    then true
    else if ltb b.z a.z
    then false
    else if ltb a.y b.y
    then true
    else if ltb b.y a.y
    then false
    else if ltb a.x b.x
    then true
    else if ltb b.x a.x
    then false
    else false

-- operator>, as it is written: the negation of operator<.
unfoldable pub greater : Position → Position → Bool
unfolding less
greater a b = not (less a b)

unfoldable pub equal : Position → Position → Bool
equal a b = b.x == a.x && b.y == a.y && b.z == a.z

unfoldable pub unequal : Position → Position → Bool
unequal a b = not (b.x == a.x) || not (b.y == a.y) || not (b.z == a.z)

unfoldable pub plus : Position → Position → Position
plus a b = record { x = (a.x + b.x) % u16_mod; y = (a.y + b.y) % u16_mod; z = (a.z + b.z) % u8_mod }

unfoldable pub minus : Position → Position → Position
minus a b = record {
  x = (a.x + u16_mod - b.x) % u16_mod;
  y = (a.y + u16_mod - b.y) % u16_mod;
  z = (a.z + u8_mod - b.z) % u8_mod;
}
