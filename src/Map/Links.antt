-- ===== src/Map/Links.antt =====
-- The links between the leaves of src/map.cpp: leafS and leafE of a leaf point to the leaf below it
-- and to the leaf right of it, where there are any. Coordinates wrap at 16 bits.
use mathlib.Core.Option
use dark_global_12_x.Base.{
  ℕ, ◌+◌, ◌*◌, ◌%◌, ◌/◌, ◌<◌, ◌≡◌, refl, sym, ap, ◌∙◌, ◌↔◌, Bool, true, false, Option, none, some,
  if◌then◌else◌, arith, Bool-cases, inl, inr,
}
use dark_global_12_x.Base.Words.{u16_mod}
use dark_global_12_x.Map.{Leaf, Corner, pointer, before, floor_size}
use dark_global_12_x.Map.Tree.{QTree, get_leaf}
use dark_global_12_x.Map.Corners.{same_leaf_iff}
use dark_global_12_x.Map.Views.{same_leaf, view}

abbrev pub neighbour : QTree Leaf → ℕ → ℕ → Option Corner
neighbour root x y = Option.map (λ l. pointer x y) (get_leaf root x y)

abbrev pub Linked : QTree Leaf → Type 0
Linked root =
    (x y : ℕ) (l : Leaf)
    → get_leaf root x y ≡ some l
    → (l.leaf_s ≡ neighbour root x (y + floor_size))
      × (l.leaf_e ≡ neighbour root (x + floor_size) y)

-- The same for one of the two links and the step that it takes, said of a view.
abbrev pub LinksTo : (Leaf → Option Corner) → (ℕ → ℕ → ℕ) → (ℕ → ℕ → ℕ) → QTree Leaf → Type 0
LinksTo v next_x next_y root =
    (x y : ℕ)
    → view v root x y
      ≡ Option.map (λ l. neighbour root (next_x x y) (next_y x y)) (get_leaf root x y)

abbrev pub is_there {ℓ} : {A : Type ℓ} → Option A → Bool
is_there none = false
is_there (some l) = true

abbrev pub present : QTree Leaf → ℕ → ℕ → Bool
present root x y = is_there (get_leaf root x y)

pub is_there-map :
    {A : Type 0} {V : Type 0} (w : A → V) (o : Option A) → is_there (Option.map w o) ≡ is_there o
is_there-map w none = refl
is_there-map w (some l) = refl

pub const-map :
    {A : Type 0} {K : Type 0} (k : K) (o : Option A)
    → Option.map (λ l. k) o ≡ (if is_there o then some k else none)
const-map k none = refl
const-map k (some l) = refl

pub Bool-iff : (a b : Bool) → (a ≡ true) ↔ (b ≡ true) → a ≡ b
Bool-iff true b h = sym (h.0 refl)
Bool-iff false true h = h.1 refl
Bool-iff false false h = refl

pub pointer-same : (x y x' y' : ℕ) → same_leaf x y x' y' ≡ true → pointer x' y' ≡ pointer x y
pointer-same x y x' y' h =
    let (hx, hy) = (same_leaf_iff x y x' y').0 h in
    ap
      (λ (k : ℕ). record {
        corner_x = k * floor_size;
        corner_y = y' % u16_mod / floor_size * floor_size;
      })
      (sym hx)
    ∙ ap
        (λ (k : ℕ). record {
          corner_x = x % u16_mod / floor_size * floor_size;
          corner_y = k * floor_size;
        })
        (sym hy)

pub south-before :
    (x y a b : ℕ) → y < u16_mod → same_leaf x y a (b + floor_size) ≡ same_leaf x (before y) a b
south-before x y a b hy = Bool-iff (same_leaf x y a (b + floor_size)) (same_leaf x (before y) a b) (
  λ h.
      let (ex, ey) = (same_leaf_iff x y a (b + floor_size)).0 h in
      (same_leaf_iff x (before y) a b).1 (ex, omega (arith, ey)),
  λ h.
      let (ex, ey) = (same_leaf_iff x (before y) a b).0 h in
      (same_leaf_iff x y a (b + floor_size)).1 (ex, omega (arith, ey)),
)

pub south-apart :
    (x y a b : ℕ) → same_leaf x y a b ≡ true → same_leaf x y a (b + floor_size) ≡ false
south-apart x y a b h = elim (Bool-cases (same_leaf x y a (b + floor_size))) [
  | inl same ↦
      let (ex, ey) = (same_leaf_iff x y a b).0 h in
      let (fx, fy) = (same_leaf_iff x y a (b + floor_size)).0 same in absurd (omega (arith, ey, fy))
  | inr other ↦ other
]

pub south-same :
    (x y a b : ℕ)
    → same_leaf x y a b ≡ true
    → same_leaf x (y + floor_size) a (b + floor_size) ≡ true
south-same x y a b h =
    let (ex, ey) = (same_leaf_iff x y a b).0 h in
    (same_leaf_iff x (y + floor_size) a (b + floor_size)).1 (ex, omega (arith, ey))

pub east-before :
    (x y a b : ℕ) → x < u16_mod → same_leaf x y (a + floor_size) b ≡ same_leaf (before x) y a b
east-before x y a b hx = Bool-iff (same_leaf x y (a + floor_size) b) (same_leaf (before x) y a b) (
  λ h.
      let (ex, ey) = (same_leaf_iff x y (a + floor_size) b).0 h in
      (same_leaf_iff (before x) y a b).1 (omega (arith, ex), ey),
  λ h.
      let (ex, ey) = (same_leaf_iff (before x) y a b).0 h in
      (same_leaf_iff x y (a + floor_size) b).1 (omega (arith, ex), ey),
)

pub east-apart : (x y a b : ℕ) → same_leaf x y a b ≡ true → same_leaf x y (a + floor_size) b ≡ false
east-apart x y a b h = elim (Bool-cases (same_leaf x y (a + floor_size) b)) [
  | inl same ↦
      let (ex, ey) = (same_leaf_iff x y a b).0 h in
      let (fx, fy) = (same_leaf_iff x y (a + floor_size) b).0 same in absurd (omega (arith, ex, fx))
  | inr other ↦ other
]

pub east-same :
    (x y a b : ℕ)
    → same_leaf x y a b ≡ true
    → same_leaf (x + floor_size) y (a + floor_size) b ≡ true
east-same x y a b h =
    let (ex, ey) = (same_leaf_iff x y a b).0 h in
    (same_leaf_iff (x + floor_size) y (a + floor_size) b).1 (omega (arith, ex), ey)
