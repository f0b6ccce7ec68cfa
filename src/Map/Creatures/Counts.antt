-- ===== src/Map/Creatures/Counts.antt =====
-- A leaf of src/map.cpp after a write, and how often a creature is on its lists.
use mathlib.Core.Option
use mathlib.Core.Option.{some-injective, none-ne-some}
use dark_global_12_x.Base.{
  ℕ, ◌+◌, ◌-◌, ◌≡◌, refl, sym, ap, ◌∙◌, Bool, true, false, ◌&&◌, ◌||◌, Option, none, some, List, [],
  ◌∷◌, ◌++◌, ◌==◌, if◌then◌else◌, arith,
}
use dark_global_12_x.Network.Autosend.Alive.{count}
use dark_global_12_x.Map.{Leaf}
use dark_global_12_x.Map.Tree.{QTree, get_leaf, modify_leaf}
use dark_global_12_x.Map.Paths.{get_leaf-modify_leaf, if_self}
use dark_global_12_x.Map.Corners.{same_leaf_iff}
use dark_global_12_x.Map.Links.{Bool-iff}
use dark_global_12_x.Map.Views.{same_leaf, IsRoot, IsRoot-HasDepth}

abbrev pub once : Bool → ℕ
once true = 1
once false = 0

-- The leaf at a coordinate after a write.
pub after-write :
    (root : QTree Leaf) (f : Leaf → Leaf) (x y a b : ℕ) (l : Leaf)
    → IsRoot root
    → get_leaf (modify_leaf x y f root) a b ≡ some l
    → (m : Leaf) × (get_leaf root a b ≡ some m) × (l ≡ (if same_leaf x y a b then f m else m))
after-write root f x y a b l r e = by_leaf (get_leaf root a b) refl
  where
    written :
        (if same_leaf x y a b then Option.map f (get_leaf root a b) else get_leaf root a b) ≡ some l
    written = sym (get_leaf-modify_leaf 13 root f x y a b (IsRoot-HasDepth root r)) ∙ e

    by_leaf :
        (o : Option Leaf)
        → get_leaf root a b ≡ o
        → (m : Leaf) × (get_leaf root a b ≡ some m) × (l ≡ (if same_leaf x y a b then f m else m))
    by_leaf none q = absurd (
        none-ne-some l (
          sym (if_self (same_leaf x y a b) none)
          ∙ sym (ap (λ (o : Option Leaf). if same_leaf x y a b then Option.map f o else o) q)
          ∙ written))
    by_leaf (some m) q = (
      m,
      q,
      some-injective l (if same_leaf x y a b then f m else m) (
          sym written
          ∙ ap (λ (o : Option Leaf). if same_leaf x y a b then Option.map f o else o) q
          ∙ inside (same_leaf x y a b)),
    )
      where
        inside : (s : Bool) → (if s then some (f m) else some m) ≡ some (if s then f m else m)
        inside true = refl
        inside false = refl

pub same_leaf_trans :
    (x y a b p q : ℕ) → same_leaf x y p q ≡ true → same_leaf x y a b ≡ same_leaf a b p q
same_leaf_trans x y a b p q h = Bool-iff (same_leaf x y a b) (same_leaf a b p q) (
  λ k.
      let (kx, ky) = (same_leaf_iff x y a b).0 k in
      let (hx, hy) = (same_leaf_iff x y p q).0 h in
      (same_leaf_iff a b p q).1 (sym kx ∙ hx, sym ky ∙ hy),
  λ k.
      let (kx, ky) = (same_leaf_iff a b p q).0 k in
      let (hx, hy) = (same_leaf_iff x y p q).0 h in
      (same_leaf_iff x y a b).1 (hx ∙ sym kx, hy ∙ sym ky),
)

pub count-append : (c d : ℕ) (xs : List ℕ) → count c (xs ++ d ∷ []) ≡ count c xs + once (d == c)
unfolding count
count-append c d [] = ground arith
count-append c d (x ∷ xs) = ground (arith, count-append c d xs)

-- What a write adds to a count and takes from it, by whether it is about the creature counted (it), and
-- about the leaf.
pub added :
    (it on here same p q : Bool) (n : ℕ)
    → n ≡ once (p && on && here)
    → (it ≡ true → on ≡ false)
    → (it ≡ true → here ≡ same)
    → (it ≡ true → p ≡ q)
    → n + (if same then (if q then once it else 0) else 0) ≡ once (p && (it || on) && here)
added true on here same p q n h ho hs hp = ground (arith, h, ho refl, hs refl, hp refl)
added false on here same p q n h ho hs hp = ground (arith, h)

pub taken :
    (it on here same p q : Bool) (n : ℕ)
    → n ≡ once (p && on && here)
    → (it ≡ true → here ≡ same)
    → (it ≡ true → p ≡ q)
    → (if same then (if q then (if it then n - 1 else n) else n) else n)
      ≡ once (p && (if it then false else on) && here)
taken true on here same p q n h hs hp = ground (arith, h, hs refl, hp refl)
taken false on here same p q n h hs hp = ground (arith, h)
