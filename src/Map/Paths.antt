-- ===== src/Map/Paths.antt =====
-- Which coordinates lead to the same leaf of the tree in src/map.cpp.
use dark_global_12_x.Base.{
  ℕ, zero, suc, ◌≡◌, refl, sym, Bool, true, false, ◌&&◌, none, ◌==◌, if◌then◌else◌, arith,
  Bool-cases, inl, inr, ==_iff,
}
use mathlib.Core.Option
use dark_global_12_x.Map.Tree.{
  QTree, null, inner, leaf, index, shl, set_child, get_leaf, modify_leaf,
}

-- n levels of the tree are left below the node.
abbrev pub HasDepth {ℓ} : {Leaf : Type ℓ} → ℕ → QTree Leaf → Type 0
HasDepth n null = Unit
HasDepth zero (leaf l) = Unit
HasDepth (suc n) (leaf l) = ⊥
HasDepth zero (inner child) = ⊥
HasDepth (suc n) (inner child) = (i : ℕ) → HasDepth n (child i)

-- Two coordinates take the same child on n levels.
unfoldable pub same_path : ℕ → ℕ → ℕ → ℕ → ℕ → Bool
same_path zero x y x' y' = true
same_path (suc n) x y x' y' =
    index x' y' == index x y && same_path n (shl x) (shl y) (shl x') (shl y')

pub same_path-zero : (x y x' y' : ℕ) → same_path zero x y x' y' ≡ true
unfolding same_path
same_path-zero x y x' y' = refl

pub same_path-same :
    (n : ℕ) (x y x' y' : ℕ)
    → index x' y' == index x y ≡ true
    → same_path (suc n) x y x' y' ≡ same_path n (shl x) (shl y) (shl x') (shl y')
unfolding same_path
same_path-same n x y x' y' h = rw h refl

pub same_path-apart :
    (n : ℕ) (x y x' y' : ℕ) → index x' y' == index x y ≡ false → same_path (suc n) x y x' y' ≡ false
unfolding same_path
same_path-apart n x y x' y' h = rw h refl

module _ {ℓ} {Leaf : Type ℓ} (i : ℕ) (t : QTree Leaf) (child : ℕ → QTree Leaf) (j : ℕ) where
  pub set_child-there : j == i ≡ true → set_child i t child j ≡ t
  unfolding set_child
  set_child-there h = rw h refl

  pub set_child-apart : j == i ≡ false → set_child i t child j ≡ child j
  unfolding set_child
  set_child-apart h = rw h refl

pub if_self {ℓ} : {A : Type ℓ} (b : Bool) (a : A) → (if b then a else a) ≡ a
if_self true a = refl
if_self false a = refl

module _ {ℓ} {Leaf : Type ℓ} where
  -- Coordinates on the same path find the same leaf.
  pub get_leaf-same_path :
      (n : ℕ) (t : QTree Leaf) (x y x' y' : ℕ)
      → HasDepth n t
      → same_path n x y x' y' ≡ true
      → get_leaf t x' y' ≡ get_leaf t x y
  unfolding get_leaf same_path
  get_leaf-same_path n null x y x' y' d h = refl
  get_leaf-same_path zero (leaf l) x y x' y' d h = refl
  get_leaf-same_path zero (inner child) x y x' y' d h = elim d [ ]
  get_leaf-same_path (suc n) (leaf l) x y x' y' d h = elim d [ ]
  get_leaf-same_path (suc n) (inner child) x y x' y' d h =
      let there : index x' y' == index x y ≡ true = ground (arith, h) in
      let e = (==_iff (index x' y') (index x y)).0 there in
      let rest : same_path n (shl x) (shl y) (shl x') (shl y') ≡ true = ground (arith, h) in
      rw e (
        get_leaf-same_path n (child (index x y)) (shl x) (shl y) (shl x') (shl y') (d (index x y))
          rest)

  -- A write to one leaf, seen from anywhere.
  pub get_leaf-modify_leaf :
      (n : ℕ) (t : QTree Leaf) (f : Leaf → Leaf) (x y x' y' : ℕ)
      → HasDepth n t
      → get_leaf (modify_leaf x y f t) x' y'
        ≡ (if same_path n x y x' y' then Option.map f (get_leaf t x' y') else get_leaf t x' y')
  unfolding get_leaf modify_leaf
  get_leaf-modify_leaf n null f x y x' y' d = sym (if_self (same_path n x y x' y') none)
  get_leaf-modify_leaf zero (leaf l) f x y x' y' d = rw (same_path-zero x y x' y') refl
  get_leaf-modify_leaf zero (inner child) f x y x' y' d = elim d [ ]
  get_leaf-modify_leaf (suc n) (leaf l) f x y x' y' d = elim d [ ]
  get_leaf-modify_leaf (suc n) (inner child) f x y x' y' d =
      elim (Bool-cases (index x' y' == index x y)) [
        | inl here ↦
            rw
              (
                get_leaf,
                modify_leaf,
                set_child-there (index x y) (modify_leaf (shl x) (shl y) f (child (index x y)))
                    child (index x' y') here,
                same_path-same n x y x' y' here,
                (==_iff (index x' y') (index x y)).0 here,
              )
              (get_leaf-modify_leaf n (child (index x y)) f (shl x) (shl y) (shl x') (shl y')
                (d (index x y)))
        | inr away ↦
            rw
              (
                get_leaf,
                modify_leaf,
                set_child-apart (index x y) (modify_leaf (shl x) (shl y) f (child (index x y)))
                    child (index x' y') away,
                same_path-apart n x y x' y' away,
              )
              refl
      ]

  pub set_child-HasDepth :
      (n i : ℕ) (t : QTree Leaf) (child : ℕ → QTree Leaf)
      → HasDepth n t
      → ((j : ℕ) → HasDepth n (child j))
      → (j : ℕ) → HasDepth n (set_child i t child j)
  set_child-HasDepth n i t child h d j = elim (Bool-cases (j == i)) [
    | inl here ↦ rw (set_child-there i t child j here) h
    | inr away ↦ rw (set_child-apart i t child j away) (d j)
  ]

  pub modify_leaf-HasDepth :
      (n : ℕ) (t : QTree Leaf) (f : Leaf → Leaf) (x y : ℕ)
      → HasDepth n t
      → HasDepth n (modify_leaf x y f t)
  unfolding modify_leaf
  modify_leaf-HasDepth zero null f x y d = tt
  modify_leaf-HasDepth (suc n) null f x y d = tt
  modify_leaf-HasDepth zero (leaf l) f x y d = tt
  modify_leaf-HasDepth zero (inner child) f x y d = elim d [ ]
  modify_leaf-HasDepth (suc n) (leaf l) f x y d = elim d [ ]
  modify_leaf-HasDepth (suc n) (inner child) f x y d =
      set_child-HasDepth n (index x y) _ child
        (modify_leaf-HasDepth n (child (index x y)) f (shl x) (shl y) (d (index x y))) d
