-- ===== src/Map/Relinked.antt =====
-- One of the two links of all leaves, when setTile of src/map.cpp has made a leaf: leafS with the leaves
-- one above the other, or leafE with those side by side.
use mathlib.Core.Option
use dark_global_12_x.Base.{
  ℕ, ◌≡◌, refl, sym, ap, ◌∙◌, Bool, true, false, ◌||◌, Option, none, some, if◌then◌else◌,
  Bool-cases, inl, inr,
}
use dark_global_12_x.Map.{Leaf, Corner, pointer, new_leaf_node}
use dark_global_12_x.Map.Tree.{QTree, get_leaf}
use dark_global_12_x.Map.Paths.{get_leaf-same_path}
use dark_global_12_x.Map.Views.{same_leaf, IsRoot, IsRoot-HasDepth, view}
use dark_global_12_x.Map.Links.{
  neighbour, LinksTo, is_there, present, const-map, is_there-map, pointer-same,
}

-- A leaf that is new is linked, and so is the one before it.
module _ (v : Leaf → Option Corner) (next_x next_y : ℕ → ℕ → ℕ) (root root' : QTree Leaf)
    (x y px py : ℕ) (r : IsRoot root)
    (behind : (a b : ℕ) → same_leaf x y (next_x a b) (next_y a b) ≡ same_leaf px py a b)
    (apart : (a b : ℕ) → same_leaf x y a b ≡ true → same_leaf x y (next_x a b) (next_y a b) ≡ false)
    (same : (a b : ℕ)
      → same_leaf x y a b ≡ true
      → same_leaf (next_x x y) (next_y x y) (next_x a b) (next_y a b) ≡ true)
    (there : (a b : ℕ) → present root' a b ≡ (same_leaf x y a b || present root a b))
    (links : LinksTo v next_x next_y root)
    (written : (a b : ℕ)
      → view v root' a b ≡ (
          if same_leaf x y a b
          then some (neighbour root (next_x x y) (next_y x y))
          else if same_leaf px py a b
          then view (λ l. some (pointer x y)) root a b
          else view v root a b)) where
  -- What a link points to, by what is there.
  neighbour-present :
      (q : QTree Leaf) (a b : ℕ)
      → neighbour q a b ≡ (if present q a b then some (pointer a b) else none)
  neighbour-present q a b = const-map (pointer a b) (get_leaf q a b)

  neighbour-away : (a b : ℕ) → same_leaf x y a b ≡ false → neighbour root' a b ≡ neighbour root a b
  neighbour-away a b h =
      neighbour-present root' a b
      ∙ ap (λ (p : Bool). if p then some (pointer a b) else none)
          (there a b ∙ ap (λ (q : Bool). q || present root a b) h)
      ∙ sym (neighbour-present root a b)

  neighbour-new : (a b : ℕ) → same_leaf x y a b ≡ true → neighbour root' a b ≡ some (pointer x y)
  neighbour-new a b h =
      neighbour-present root' a b
      ∙ ap (λ (p : Bool). if p then some (pointer a b) else none)
          (there a b ∙ ap (λ (q : Bool). q || present root a b) h)
      ∙ ap some (pointer-same x y a b h)

  neighbour-same :
      (c d a b : ℕ) → same_leaf c d a b ≡ true → neighbour root a b ≡ neighbour root c d
  neighbour-same c d a b h =
      neighbour-present root a b
      ∙ ap (λ (o : Option Leaf). if is_there o then some (pointer a b) else none)
          (get_leaf-same_path 13 root c d a b (IsRoot-HasDepth root r) h)
      ∙ ap (λ (k : Corner). if present root c d then some k else none) (pointer-same c d a b h)
      ∙ sym (neighbour-present root c d)

  points :
      (a b : ℕ) (k : Option Corner) (p : Bool)
      → present root' a b ≡ p
      → neighbour root' (next_x a b) (next_y a b) ≡ k
      → (if p then some k else none)
        ≡ Option.map (λ l. neighbour root' (next_x a b) (next_y a b)) (get_leaf root' a b)
  points a b k p hp hk =
      rw (← hp, ← hk)
        (sym (const-map (neighbour root' (next_x a b) (next_y a b)) (get_leaf root' a b)))

  pub relinked : LinksTo v next_x next_y root'
  relinked a b = written a b ∙ elim (Bool-cases (same_leaf x y a b)) [
    | inl new ↦ rw new (
        points a b (neighbour root (next_x x y) (next_y x y)) true
          (there a b ∙ ap (λ (q : Bool). q || present root a b) new)
          (neighbour-away (next_x a b) (next_y a b) (apart a b new)
            ∙ neighbour-same (next_x x y) (next_y x y) (next_x a b) (next_y a b) (same a b new)))
    | inr old ↦
        let kept : present root' a b ≡ present root a b =
          there a b ∙ ap (λ (q : Bool). q || present root a b) old in
        elim (Bool-cases (same_leaf px py a b)) [
          | inl before_new ↦
              rw (old, before_new)
                (const-map (some (pointer x y)) (get_leaf root a b)
                  ∙ points a b (some (pointer x y)) (present root a b) kept
                      (neighbour-new (next_x a b) (next_y a b) (behind a b ∙ before_new)))
          | inr elsewhere ↦
              rw (old, elsewhere)
                (links a b
                  ∙ const-map (neighbour root (next_x a b) (next_y a b)) (get_leaf root a b)
                  ∙ points a b (neighbour root (next_x a b) (next_y a b)) (present root a b) kept
                      (neighbour-away (next_x a b) (next_y a b) (behind a b ∙ elsewhere)))
        ]
  ]

-- The writes of setTile, to the leaf before the new one and to the new one.
module _ (v : Leaf → Option Corner) (root created pointed final : QTree Leaf) (x y px py nx ny : ℕ)
    (fresh : v new_leaf_node ≡ none)
    (apart : (a b : ℕ) → same_leaf x y a b ≡ true → same_leaf px py a b ≡ false)
    (on_created : (V : Type 0) (w : Leaf → V) (a b : ℕ)
      → view w created a b
        ≡ (if same_leaf x y a b then some (w new_leaf_node) else view w root a b))
    (on_pointed : (a b : ℕ)
      → view v pointed a b ≡ (
          if same_leaf px py a b
          then view (λ l. some (pointer x y)) created a b
          else view v created a b))
    (there : (a b : ℕ) → present pointed a b ≡ present created a b)
    (on_final : (a b : ℕ)
      → view v final a b ≡ (
          if same_leaf x y a b
          then (if present root nx ny
              then view (λ l. some (pointer nx ny)) pointed a b
              else view v pointed a b)
          else view v pointed a b)) where
  present-new : (a b : ℕ) → same_leaf x y a b ≡ true → present pointed a b ≡ true
  present-new a b h =
      there a b
      ∙ sym (is_there-map (λ l. true) (get_leaf created a b))
      ∙ ap is_there (on_created Bool (λ l. true) a b)
      ∙ ap (λ (q : Bool). is_there (if q then some true else view (λ l. true) root a b)) h

  pointed-new : (a b : ℕ) → same_leaf x y a b ≡ true → view v pointed a b ≡ some none
  pointed-new a b h =
      on_pointed a b
      ∙ ap
          (λ (q : Bool).
            if q then view (λ l. some (pointer x y)) created a b else view v created a b)
          (apart a b h)
      ∙ on_created (Option Corner) v a b
      ∙ ap (λ (q : Bool). if q then some (v new_leaf_node) else view v root a b) h
      ∙ ap some fresh

  to_neighbour :
      (o : Option Leaf)
      → (if is_there o then some (some (pointer nx ny)) else some none)
        ≡ some (Option.map (λ (l : Leaf). pointer nx ny) o)
  to_neighbour none = refl
  to_neighbour (some l) = refl

  pub written :
      (a b : ℕ)
      → view v final a b ≡ (
          if same_leaf x y a b
          then some (neighbour root nx ny)
          else if same_leaf px py a b
          then view (λ l. some (pointer x y)) root a b
          else view v root a b)
  written a b = on_final a b ∙ elim (Bool-cases (same_leaf x y a b)) [
    | inl new ↦
        rw
          (
            new,
            pointed-new a b new,
            const-map (some (pointer nx ny)) (get_leaf pointed a b),
            present-new a b new,
          )
          (to_neighbour (get_leaf root nx ny))
    | inr old ↦
        rw
          (
            old,
            on_pointed a b,
            on_created (Option Corner) v a b,
            on_created (Option Corner) (λ l. some (pointer x y)) a b,
            old,
          )
          refl
  ]
