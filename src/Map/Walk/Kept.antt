-- ===== src/Map/Walk/Kept.antt =====
-- The nodes of a search for a path, src/map.cpp, through its steps.
use mathlib.Core.Option.{some-injective, none-ne-some}
use dark_global_12_x.Base.{
  ℕ, ◌+◌, ◌%◌, ◌≡◌, refl, sym, ap, subst, ◌∙◌, ◌<◌, ◌≤◌, Bool, true, false, Option, none, some, leb,
  ◌==◌, if◌then◌else◌, arith, Bool-cases, inl, inr,
}
use dark_global_12_x.Base.Words.{u16_mod}
use dark_global_12_x.Map.Walk.{
  AStarNodes, AStarNode, assign, zero_node, start_nodes, add_node, create_open_node, close_node,
  open_node, reparent, nodes_of, at_neighbor, visit_neighbor, get_map_walk_cost,
  map_normal_walk_cost, max_nodes, get_node_by_position,
}

-- A parent is a node that costs at least a step less.
abbrev pub Parented : AStarNodes → Type 0
Parented m =
    (i p : ℕ)
    → i < m.cur_node
    → (m.nodes i).parent ≡ some p
    → p < m.cur_node × ((m.nodes p).f + map_normal_walk_cost ≤ (m.nodes i).f)

module _ {ℓ} {A : Type ℓ} (i : ℕ) (a : A) (array : ℕ → A) (k : ℕ) where
  assign-same : (k == i) ≡ true → assign i a array k ≡ a
  assign-same h = rw h refl

  assign-other : (k == i) ≡ false → assign i a array k ≡ array k
  assign-other h = rw h refl

start_nodes-Parented : (x y : ℕ) → Parented (start_nodes x y)
unfolding start_nodes
start_nodes-Parented x y i p h e = elim (Bool-cases (i == 0)) [
  | inl same ↦
      absurd
        (none-ne-some p (sym (ap AStarNode.parent (assign-same 0 _ (λ k. zero_node) i same)) ∙ e))
  | inr other ↦
      absurd
        (none-ne-some p (sym (ap AStarNode.parent (assign-other 0 _ (λ k. zero_node) i other)) ∙ e))
]

-- The two nodes after a change, from what they were.
kept_by :
    (m m' : AStarNodes) (i p : ℕ)
    → p < m'.cur_node
    → (fp fi : ℕ) → (m'.nodes p).f ≤ fp
    → (m'.nodes i).f ≡ fi
    → fp + map_normal_walk_cost ≤ fi
    → p < m'.cur_node × ((m'.nodes p).f + map_normal_walk_cost ≤ (m'.nodes i).f)
kept_by m m' i p lt fp fi hp hi le = (lt, omega (arith, hp, hi, le))

module _ (m : AStarNodes) (n : ℕ) (known : n < m.cur_node) (kept : Parented m) where
  add_node-Parented :
      (x y f : ℕ) → (m.nodes n).f + map_normal_walk_cost ≤ f → Parented (add_node (some n) x y f m)
  add_node-Parented x y f more i p h e =
      let new : AStarNode = record { parent = some n; f = f; x = x % u16_mod; y = y % u16_mod } in
      let m' = add_node (some n) x y f m in
      elim (Bool-cases (i == m.cur_node)) [
        | inl same ↦
            let at_i : m'.nodes i ≡ new = assign-same m.cur_node new m.nodes i same in
            let from : n ≡ p = some-injective n p (sym (ap AStarNode.parent at_i) ∙ e) in
            let old : (p == m.cur_node) ≡ false = ground (arith, from, known) in
            let at_p : m'.nodes p ≡ m.nodes p = assign-other m.cur_node new m.nodes p old in
            let fp : (m'.nodes p).f ≡ (m.nodes n).f =
              ap AStarNode.f at_p ∙ ap (λ (k : ℕ). (m.nodes k).f) (sym from) in
            kept_by m m' i p (omega (arith, from, known)) (m.nodes n).f f (omega (arith, fp))
              (ap AStarNode.f at_i) more
        | inr other ↦
            let at_i : m'.nodes i ≡ m.nodes i = assign-other m.cur_node new m.nodes i other in
            let (lt, less) =
              kept i p (ground (arith, h, other)) (sym (ap AStarNode.parent at_i) ∙ e) in
            let old : (p == m.cur_node) ≡ false = ground (arith, lt) in
            let at_p : m'.nodes p ≡ m.nodes p = assign-other m.cur_node new m.nodes p old in
            let fp : (m'.nodes p).f ≡ (m.nodes p).f = ap AStarNode.f at_p in
            kept_by m m' i p (omega (arith, lt)) (m.nodes p).f (m.nodes i).f (omega (arith, fp))
              (ap AStarNode.f at_i) less
      ]

  module _ (i newf : ℕ) (less : newf < (m.nodes i).f) where
    -- No node costs more than before.
    reparent-lower : (k : ℕ) → ((reparent i n newf m).nodes k).f ≤ (m.nodes k).f
    reparent-lower k =
        let new : AStarNode = record (m.nodes i) { parent = some n; f = newf } in
        elim (Bool-cases (k == i)) [
          | inl same ↦
              let e : ((reparent i n newf m).nodes k).f ≡ newf =
                ap AStarNode.f (assign-same i new m.nodes k same) in
              let here : k ≡ i = ground (arith, same) in
              let fk : (m.nodes k).f ≡ (m.nodes i).f = ap (λ (j : ℕ). (m.nodes j).f) here in
              omega (arith, e, fk, less)
          | inr other ↦
              let e : ((reparent i n newf m).nodes k).f ≡ (m.nodes k).f =
                ap AStarNode.f (assign-other i new m.nodes k other) in
              omega (arith, e)
        ]

    reparent-Parented : (m.nodes n).f + map_normal_walk_cost ≤ newf → Parented (reparent i n newf m)
    reparent-Parented more j p h e =
        let new : AStarNode = record (m.nodes i) { parent = some n; f = newf } in
        let m' = reparent i n newf m in
        elim (Bool-cases (j == i)) [
          | inl same ↦
              let at_j : m'.nodes j ≡ new = assign-same i new m.nodes j same in
              let from : n ≡ p = some-injective n p (sym (ap AStarNode.parent at_j) ∙ e) in
              let fp : (m.nodes p).f ≡ (m.nodes n).f = ap (λ (k : ℕ). (m.nodes k).f) (sym from) in
              kept_by m m' j p (omega (arith, from, known)) (m.nodes n).f newf
                (omega (arith, fp, reparent-lower p)) (ap AStarNode.f at_j) more
          | inr other ↦
              let at_j : m'.nodes j ≡ m.nodes j = assign-other i new m.nodes j other in
              let (lt, gap) = kept j p h (sym (ap AStarNode.parent at_j) ∙ e) in
              kept_by m m' j p lt (m.nodes p).f (m.nodes j).f (reparent-lower p)
                (ap AStarNode.f at_j) gap
        ]

open_node-Parented : (m : AStarNodes) (i : ℕ) → Parented m → Parented (open_node i m)
unfolding open_node
open_node-Parented m i kept = elim (Bool-cases (m.open_nodes i)) [
  | inl is_open ↦ rw is_open kept
  | inr is_closed ↦ rw is_closed (λ (j p : ℕ). kept j p)
]

get_map_walk_cost-least :
    (node : AStarNode) (x y : ℕ) → map_normal_walk_cost ≤ get_map_walk_cost node x y
unfolding get_map_walk_cost
get_map_walk_cost-least node x y = ground arith

module _ (m m' : AStarNodes) (n : ℕ) (known : n < m.cur_node) (kept : Parented m) where
  at_neighbor-Parented :
      (x y newf : ℕ) (o : Option ℕ)
      → (m.nodes n).f + map_normal_walk_cost ≤ newf
      → at_neighbor n x y newf m o ≡ some m'
      → Parented m'
  unfolding at_neighbor create_open_node
  at_neighbor-Parented x y newf none more e = elim (Bool-cases (leb max_nodes m.cur_node)) [
    | inl full ↦ absurd (
        none-ne-some m' (
          sym (
            ap
              (λ (b : Bool).
                nodes_of (if b then none else some (m.cur_node, add_node (some n) x y newf m)))
              full)
          ∙ e))
    | inr room ↦
        subst Parented
          (some-injective _ m' (
            sym (
              ap
                (λ (b : Bool).
                  nodes_of (if b then none else some (m.cur_node, add_node (some n) x y newf m)))
                room)
            ∙ e))
          (add_node-Parented m n known kept x y newf more)
  ]
  at_neighbor-Parented x y newf (some i) more e = elim (Bool-cases (leb (m.nodes i).f newf)) [
    | inl cheaper ↦
        subst Parented
          (some-injective _ m' (
            sym
              (ap (λ (b : Bool). some (if b then m else open_node i (reparent i n newf m))) cheaper)
            ∙ e))
          kept
    | inr dearer ↦
        subst Parented
          (some-injective _ m' (
            sym
              (ap (λ (b : Bool). some (if b then m else open_node i (reparent i n newf m))) dearer)
            ∙ e))
          (open_node-Parented (reparent i n newf m) i
            (reparent-Parented m n known kept i newf (ground (arith, dearer)) more))
  ]

  visit_neighbor-Parented :
      (x y extra_cost : ℕ) → visit_neighbor n x y extra_cost m ≡ some m' → Parented m'
  unfolding visit_neighbor
  visit_neighbor-Parented x y extra_cost e =
      at_neighbor-Parented x y _ (get_node_by_position x y m)
        (omega (arith, get_map_walk_cost-least (m.nodes n) x y)) e

-- The nodes of a search: it starts at a position, visits neighbors of nodes and closes nodes.
pub data Searched : AStarNodes → Type 0 where
  starts : (x y : ℕ) → Searched (start_nodes x y)
  visits :
      (m m' : AStarNodes) (n x y extra_cost : ℕ)
      → n < m.cur_node
      → visit_neighbor n x y extra_cost m ≡ some m'
      → Searched m
      → Searched m'
  closes : (m : AStarNodes) (n : ℕ) → Searched m → Searched (close_node n m)

pub Searched-Parented : (m : AStarNodes) → Searched m → Parented m
unfolding close_node
Searched-Parented _ (starts x y) = start_nodes-Parented x y
Searched-Parented _ (visits before m n x y extra_cost known e h) =
    visit_neighbor-Parented before m n known (Searched-Parented before h) x y extra_cost e
Searched-Parented _ (closes before n h) = λ (i p : ℕ). Searched-Parented before h i p
