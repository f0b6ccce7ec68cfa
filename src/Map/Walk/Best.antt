-- ===== src/Map/Walk/Best.antt =====
-- The node that AStarNodes::getBestNode, src/map.cpp, chooses.
use dark_global_12_x.Base.{
  ℕ, zero, suc, ◌+◌, ◌≡◌, refl, sym, subst, ◌<◌, ◌≤◌, Bool, true, false, ◌&&◌, Option, none, some,
  ltb, ◌==◌, if◌then◌else◌, arith, Bool-cases, inl, inr,
}
use dark_global_12_x.Map.Walk.{AStarNodes, best_loop, get_best_node, int32_max}

-- The best of the open nodes below an index, none where no open one costs less than a bound.
abbrev pub IsBestBelow : AStarNodes → ℕ → Option ℕ → Type 0
IsBestBelow m n none = (j : ℕ) → j < n → m.open_nodes j ≡ true → int32_max ≤ (m.nodes j).f
IsBestBelow m n (some i) =
    i < n
    × (m.open_nodes i ≡ true
        × ((m.nodes i).f < int32_max
            × ((j : ℕ) → j < n → m.open_nodes j ≡ true → (m.nodes i).f ≤ (m.nodes j).f)))

abbrev cost_of : AStarNodes → Option ℕ → ℕ
cost_of m none = int32_max
cost_of m (some i) = (m.nodes i).f

-- A bound of the costs below an index and at it.
bound_suc :
    (m : AStarNodes) (i b : ℕ)
    → ((j : ℕ) → j < i → m.open_nodes j ≡ true → b ≤ (m.nodes j).f)
    → (m.open_nodes i ≡ true → b ≤ (m.nodes i).f)
    → (j : ℕ) → j < suc i
    → m.open_nodes j ≡ true
    → b ≤ (m.nodes j).f
bound_suc m i b below last j h is_open = elim (Bool-cases (j == i)) [
  | inl e ↦
      let here : j ≡ i = ground (arith, e) in
      subst (λ (k : ℕ). m.open_nodes k ≡ true → b ≤ (m.nodes k).f) (sym here) last is_open
  | inr away ↦ let there : j < i = ground (arith, h, away) in below j there is_open
]

-- The loop keeps the best of the nodes behind it.
step-IsBestBelow :
    (m : AStarNodes) (i : ℕ) (best : Option ℕ) (better : Bool)
    → (m.open_nodes i && ltb (m.nodes i).f (cost_of m best)) ≡ better
    → IsBestBelow m i best
    → IsBestBelow m (suc i) (if better then some i else best)
step-IsBestBelow m i none true h below =
    let small : (m.nodes i).f < int32_max = ground (arith, h) in
    (
      omega arith,
      (
        ground (arith, h),
        (
          small,
          bound_suc m i (m.nodes i).f (λ j l o. omega (arith, small, below j l o))
              (λ o. omega arith),
        ),
      ),
    )
step-IsBestBelow m i (some k) true h (lt, (o, (small, below))) =
    let less : (m.nodes i).f < (m.nodes k).f = ground (arith, h) in
    (
      omega arith,
      (
        ground (arith, h),
        (
          omega (arith, less, small),
          bound_suc m i (m.nodes i).f (λ j l q. omega (arith, less, below j l q))
              (λ q. omega arith),
        ),
      ),
    )
step-IsBestBelow m i none false h below = bound_suc m i int32_max below (λ o. ground (arith, h, o))
step-IsBestBelow m i (some k) false h (lt, (o, (small, below))) =
    (omega (arith, lt), (o, (small, bound_suc m i _ below (λ q. ground (arith, h, q)))))

cost_of-if :
    (m : AStarNodes) (i : ℕ) (best : Option ℕ) (b : Bool)
    → (if b then (m.nodes i).f else cost_of m best) ≡ cost_of m (if b then some i else best)
cost_of-if m i best true = refl
cost_of-if m i best false = refl

best_loop-IsBestBelow :
    (m : AStarNodes) (n i : ℕ) (best : Option ℕ)
    → IsBestBelow m i best
    → IsBestBelow m (n + i) (best_loop m n i (cost_of m best) best)
unfolding best_loop
best_loop-IsBestBelow m zero i best h =
    let here : i ≡ 0 + i = omega arith in subst (λ (k : ℕ). IsBestBelow m k best) here h
best_loop-IsBestBelow m (suc n) i best h =
    let better = m.open_nodes i && ltb (m.nodes i).f (cost_of m best) in
    let best' = if better then some i else best in
    let shift : n + suc i ≡ suc n + i = omega arith in
    subst
      (λ (k : ℕ).
        IsBestBelow m k
          (best_loop m n (suc i) (if better then (m.nodes i).f else cost_of m best) best'))
      shift
      (subst (λ (c : ℕ). IsBestBelow m (n + suc i) (best_loop m n (suc i) c best'))
        (sym (cost_of-if m i best better))
        (best_loop-IsBestBelow m n (suc i) best' (step-IsBestBelow m i best better refl h)))

-- getBestNode gives an open node that costs no more than any other open one, and less than the largest
-- int32_t; it gives none only where no open node costs less than that.
pub get_best_node-IsBestBelow : (m : AStarNodes) → IsBestBelow m m.cur_node (get_best_node m)
unfolding get_best_node
get_best_node-IsBestBelow m = elim (Bool-cases (m.cur_node == 0)) [
  | inl empty ↦ rw empty (λ (j : ℕ) (h : j < m.cur_node) (o : m.open_nodes j ≡ true).
      absurd (ground (arith, empty, h)))
  | inr some_there ↦
      let all : m.cur_node + 0 ≡ m.cur_node = omega arith in
      rw some_there (
        subst (λ (k : ℕ). IsBestBelow m k (best_loop m m.cur_node 0 int32_max none)) all
          (best_loop-IsBestBelow m m.cur_node 0 none (λ j h o. absurd (omega (arith, h)))))
]
