-- ===== src/Map/Walk/Back.antt =====
-- The walk back of getPathMatching, src/map.cpp, ends.
use dark_global_12_x.Base.{
  ℕ, zero, suc, ◌+◌, ◌*◌, ◌≡◌, ap, ◌∙◌, ◌<◌, ◌≤◌, Option, none, some, List, [], arith, Option-cases,
  inl, inr, length,
}
use dark_global_12_x.Base.Int.{sub_ℕ}
use dark_global_12_x.Map.Walk.{AStarNodes, Direction, turn, push_front, walk_back}
use dark_global_12_x.Map.Walk.Kept.{Parented, Searched, Searched-Parented}

length-push_front :
    (o : Option Direction) (l : List Direction) → length (push_front o l) ≤ suc (length l)
length-push_front none l = omega arith
length-push_front (some d) l = omega arith

-- The walk from a node of a cost below the fuel.
walk_back-some :
    (m : AStarNodes)
    → Parented m
    → (fuel prev_x prev_y i : ℕ) (dir_list : List Direction) → i < m.cur_node
    → (m.nodes i).f < fuel
    → (dirs : List Direction) × (walk_back m (suc fuel) prev_x prev_y (some i) dir_list ≡ some dirs
        × length dirs * 10 ≤ length dir_list * 10 + (m.nodes i).f + 10)
unfolding walk_back
walk_back-some m kept zero prev_x prev_y i dir_list known h = absurd (omega (arith, h))
walk_back-some m kept (suc fuel) prev_x prev_y i dir_list known h =
    let pushed =
      push_front (turn (sub_ℕ (m.nodes i).x prev_x) (sub_ℕ (m.nodes i).y prev_y)) dir_list in
    let longer =
      length-push_front (turn (sub_ℕ (m.nodes i).x prev_x) (sub_ℕ (m.nodes i).y prev_y)) dir_list in
    elim (Option-cases (m.nodes i).parent) [
      | inl start ↦ (
        pushed,
        (
          ap (λ (o : Option ℕ). walk_back m (suc fuel) (m.nodes i).x (m.nodes i).y o pushed) start,
          omega (arith, longer),
        ),
      )
      | inr (p, e) ↦
          let (lt, less) = kept i p known e in
          let (dirs, (found, short)) =
            walk_back-some m kept fuel (m.nodes i).x (m.nodes i).y p pushed lt
              (omega (arith, less, h)) in
          (
            dirs,
            (
              ap (λ (o : Option ℕ). walk_back m (suc fuel) (m.nodes i).x (m.nodes i).y o pushed) e
                  ∙ found,
              omega (arith, longer, short, less),
            ),
          )
    ]

-- In every search, the walk back from a node that was found ends: its turns are no more than the node's
-- cost, which the parents pay for at 10 and more a step, and so are the directions of the path.
pub walk_back-ends :
    (m : AStarNodes) (i end_x end_y : ℕ)
    → Searched m
    → i < m.cur_node
    → (dirs : List Direction) × (walk_back m (suc (m.nodes i).f) end_x end_y (m.nodes i).parent []
          ≡ some dirs
        × length dirs * 10 ≤ (m.nodes i).f)
unfolding walk_back
walk_back-ends m i end_x end_y searched known = elim (Option-cases (m.nodes i).parent) [
  | inl start ↦ (
    [],
    (ap (λ (o : Option ℕ). walk_back m (suc (m.nodes i).f) end_x end_y o []) start, omega arith),
  )
  | inr (p, e) ↦
      let kept = Searched-Parented m searched in
      let (lt, less) = kept i p known e in
      let (dirs, (found, short)) =
        walk_back-some m kept (m.nodes i).f end_x end_y p [] lt (omega (arith, less)) in
      (
        dirs,
        (
          ap (λ (o : Option ℕ). walk_back m (suc (m.nodes i).f) end_x end_y o []) e ∙ found,
          omega (arith, short, less),
        ),
      )
]
