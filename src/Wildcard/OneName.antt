-- ===== src/Wildcard/OneName.antt =====
-- The part of findOne of src/wildcardtree.cpp below the query's node.
use dark_global_12_x.Base.{
  ℕ, ◌≡◌, refl, sym, ap, ◌∙◌, ◌≢◌, subst, Bool, true, false, Option, none, some, List, [], ◌∷◌,
  ◌++◌, append_assoc, append-nil, ◌==◌, if◌then◌else◌, arith, Bool-cases, inl, inr, ==_iff,
}
use dark_global_12_x.Wildcard.{
  Children, no_child, child, Node, node, get_child, is_bare, walk, Found, no_error,
  name_is_too_ambiguous, player_with_this_name_is_not_online, complete,
}
use dark_global_12_x.Wildcard.Names.{ends_name}
use dark_global_12_x.Wildcard.Live.{is_tidy, is_tidy_node, get_child-tidy}

abbrev pub under : List ℕ → Bool → Children → Bool
under s b cs = ends_name (walk s (some (node b cs)))

under-child :
    (d : ℕ) (t : List ℕ) (b : Bool) (c : ℕ) (b' : Bool) (below rest : Children)
    → under (d ∷ t) b (child c b' below rest)
      ≡ (if c == d then under t b' below else ends_name (walk t (get_child d rest)))
unfolding walk get_child
under-child d t b c b' below rest = elim (Bool-cases (c == d)) [
  | inl same ↦
      ap (λ (q : Bool). ends_name (walk t (if q then some (node b' below) else get_child d rest)))
        same
      ∙ sym (
          ap (λ (q : Bool). if q then under t b' below else ends_name (walk t (get_child d rest)))
            same)
  | inr other ↦
      ap (λ (q : Bool). ends_name (walk t (if q then some (node b' below) else get_child d rest)))
        other
      ∙ sym (
          ap (λ (q : Bool). if q then under t b' below else ends_name (walk t (get_child d rest)))
            other)
]

-- A name under every node that is not bare.
unfoldable some_name : Children → List ℕ
some_name no_child = []
some_name (child c b below rest) = c ∷ some_name below

under-some_name :
    (b : Bool) (cs : Children)
    → is_bare (node b cs) ≡ false
    → is_tidy cs ≡ true
    → under (some_name cs) b cs ≡ true
unfolding some_name walk is_tidy
under-some_name b no_child l h = ground arith
under-some_name b (child c b' below rest) l h =
    under-child c (some_name below) b c b' below rest
    ∙ ground (arith, under-some_name b' below (ground arith) (ground arith))

pub walk-none : (t : List ℕ) → walk t none ≡ none
unfolding walk
walk-none [] = refl
walk-none (d ∷ t) = refl

under-leaf : (d : ℕ) (t : List ℕ) (b : Bool) → under (d ∷ t) b no_child ≡ false
unfolding walk get_child
under-leaf d t b = ap ends_name (walk-none t)

-- The names under a node are one name.
pub record OneName (b : Bool) (cs : Children) (s : List ℕ) : Type 0 where
  pub holds : under s b cs ≡ true
  pub alone : (t : List ℕ) → under t b cs ≡ true → t ≡ s

one_below :
    (c : ℕ) (b' : Bool) (below : Children) (s : List ℕ)
    → OneName b' below s
    → OneName false (child c b' below no_child) (c ∷ s)
unfolding walk get_child
one_below c b' below s one = record {
  holds = under-child c s false c b' below no_child ∙ ground (arith, one.holds);
  alone = λ t h. only t h;
}
  where
    only : (t : List ℕ) → under t false (child c b' below no_child) ≡ true → t ≡ c ∷ s
    only [] h = absurd (ground arith)
    only (d ∷ t) h = elim (Bool-cases (c == d)) [
      | inl same ↦
          ap (λ (e : ℕ). e ∷ t) (sym ((==_iff c d).0 same))
          ∙ ap (λ (u : List ℕ). c ∷ u)
              (one.alone t (ground (arith, under-child d t false c b' below no_child, same, h)))
      | inr other ↦
          absurd
            (ground (arith, under-child d t false c b' below no_child, ap ends_name (walk-none t)))
    ]

abbrev pub result_or : List ℕ → Found → List ℕ
result_or r player_with_this_name_is_not_online = r
result_or r name_is_too_ambiguous = r
result_or r (no_error s) = s

abbrev pub is_found : Found → Bool
is_found player_with_this_name_is_not_online = false
is_found name_is_too_ambiguous = false
is_found (no_error s) = true

found_ambiguous : {r : List ℕ} → no_error r ≢ name_is_too_ambiguous
found_ambiguous e = absurd (ground (arith, ap is_found e))

pub complete-found :
    (acc : List ℕ) (b : Bool) (cs : Children) (r : List ℕ)
    → is_bare (node b cs) ≡ false
    → is_tidy cs ≡ true
    → complete acc b cs ≡ no_error r
    → (s : List ℕ) × (r ≡ acc ++ s) × OneName b cs s
unfolding complete is_tidy walk
complete-found acc b no_child r l h e = (
  [],
  ap (result_or r) (sym e) ∙ sym (append-nil acc),
  record { holds = ground (arith); alone = λ t k. no_longer t k },
)
  where
    no_longer : (t : List ℕ) → under t b no_child ≡ true → t ≡ []
    no_longer [] k = refl
    no_longer (d ∷ t) k = absurd (ground (arith, under-leaf d t b))
complete-found acc b (child c b' below no_child) r l h e = elim (Bool-cases b) [
  | inl here ↦ absurd (
      found_ambiguous (
        sym e
        ∙ ap (λ (q : Bool). if q then name_is_too_ambiguous else complete (acc ++ c ∷ []) b' below)
            here))
  | inr there ↦
      let deeper = complete-found (acc ++ c ∷ []) b' below r (ground arith) (ground arith) (
        sym (
          ap (λ (q : Bool). if q then name_is_too_ambiguous else complete (acc ++ c ∷ []) b' below)
            there)
        ∙ e) in
      (
        c ∷ deeper.0,
        deeper.1 ∙ append_assoc acc (c ∷ []) deeper.0,
        subst (λ (q : Bool). OneName q (child c b' below no_child) (c ∷ deeper.0)) (sym there)
            (one_below c b' below deeper.0 deeper.2),
      )
]
complete-found acc b (child c b' below (child d b'' below' rest)) r l h e =
    absurd (found_ambiguous (sym e))

abbrev first_of : ℕ → List ℕ → ℕ
first_of k [] = k
first_of k (c ∷ s) = c

abbrev rest_of : List ℕ → List ℕ
rest_of [] = []
rest_of (c ∷ s) = s

abbrev has_first : List ℕ → Bool
has_first [] = false
has_first (c ∷ s) = true

-- Two children have a name each.
two_names :
    (b : Bool) (c : ℕ) (b' : Bool) (below : Children) (d : ℕ) (b'' : Bool) (below' rest : Children)
    (s : List ℕ)
    → is_tidy (child c b' below (child d b'' below' rest)) ≡ true
    → ¬ OneName b (child c b' below (child d b'' below' rest)) s
unfolding is_tidy walk get_child
two_names b c b' below d b'' below' rest s h one =
    let u = some_name below in
    let v = some_name below' in
    let others = child d b'' below' rest in
    let apart : (c == d) ≡ false = ground (arith) in
    let named = one.alone (c ∷ u) (
      under-child c u b c b' below others
      ∙ ground (arith, under-some_name b' below (ground arith) (ground arith))) in
    let other = one.alone (d ∷ v) (
      under-child d v b c b' below others
      ∙ ground (
        arith,
        apart,
        under-child d v b d b'' below' rest,
        under-some_name b'' below' (ground arith) (ground arith),
      )) in
    ground (arith, apart, ap (first_of 0) (named ∙ sym other))

pub complete-only :
    (acc : List ℕ) (b : Bool) (cs : Children) (s : List ℕ)
    → is_bare (node b cs) ≡ false
    → is_tidy cs ≡ true
    → OneName b cs s
    → complete acc b cs ≡ no_error (acc ++ s)
unfolding complete is_tidy walk
complete-only acc b no_child s l h one =
    ap no_error (sym (append-nil acc) ∙ ap (λ (u : List ℕ). acc ++ u) (one.alone [] (ground arith)))
complete-only acc b (child c b' below no_child) s l h one =
    let u = some_name below in
    let k = under-some_name b' below (ground arith) (ground arith) in
    let named = one.alone (c ∷ u) (under-child c u b c b' below no_child ∙ ground (arith, k)) in
    elim (Bool-cases b) [
      | inl here ↦ absurd (ground (arith, ap has_first (one.alone [] here), ap has_first named))
      | inr there ↦
          ap (λ (q : Bool). if q then name_is_too_ambiguous else complete (acc ++ c ∷ []) b' below)
            there
          ∙ complete-only (acc ++ c ∷ []) b' below u (ground arith) (ground arith) (record {
            holds = k;
            alone = λ t e. ap rest_of (
                one.alone (c ∷ t) (under-child c t b c b' below no_child ∙ ground (arith, e))
                ∙ sym named);
          })
          ∙ ap no_error (append_assoc acc (c ∷ []) u ∙ ap (λ (v : List ℕ). acc ++ v) named)
    ]
complete-only acc b (child c b' below (child d b'' below' rest)) s l h one =
    absurd (two_names b c b' below d b'' below' rest s h one)

pub walk-append : (s t : List ℕ) (o : Option Node) → walk (s ++ t) o ≡ walk t (walk s o)
unfolding walk
walk-append [] t none = refl
walk-append [] t (some n) = refl
walk-append (c ∷ s) t none = sym (walk-none t)
walk-append (c ∷ s) t (some n) = walk-append s t (get_child c n.children)

pub walk-tidy :
    (s : List ℕ) (o : Option Node) → is_tidy_node o ≡ true → is_tidy_node (walk s o) ≡ true
unfolding walk is_tidy_node
walk-tidy s none h = ap is_tidy_node (walk-none s)
walk-tidy [] (some n) h = h
walk-tidy (c ∷ s) (some n) h =
    walk-tidy s (get_child c n.children) (get_child-tidy c n.children (ground arith))
