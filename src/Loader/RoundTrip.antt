-- ===== src/Loader/RoundTrip.antt =====
-- What an encoded tree parses to in src/fileloader.cpp.
use dark_global_12_x.Base.{
  ℕ, ◌≡◌, refl, ap, ◌∙◌, Bool, true, false, not, ◌&&◌, Option, none, some, List, [], ◌∷◌, ◌++◌,
  ◌==◌, arith, Bool-cases, inl, inr, ◌<◌, ◌≤◌, length, take, same_name, take-exact, drop-exact,
}
use dark_global_12_x.Loader.{
  Node, Nodes, node, escape_char, unescape, props_of, get_props, load, accepts,
}
use dark_global_12_x.Loader.Encoding.{is_special, escape, encode_node, in_file}
use dark_global_12_x.Loader.Parsed.{parse_root-encode_node}

unescape-kept :
    (b : ℕ) (last : Bool) (bs : List ℕ)
    → b == escape_char && not last ≡ false
    → unescape last (b ∷ bs) ≡ b ∷ unescape false bs
unfolding unescape
unescape-kept b last bs h = rw h refl

not_escape : (b : ℕ) → is_special b ≡ false → b == escape_char && true ≡ false
not_escape b h = ground arith

twice_escaped : (b : Bool) → b && false ≡ false
twice_escaped true = refl
twice_escaped false = refl

unescape-escape : (ps : List ℕ) → unescape false (escape ps) ≡ ps
unfolding unescape escape
unescape-escape [] = refl
unescape-escape (b ∷ ps) = elim (Bool-cases (is_special b)) [
  | inl special ↦ rw special (
      unescape-kept b true (escape ps) (twice_escaped (b == escape_char))
      ∙ ap (λ (q : List ℕ). b ∷ q) (unescape-escape ps))
  | inr ordinary ↦ rw ordinary (
      unescape-kept b false (escape ps) (not_escape b ordinary)
      ∙ ap (λ (q : List ℕ). b ∷ q) (unescape-escape ps))
]

props_of-nonempty : (bs : List ℕ) → 0 < length bs → props_of bs ≡ some (unescape false bs)
props_of-nonempty [] h = absurd (omega (arith, h))
props_of-nonempty (b ∷ bs) h = refl

length-escape : (ps : List ℕ) → length ps ≤ length (escape ps)
unfolding escape
length-escape [] = omega arith
length-escape (b ∷ ps) = elim (Bool-cases (is_special b)) [
  | inl special ↦ rw special (omega (arith, length-escape ps))
  | inr ordinary ↦ rw ordinary (omega (arith, length-escape ps))
]

-- The properties of a node that has some.
abbrev pub if_any : List ℕ → Option (List ℕ)
if_any [] = none
if_any (b ∷ bs) = some (b ∷ bs)

-- getProps on a parsed node gives back the properties that were escaped into the file: every byte of
-- them, in order, whatever marks are among them. A node without properties has none to give.
pub get_props-in_file :
    (t : ℕ) (ps : List ℕ) (cs : Nodes) → get_props (in_file (node t ps cs)) ≡ if_any ps
unfolding get_props in_file escape
get_props-in_file t [] cs = refl
get_props-in_file t (b ∷ ps) cs =
    props_of-nonempty (escape (b ∷ ps)) (omega (arith, length-escape (b ∷ ps)))
    ∙ ap some (unescape-escape (b ∷ ps))

same_name_self : (a : List ℕ) → same_name a a ≡ true
same_name_self [] = refl
same_name_self (c ∷ a) = ground (arith, same_name_self a)

accepts-identifier :
    (identifier rest : List ℕ)
    → length identifier ≡ 4
    → 7 < length (identifier ++ rest)
    → accepts identifier (identifier ++ rest) ≡ true
unfolding accepts
accepts-identifier identifier rest four long =
    let t = take-exact 4 identifier rest four in
    let e : same_name (take 4 (identifier ++ rest)) identifier ≡ true =
      rw t (same_name_self identifier) in
    ground (arith, e, long)

-- A file with the accepted identifier and a tree behind it loads as that tree, with the properties of
-- each node still escaped and every child in its place, whatever bytes its properties hold. The file
-- must be longer than the 7 bytes of a root with nothing in it.
pub load-encode_node :
    (identifier : List ℕ) (n : Node)
    → length identifier ≡ 4
    → 7 < length (identifier ++ encode_node n)
    → load identifier (identifier ++ encode_node n) ≡ some (in_file n)
unfolding load
load-encode_node identifier n four long =
    rw
      (
        accepts-identifier identifier (encode_node n) four long,
        drop-exact 4 identifier (encode_node n) four,
      )
      (parse_root-encode_node n)
