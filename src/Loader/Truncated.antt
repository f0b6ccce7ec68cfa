-- ===== src/Loader/Truncated.antt =====
-- A file that ends too early for src/fileloader.cpp.
use dark_global_12_x.Base.{
  ℕ, zero, suc, ◌+◌, ◌-◌, ◌≡◌, refl, sym, ap, ◌∙◌, ◌<◌, Bool, true, false, Option, none, List, [],
  ◌∷◌, ◌++◌, append_assoc, arith, length, take, drop, inl, inr, ltb, Bool-cases, if◌then◌else◌,
  take-drop, take_within, take_past, drop-exact, length-append, length-take_le, append-nil,
}
use dark_global_12_x.Loader.{
  Node, node, end_char, open_frame, parsing, parse_loop, parse_root, finish, load, accepts,
}
use dark_global_12_x.Loader.Encoding.{escape, encode_node, encode_nodes}
use dark_global_12_x.Loader.Parsed.{with_props, loop-props, loop-nodes}
use dark_global_12_x.Loader.Prefix.{loop-nil, finish-open}

-- A tree that is cut anywhere before its last byte.
parse_root-take :
    (n : Node) (k : ℕ) → k < length (encode_node n) → parse_root (take k (encode_node n)) ≡ none
unfolding parse_root encode_node
parse_root-take (node t ps cs) zero h = refl
parse_root-take (node t ps cs) (suc zero) h = refl
parse_root-take (node t ps cs) (suc (suc j)) h =
    let whole = escape ps ++ encode_nodes cs in
    let all : escape ps ++ (encode_nodes cs ++ end_char ∷ []) ≡ whole ++ end_char ∷ [] =
      sym (append_assoc (escape ps) (encode_nodes cs) (end_char ∷ [])) in
    let long : length (whole ++ end_char ∷ []) ≡ length whole + 1 =
      length-append whole (end_char ∷ []) in
    let size = ap (λ (bs : List ℕ). length bs) all in
    let cut : take j (escape ps ++ (encode_nodes cs ++ end_char ∷ [])) ≡ take j whole =
      ap (take j) all ∙ take_within j whole (end_char ∷ []) (omega (arith, h, size, long)) in
    let opened = parsing (open_frame t ∷ []) none in
    ap (λ (bs : List ℕ). finish (parse_loop bs opened)) cut
    ∙ finish-open _ [] none (take j whole) (drop j whole) opened (
        ap (λ (bs : List ℕ). parse_loop bs opened) (take-drop j whole)
        ∙ loop-props ps (encode_nodes cs) (open_frame t) [] none refl
        ∙ ap
            (λ (bs : List ℕ).
              parse_loop bs (parsing (with_props (open_frame t) (escape ps) ∷ []) none))
            (sym (append-nil (encode_nodes cs)))
        ∙ loop-nodes cs [] (with_props (open_frame t) (escape ps)) [] none
        ∙ loop-nil _)

if_none : (b : Bool) (o : Option Node) → o ≡ none → (if b then o else none) ≡ none
if_none true o e = e
if_none false o e = refl

-- A file with the accepted identifier and a tree behind it is rejected once it is cut, wherever: in the
-- identifier, in the properties of any node, in the middle of an escape, or before the END of any node.
pub load_truncated :
    (identifier : List ℕ) (n : Node) (k : ℕ)
    → length identifier ≡ 4
    → k < length (identifier ++ encode_node n)
    → load identifier (take k (identifier ++ encode_node n)) ≡ none
unfolding load accepts
load_truncated identifier n k four h =
    let file = identifier ++ encode_node n in
    elim (Bool-cases (ltb 7 (length (take k file)))) [
      | inl long ↦
          let size = length-take_le k file in
          let both = length-append identifier (encode_node n) in
          let enough : 7 < k = ground (arith, long, size) in
          let rest : drop 4 (take k file) ≡ take (k - length identifier) (encode_node n) =
            ap (drop 4) (take_past k identifier (encode_node n) (omega (arith, four, enough)))
            ∙ drop-exact 4 identifier _ four in
          if_none _ _
            (ap parse_root rest ∙ parse_root-take n _ (omega (arith, four, h, both, enough)))
      | inr short ↦ rw short refl
    ]
