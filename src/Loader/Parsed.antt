-- ===== src/Loader/Parsed.antt =====
-- The loop of src/fileloader.cpp on the bytes of an encoded tree.
use dark_global_12_x.Base.{
  ℕ, ◌≡◌, refl, sym, ap, ◌∙◌, true, false, Option, none, some, List, [], ◌∷◌, ◌++◌, append_assoc,
  append-nil, arith, Bool-cases, inl, inr,
}
use dark_global_12_x.Loader.{
  Node, Nodes, node, no_nodes, nodes, escape_char, start_char, end_char, Frame, open_frame,
  emplace_back, is_childless, extend, extend_top, Parse, parsing, invalid, node_char, plain,
  start_node, end_node, parse_loop, parse_root, finish,
}
use dark_global_12_x.Loader.Encoding.{
  is_special, escape, encode_node, encode_nodes, in_file, all_in_file,
}

-- One turn of the loop for each kind of byte that stands before another.
module _ (fs : List Frame) (root : Option Node) where
  loop-start :
      (t : ℕ) (bs : List ℕ)
      → parse_loop (start_char ∷ t ∷ bs) (parsing fs root) ≡ parse_loop bs (start_node t fs root)
  unfolding parse_loop
  loop-start t bs = refl

  loop-end :
      (bs : List ℕ)
      → parse_loop (end_char ∷ bs) (parsing fs root) ≡ parse_loop bs (end_node fs root)
  unfolding parse_loop
  loop-end [] = at_end (end_node fs root)
    where
      at_end : (p : Parse) → p ≡ parse_loop [] p
      at_end invalid = refl
      at_end (parsing gs r) = refl
  loop-end (c ∷ bs) = refl

  loop-escape :
      (c : ℕ) (bs : List ℕ)
      → parse_loop (escape_char ∷ c ∷ bs) (parsing fs root)
        ≡ parse_loop bs (parsing (extend_top (escape_char ∷ c ∷ []) fs) root)
  unfolding parse_loop
  loop-escape c bs = refl

  loop-plain :
      (b : ℕ) (bs : List ℕ)
      → is_special b ≡ false
      → parse_loop (b ∷ bs) (parsing fs root)
        ≡ parse_loop bs (parsing (extend_top (b ∷ []) fs) root)
  unfolding parse_loop
  loop-plain b [] h = rw (parse_loop, is_plain) refl
    where
      is_plain : node_char b ≡ plain
      is_plain = ground arith
  loop-plain b (c ∷ bs) h = rw (parse_loop, is_plain) refl
    where
      is_plain : node_char b ≡ plain
      is_plain = ground arith

-- Escaped properties are read into the node that is open.
abbrev pub with_props : Frame → List ℕ → Frame
with_props f bs = record f { props = f.props ++ bs }

extend-childless :
    (bs : List ℕ) (f : Frame) → is_childless f.children ≡ true → extend bs f ≡ with_props f bs
extend-childless bs f h = rw h refl

with_props-append :
    (f : Frame) (cs bs : List ℕ) → with_props (with_props f cs) bs ≡ with_props f (cs ++ bs)
with_props-append f cs bs = ap (λ (q : List ℕ). record f { props = q }) (append_assoc f.props cs bs)

-- Bytes read into the open node, and then the rest of its properties.
then_props :
    (cs bs rest : List ℕ) (f : Frame) (fs : List Frame) (root : Option Node) (p : Parse)
    → is_childless f.children ≡ true
    → p ≡ parse_loop (bs ++ rest) (parsing (extend_top cs (f ∷ fs)) root)
    → parse_loop (bs ++ rest) (parsing (with_props f cs ∷ fs) root)
      ≡ parse_loop rest (parsing (with_props (with_props f cs) bs ∷ fs) root)
    → p ≡ parse_loop rest (parsing (with_props f (cs ++ bs) ∷ fs) root)
then_props cs bs rest f fs root p h e ih =
    e
    ∙ ap (λ (g : Frame). parse_loop (bs ++ rest) (parsing (g ∷ fs) root)) (extend-childless cs f h)
    ∙ ih
    ∙ ap (λ (g : Frame). parse_loop rest (parsing (g ∷ fs) root)) (with_props-append f cs bs)

pub loop-props :
    (ps rest : List ℕ) (f : Frame) (fs : List Frame) (root : Option Node)
    → is_childless f.children ≡ true
    → parse_loop (escape ps ++ rest) (parsing (f ∷ fs) root)
      ≡ parse_loop rest (parsing (with_props f (escape ps) ∷ fs) root)
unfolding escape
loop-props [] rest f fs root h =
    ap (λ (q : List ℕ). parse_loop rest (parsing (record f { props = q } ∷ fs) root))
      (sym (append-nil f.props))
loop-props (b ∷ ps) rest f fs root h = elim (Bool-cases (is_special b)) [
  | inl special ↦ rw special (
      then_props (escape_char ∷ b ∷ []) (escape ps) rest f fs root _ h
        (loop-escape (f ∷ fs) root b (escape ps ++ rest))
        (loop-props ps rest (with_props f (escape_char ∷ b ∷ [])) fs root h))
  | inr ordinary ↦ rw ordinary (
      then_props (b ∷ []) (escape ps) rest f fs root _ h
        (loop-plain (f ∷ fs) root b (escape ps ++ rest) ordinary)
        (loop-props ps rest (with_props f (b ∷ [])) fs root h))
]

abbrev append_nodes : Nodes → Nodes → Nodes
append_nodes no_nodes ns = ns
append_nodes (nodes m ms) ns = nodes m (append_nodes ms ns)

append_nodes-nil : (ms : Nodes) → append_nodes ms no_nodes ≡ ms
append_nodes-nil no_nodes = refl
append_nodes-nil (nodes m ms) = ap (λ (ns : Nodes). nodes m ns) (append_nodes-nil ms)

append_nodes-back :
    (ms : Nodes) (n : Node) (ns : Nodes)
    → append_nodes (emplace_back ms n) ns ≡ append_nodes ms (nodes n ns)
append_nodes-back no_nodes n ns = refl
append_nodes-back (nodes m ms) n ns = ap (λ (q : Nodes). nodes m q) (append_nodes-back ms n ns)

abbrev with_children : Frame → Nodes → Frame
with_children f ns = record f { children = append_nodes f.children ns }

-- An encoded node becomes the last child of the node that is open, and encoded nodes its last
-- children.
mutual
  unfolding encode_node encode_nodes in_file all_in_file

  loop-node :
      (n : Node) (rest : List ℕ) (f : Frame) (fs : List Frame) (root : Option Node)
      → parse_loop (encode_node n ++ rest) (parsing (f ∷ fs) root)
        ≡ parse_loop rest
            (parsing (record f { children = emplace_back f.children (in_file n) } ∷ fs) root)
  loop-node (node t ps cs) rest f fs root =
      ap (λ (bs : List ℕ). parse_loop (start_char ∷ t ∷ bs) (parsing (f ∷ fs) root))
        (append_assoc (escape ps) (encode_nodes cs ++ end_char ∷ []) rest
          ∙ ap (λ (bs : List ℕ). escape ps ++ bs)
              (append_assoc (encode_nodes cs) (end_char ∷ []) rest))
      ∙ loop-start (f ∷ fs) root t (escape ps ++ (encode_nodes cs ++ end_char ∷ rest))
      ∙ loop-props ps (encode_nodes cs ++ end_char ∷ rest) (open_frame t) (f ∷ fs) root refl
      ∙ loop-nodes cs (end_char ∷ rest) (with_props (open_frame t) (escape ps)) (f ∷ fs) root
      ∙ loop-end (with_children (with_props (open_frame t) (escape ps)) (all_in_file cs) ∷ f ∷ fs)
          root rest

  pub loop-nodes :
      (ns : Nodes) (rest : List ℕ) (f : Frame) (fs : List Frame) (root : Option Node)
      → parse_loop (encode_nodes ns ++ rest) (parsing (f ∷ fs) root)
        ≡ parse_loop rest (parsing (with_children f (all_in_file ns) ∷ fs) root)
  loop-nodes no_nodes rest f fs root =
      ap (λ (q : Nodes). parse_loop rest (parsing (record f { children = q } ∷ fs) root))
        (sym (append_nodes-nil f.children))
  loop-nodes (nodes n ns) rest f fs root =
      ap (λ (bs : List ℕ). parse_loop bs (parsing (f ∷ fs) root))
        (append_assoc (encode_node n) (encode_nodes ns) rest)
      ∙ loop-node n (encode_nodes ns ++ rest) f fs root
      ∙ loop-nodes ns rest (record f { children = emplace_back f.children (in_file n) }) fs root
      ∙ ap (λ (q : Nodes). parse_loop rest (parsing (record f { children = q } ∷ fs) root))
          (append_nodes-back f.children (in_file n) (all_in_file ns))

pub parse_root-encode_node : (n : Node) → parse_root (encode_node n) ≡ some (in_file n)
unfolding parse_root encode_node in_file parse_loop
parse_root-encode_node (node t ps cs) = ap finish (
    loop-props ps (encode_nodes cs ++ end_char ∷ []) (open_frame t) [] none refl
    ∙ loop-nodes cs (end_char ∷ []) (with_props (open_frame t) (escape ps)) [] none)
