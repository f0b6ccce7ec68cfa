-- ===== src/Loader/Prefix.antt =====
-- The loop of src/fileloader.cpp on the first bytes of a file.
use dark_global_12_x.Base.{
  ℕ, ◌≡◌, refl, sym, ap, ◌∙◌, subst, Option, none, List, [], ◌∷◌, ◌++◌, ◌⊎◌, inl, inr,
}
use dark_global_12_x.Loader.{
  Node, Frame, Parse, parsing, invalid, NodeChar, starts, ends, escapes, plain, node_char,
  start_node, end_node, extend_top, parse_loop, finish,
}

loop-invalid : (bs : List ℕ) → parse_loop bs invalid ≡ invalid
unfolding parse_loop
loop-invalid [] = refl
loop-invalid (b ∷ bs) = refl

pub loop-nil : (p : Parse) → parse_loop [] p ≡ p
unfolding parse_loop
loop-nil invalid = refl
loop-nil (parsing fs root) = refl

-- The turns of the loop, by the kind of the byte: on the last byte, and on another.
module _ (b : ℕ) (fs : List Frame) (root : Option Node) where
  abbrev last_turn : NodeChar → Parse
  last_turn starts = invalid
  last_turn ends = end_node fs root
  last_turn escapes = invalid
  last_turn plain = parsing (extend_top (b ∷ []) fs) root

  abbrev turn : ℕ → List ℕ → NodeChar → Parse
  turn c bs starts = parse_loop bs (start_node c fs root)
  turn c bs ends = parse_loop (c ∷ bs) (end_node fs root)
  turn c bs escapes = parse_loop bs (parsing (extend_top (b ∷ c ∷ []) fs) root)
  turn c bs plain = parse_loop (c ∷ bs) (parsing (extend_top (b ∷ []) fs) root)

  loop-last : parse_loop (b ∷ []) (parsing fs root) ≡ last_turn (node_char b)
  unfolding parse_loop
  loop-last = by_kind (node_char b)
    where
      by_kind :
          (k : NodeChar)
          → (elim k [
            | starts ↦ invalid
            | ends ↦ end_node fs root
            | escapes ↦ invalid
            | plain ↦ parsing (extend_top (b ∷ []) fs) root
          ])
            ≡ last_turn k
      by_kind starts = refl
      by_kind ends = refl
      by_kind escapes = refl
      by_kind plain = refl

  loop-turn :
      (c : ℕ) (bs : List ℕ) → parse_loop (b ∷ c ∷ bs) (parsing fs root) ≡ turn c bs (node_char b)
  unfolding parse_loop
  loop-turn c bs = by_kind (node_char b)
    where
      by_kind :
          (k : NodeChar)
          → (elim k [
            | starts ↦ parse_loop bs (start_node c fs root)
            | ends ↦ parse_loop (c ∷ bs) (end_node fs root)
            | escapes ↦ parse_loop bs (parsing (extend_top (b ∷ c ∷ []) fs) root)
            | plain ↦ parse_loop (c ∷ bs) (parsing (extend_top (b ∷ []) fs) root)
          ])
            ≡ turn c bs k
      by_kind starts = refl
      by_kind ends = refl
      by_kind escapes = refl
      by_kind plain = refl

-- A loop over the first bytes fails, or it goes on with the others from where it stands.
abbrev GoesOn : List ℕ → List ℕ → Parse → Type 0
GoesOn bs qs p =
    (parse_loop bs p ≡ invalid) ⊎ (parse_loop (bs ++ qs) p ≡ parse_loop qs (parse_loop bs p))

module _ (b : ℕ) (fs : List Frame) (root : Option Node) (qs : List ℕ) where
  last_turn-GoesOn :
      (q : ℕ) (k : NodeChar)
      → (last_turn b fs root k ≡ invalid)
        ⊎ (turn b fs root q qs k ≡ parse_loop (q ∷ qs) (last_turn b fs root k))
  last_turn-GoesOn q starts = inl refl
  last_turn-GoesOn q ends = inr refl
  last_turn-GoesOn q escapes = inl refl
  last_turn-GoesOn q plain = inr refl

  turn-GoesOn :
      (c : ℕ) (bs : List ℕ) (k : NodeChar)
      → GoesOn bs qs (start_node c fs root)
      → GoesOn (c ∷ bs) qs (end_node fs root)
      → GoesOn bs qs (parsing (extend_top (b ∷ c ∷ []) fs) root)
      → GoesOn (c ∷ bs) qs (parsing (extend_top (b ∷ []) fs) root)
      → (turn b fs root c bs k ≡ invalid)
        ⊎ (turn b fs root c (bs ++ qs) k ≡ parse_loop qs (turn b fs root c bs k))
  turn-GoesOn c bs starts s e x p = s
  turn-GoesOn c bs ends s e x p = e
  turn-GoesOn c bs escapes s e x p = x
  turn-GoesOn c bs plain s e x p = p

goes_on : (bs qs : List ℕ) (p : Parse) → GoesOn bs qs p
goes_on bs qs invalid = inl (loop-invalid bs)
goes_on [] qs (parsing fs root) = inr (ap (parse_loop qs) (sym (loop-nil (parsing fs root))))
goes_on (b ∷ []) [] (parsing fs root) = inr (sym (loop-nil _))
goes_on (b ∷ []) (q ∷ qs) (parsing fs root) =
    rw (loop-last b fs root, loop-turn b fs root q qs)
      (last_turn-GoesOn b fs root qs q (node_char b))
goes_on (b ∷ c ∷ bs) qs (parsing fs root) =
    rw (loop-turn b fs root c bs, loop-turn b fs root c (bs ++ qs))
      (turn-GoesOn b fs root qs c bs (node_char b) (goes_on bs qs (start_node c fs root))
        (goes_on (c ∷ bs) qs (end_node fs root))
        (goes_on bs qs (parsing (extend_top (b ∷ c ∷ []) fs) root))
        (goes_on (c ∷ bs) qs (parsing (extend_top (b ∷ []) fs) root)))

-- Once the stack is empty, no node is open again.
abbrev NoFrames : Parse → Type 0
NoFrames invalid = Unit {0}
NoFrames (parsing [] root) = Unit {0}
NoFrames (parsing (f ∷ fs) root) = ⊥

module _ (b : ℕ) (root : Option Node) where
  last_turn-NoFrames : (k : NodeChar) → NoFrames (last_turn b [] root k)
  last_turn-NoFrames starts = tt
  last_turn-NoFrames ends = tt
  last_turn-NoFrames escapes = tt
  last_turn-NoFrames plain = tt

  turn-NoFrames :
      (c : ℕ) (bs : List ℕ) (k : NodeChar)
      → NoFrames (parse_loop bs (parsing [] root))
      → NoFrames (parse_loop (c ∷ bs) (parsing [] root))
      → NoFrames (turn b [] root c bs k)
  turn-NoFrames c bs starts s l = subst NoFrames (sym (loop-invalid bs)) tt
  turn-NoFrames c bs ends s l = subst NoFrames (sym (loop-invalid (c ∷ bs))) tt
  turn-NoFrames c bs escapes s l = s
  turn-NoFrames c bs plain s l = l

stays_empty : (bs : List ℕ) (root : Option Node) → NoFrames (parse_loop bs (parsing [] root))
stays_empty [] root = subst NoFrames (sym (loop-nil (parsing [] root))) tt
stays_empty (b ∷ []) root =
    subst NoFrames (sym (loop-last b [] root)) (last_turn-NoFrames b root (node_char b))
stays_empty (b ∷ c ∷ bs) root =
    subst NoFrames (sym (loop-turn b [] root c bs))
      (turn-NoFrames b root c bs (node_char b) (stays_empty bs root) (stays_empty (c ∷ bs) root))

module _ (f : Frame) (fs : List Frame) (root : Option Node) where
  open_before :
      (qs : List ℕ) (p : Parse) → parse_loop qs p ≡ parsing (f ∷ fs) root → finish p ≡ none
  open_before qs invalid e = refl
  open_before qs (parsing [] r) e = absurd (subst NoFrames e (stays_empty qs r))
  open_before qs (parsing (g ∷ gs) r) e = refl

  -- Where a node is open behind all the bytes, the parse is not finished behind the first of them.
  pub finish-open :
      (bs qs : List ℕ) (p : Parse)
      → parse_loop (bs ++ qs) p ≡ parsing (f ∷ fs) root
      → finish (parse_loop bs p) ≡ none
  finish-open bs qs p e = elim (goes_on bs qs p) [
    | inl fails ↦ ap finish fails
    | inr on ↦ open_before qs (parse_loop bs p) (sym on ∙ e)
  ]
