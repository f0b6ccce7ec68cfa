-- ===== src/Guild/Ranks.antt =====
-- Look-ups of a rank after addRank, and who keeps a guild of src/guild.cpp in memory.
use dark_global_12_x.Base.{
  ℕ, ◌≡◌, refl, sym, ap, ◌∙◌, Bool, true, false, not, ◌&&◌, ◌||◌, Option, none, some, List, [], ◌∷◌,
  ◌++◌, ◌==◌, if◌then◌else◌, arith, contains, erase_all, contains-erase_all, ==_iff, Bool-cases,
  inl, inr, same_name,
}
use dark_global_12_x.Guild.{
  GuildRank, Guild, Guilds, has_nobody, add_member, remove_member, find_rank, get_rank_by_id,
  get_rank_by_name, get_rank_by_level, add_rank,
}

abbrev pub or_else : Option GuildRank → Option GuildRank → Option GuildRank
or_else none o = o
or_else (some r) o = some r

abbrev pub if_some : Bool → GuildRank → Option GuildRank
if_some b r = if b then some r else none

find_rank-snoc :
    (f : GuildRank → Bool) (r : GuildRank) (rs : List GuildRank)
    → find_rank f (rs ++ r ∷ []) ≡ or_else (find_rank f rs) (if_some (f r) r)
unfolding find_rank
find_rank-snoc f r [] = refl
find_rank-snoc f r (q ∷ rs) = elim (Bool-cases (f q)) [
  | inl here ↦ rw here refl
  | inr there ↦ rw there (find_rank-snoc f r rs)
]

-- After addRank each of the three look-ups gives the rank that it gave before, if it gave one, and
-- otherwise the new rank, if that has the identifier, name or level in question.
pub look_up-add_rank :
    (i : ℕ) (s : List ℕ) (l : ℕ) (g : Guild) (j : ℕ) (t : List ℕ) (m : ℕ)
    → (get_rank_by_id j (add_rank i s l g)
        ≡ or_else (get_rank_by_id j g) (if_some (i == j) (record { id = i; name = s; level = l })))
      × (get_rank_by_name t (add_rank i s l g)
          ≡ or_else
              (get_rank_by_name t g)
              (if_some (same_name s t) (record { id = i; name = s; level = l })))
      × (get_rank_by_level m (add_rank i s l g)
          ≡ or_else
              (get_rank_by_level m g)
              (if_some (l == m) (record { id = i; name = s; level = l })))
unfolding get_rank_by_id get_rank_by_name get_rank_by_level add_rank
look_up-add_rank i s l g j t m =
    let r : GuildRank = record { id = i; name = s; level = l } in
    (
      find_rank-snoc (λ q. q.id == j) r g.ranks,
      find_rank-snoc (λ q. same_name q.name t) r g.ranks,
      find_rank-snoc (λ q. q.level == m) r g.ranks,
    )

abbrev pub is_online : ℕ → Option Guild → Bool
is_online x none = false
is_online x (some g) = contains x g.members_online

-- Every guild in memory is stored under its identifier, as addGuild stores it.
abbrev pub is_named : ℕ → Option Guild → Bool
is_named i none = true
is_named i (some g) = g.id == i

abbrev pub AllNamed : Guilds → Type 0
AllNamed gs = (i : ℕ) → is_named i (gs i) ≡ true

abbrev pub is_in_memory : Option Guild → Bool
is_in_memory none = false
is_in_memory (some g) = true

abbrev pub is_deserted : Option Guild → Bool
is_deserted none = false
is_deserted (some g) = has_nobody g.members_online

nobody-snoc : (x : ℕ) (xs : List ℕ) → has_nobody (xs ++ x ∷ []) ≡ false
nobody-snoc x [] = refl
nobody-snoc x (y ∷ ys) = refl

nobody-contains : (x : ℕ) (xs : List ℕ) → has_nobody xs ≡ true → contains x xs ≡ false
nobody-contains x [] h = refl
nobody-contains x (y ∷ ys) h = absurd (ground arith)

contains-snoc : (x y : ℕ) (us : List ℕ) → contains y (us ++ x ∷ []) ≡ (contains y us || x == y)
contains-snoc x y [] = ground arith
contains-snoc x y (u ∷ us) = ground (arith, contains-snoc x y us)

-- A member who enters or leaves a guild in memory, loaded with nobody online or with members: every guild
-- stays under its identifier; exactly the player added is online too afterwards, and exactly the player
-- removed is not, in this guild; adding keeps the guilds in memory as they are, and removing takes out
-- exactly this guild, exactly when nobody else in it is online. So after either the guild has somebody
-- online or is not in memory. Condition: guilds are stored under their identifiers, as addGuild does.
pub members_online :
    (x y i j : ℕ) (g : Guild) (gs : Guilds)
    → AllNamed gs
    → gs i ≡ some g
    → let added = add_member x g gs in
      let removed = remove_member x g gs in
      AllNamed added
      × AllNamed removed
      × (is_online y (added j) ≡ (is_online y (gs j) || i == j && x == y))
      × (is_online y (removed j) ≡ (is_online y (gs j) && not (i == j && x == y)))
      × (is_in_memory (added j) ≡ is_in_memory (gs j))
      × (is_in_memory (removed j)
          ≡ (is_in_memory (gs j) && not (i == j && has_nobody (erase_all x g.members_online))))
      × (is_deserted (added i) ≡ false)
      × (is_deserted (removed i) ≡ false)
unfolding add_member remove_member
members_online x y i j g gs named e =
    let own : (g.id == i) ≡ true = sym (ap (is_named i) e) ∙ named i in
    let here : is_online y (gs i) ≡ contains y g.members_online = ap (is_online y) e in
    let there : is_in_memory (gs i) ≡ true = ap is_in_memory e in
    let moved : (i == j) ≡ true → is_online y (gs i) ≡ is_online y (gs j) =
      λ h. ap (λ (k : ℕ). is_online y (gs k)) ((==_iff i j).0 h) in
    let kept : (i == j) ≡ true → is_in_memory (gs i) ≡ is_in_memory (gs j) =
      λ h. ap (λ (k : ℕ). is_in_memory (gs k)) ((==_iff i j).0 h) in
    (
      λ k. ground (arith, named k),
      λ k. ground (arith, named k),
      ground (arith, own, here, moved, contains-snoc x y g.members_online),
      ground (
        arith,
        own,
        here,
        moved,
        contains-erase_all x y g.members_online,
        nobody-contains y (erase_all x g.members_online),
      ),
      ground (arith, own, there, kept),
      ground (arith, own, there, kept),
      ground (arith, own, nobody-snoc x g.members_online),
      ground (arith, own),
    )
