-- ===== src/Party/Keep/Depart.antt =====
-- Players and parties of src/party.cpp while a player leaves: who is listed where before the party
-- object follows.
use dark_global_12_x.Base.{
  ℕ, ◌≡◌, refl, ap, ◌∙◌, true, false, Option, none, some, List, ◌∷◌, arith, ◌==◌, if◌then◌else◌,
  contains, erase_first, contains-erase_first, erase_first-Distinct, ==_iff, Bool-cases, inl, inr,
}
use dark_global_12_x.Party.World.{Party, World, is_party, set_party, store_party}
use dark_global_12_x.Party.Shared.{Env, update_shared_experience, clear_player_points}
use dark_global_12_x.Party.Ops.{Events, take_out}
use dark_global_12_x.Party.Invariant.{
  Inv, IsSound, in_party, invited_in, one_party, party-set_party, invitations-set_party,
}
use dark_global_12_x.Party.Keep.Facts.{
  role_here, pending_here, IsSound-here, update_shared_experience-SamePeople,
  clear_player_points-SamePeople, in_party-SamePeople, IsSound-SamePeople, Inv-store, SamePeople,
}
use dark_global_12_x.Party.Keep.Disband.{Nearly}

-- The new leader's place, taken by the old one, is given up.
after_pass : (l x m : ℕ) (ms : List ℕ) → l ≡ x → erase_first x (l ∷ erase_first m (m ∷ ms)) ≡ ms
unfolding erase_first
after_pass l x m ms h = ground (arith, ==_iff m m)

SamePeople-trans : (p q r : Party) → SamePeople p q → SamePeople q r → SamePeople p r
SamePeople-trans p q r h k = (k.0 ∙ h.0, k.1 ∙ h.1, k.2 ∙ h.2)

module _ (events : Events) (env : Env) where
  pub take_out-SamePeople :
      (x : ℕ) (p : Party) (w : World)
      → SamePeople (record p { members = erase_first x p.members }) (take_out events env x p w)
  unfolding take_out
  take_out-SamePeople x p w =
      let q : Party = record p { members = erase_first x p.members } in
      let r = update_shared_experience env w q in
      SamePeople-trans q r (clear_player_points env w x r)
        (update_shared_experience-SamePeople env w q) (clear_player_points-SamePeople env w x r)

-- A world where the player has no party, and a party without the player.
abbrev pub gone : ℕ → World → World
gone x w = set_party x none w

abbrev pub minus : ℕ → Party → Party
minus x q = record q { members = erase_first x q.members }

module _ (events : Events) (env : Env) (w : World) (id x : ℕ) (p : Party) (inv : Inv w)
    (e : w.party id ≡ some p) where
  gone-parties : (gone x w).party ≡ w.party
  unfolding set_party
  gone-parties = refl

  -- Agreement, once the party object no longer lists the player.
  pub gone-Inv :
      (q : Party)
      → is_party (w.player x).party id ≡ true
      → ((y : ℕ) → in_party y (some q) ≡ (if x == y then false else in_party y (some p)))
      → ((y : ℕ) → invited_in y (some q) ≡ invited_in y (some p))
      → IsSound (some q)
      → Inv (store_party id (some q) (gone x w))
  gone-Inv q mine people invites sound =
      Inv-store id (some q) (gone x w)
        (λ y j. ground (
          arith,
          party-set_party x none w y j,
          ap (λ (f : ℕ → Option Party). in_party y (f j)) gone-parties,
          people y,
          role_here w id p inv e y,
          inv.role y j,
          one_party (w.player x).party id j,
          ==_iff x y,
        ))
        (λ y j. ground (
          arith,
          invitations-set_party x none w y j,
          ap (λ (f : ℕ → Option Party). invited_in y (f j)) gone-parties,
          invites y,
          pending_here w id p inv e y,
          inv.pending y j,
        ))
        sound (λ j. rw gone-parties (inv.sound j))

  -- A member leaves: the leader stays.
  pub member-people :
      p.leader == x ≡ false
      → (y : ℕ) → in_party y (some (minus x p)) ≡ (if x == y then false else in_party y (some p))
  member-people other y =
      ground (arith, contains-erase_first x y p.members (IsSound-here w id p inv e).1, ==_iff x y)

  pub member-IsSound : (other : p.leader == x ≡ false) → IsSound (some (minus x p))
  member-IsSound other =
      let s = IsSound-here w id p inv e in
      (
        ground (arith, contains-erase_first x p.leader p.members s.1),
        erase_first-Distinct x p.members s.1,
        s.2,
      )

  -- The leader leaves, and the first member has taken over.
  pub heir-people :
      (m : ℕ) (ms : List ℕ)
      → p.members ≡ m ∷ ms
      → p.leader == x ≡ true
      → (q : Party)
      → SamePeople (record p { leader = m; members = p.leader ∷ erase_first m p.members }) q
      → ((y : ℕ) → in_party y (some (minus x q)) ≡ (if x == y then false else in_party y (some p)))
        × IsSound (some (minus x q))
        × ((y : ℕ) → invited_in y (some (minus x q)) ≡ invited_in y (some p))
  heir-people m ms list lead q same =
      let s : IsSound (some (record p { members = m ∷ ms })) =
        rw list at (IsSound-here w id p inv e) in
      let is_x : p.leader ≡ x = (==_iff p.leader x).0 lead in
      let left : erase_first x q.members ≡ ms =
        rw (same.1, list) (after_pass p.leader x m ms is_x) in
      (
        (λ y. rw (left, same.0, list) (ground (arith, s.0, s.1.0, ==_iff x y))),
        (rw (left, same.0) (ground arith), rw left s.1.1, rw same.2 s.2),
        (λ y. rw same.2),
      )

  last-people :
      (q : Party)
      → p.leader == x ≡ true
      → SamePeople (minus x p) q
      → (y : ℕ) → in_party y (some q) ≡ in_party y (some p)
  last-people q lead same y =
      let s = IsSound-here w id p inv e in
      in_party-SamePeople (minus x p) q same y
      ∙ ground (arith, contains-erase_first x y p.members s.1, ==_iff p.leader x, ==_iff x y, s.0)

  last-IsSound : (q : Party) → p.leader == x ≡ true → SamePeople (minus x p) q → IsSound (some q)
  last-IsSound q lead same =
      let s = IsSound-here w id p inv e in
      IsSound-SamePeople (minus x p) q same (
        ground (arith, contains-erase_first x p.leader p.members s.1),
        erase_first-Distinct x p.members s.1,
        s.2,
      )

  -- The leader who was not to be replaced is still listed as leader, though it points nowhere.
  pub last-Nearly :
      (q : Party)
      → p.leader == x ≡ true
      → SamePeople (minus x p) q
      → Nearly (store_party id (some q) (gone x w)) id q
  unfolding store_party
  last-Nearly q lead same = record {
    role_others = λ y j h. ground (
      arith,
      party-set_party x none w y j,
      ap (λ (f : ℕ → Option Party). in_party y (f j)) gone-parties,
      last-people q lead same y,
      role_here w id p inv e y,
      role_here w id p inv e x,
      inv.role y j,
      one_party (w.player x).party id j,
      ==_iff x y,
      ==_iff p.leader x,
      same.0,
    );
    leader_only = λ j ne. ground (arith, party-set_party x none w q.leader j, same.0);
    pending = λ y j. ground (
      arith,
      invitations-set_party x none w y j,
      ap (λ (f : ℕ → Option Party). invited_in y (f j)) gone-parties,
      ap (contains y) same.2,
      pending_here w id p inv e y,
      inv.pending y j,
    );
    sound = λ j. elim (Bool-cases (id == j)) [
      | inl here ↦ rw here (last-IsSound q lead same)
      | inr there ↦ rw (there, gone-parties) (inv.sound j)
    ];
    here = ground arith;
  }
