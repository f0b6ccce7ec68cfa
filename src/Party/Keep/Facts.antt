-- ===== src/Party/Keep/Facts.antt =====
-- What agreement says of one party, in the form that the proofs about src/party.cpp use.
use dark_global_12_x.Base.{
  ℕ, ◌≡◌, ap, ◌∙◌, ◌||◌, some, arith, ◌==◌, contains, Option, if◌then◌else◌, Bool-cases, inl, inr,
}
use dark_global_12_x.Party.World.{Party, World, is_party, store_party}
use dark_global_12_x.Party.Shared.{Env, update_shared_experience, clear_player_points}
use dark_global_12_x.Party.Invariant.{Inv, IsSound, in_party, invited_in}

module _ (w : World) (id : ℕ) (p : Party) (inv : Inv w) (e : w.party id ≡ some p) where
  pub role_here : (y : ℕ) → is_party (w.player y).party id ≡ (p.leader == y || contains y p.members)
  role_here y = inv.role y id ∙ ap (in_party y) e

  pub pending_here : (y : ℕ) → contains id (w.player y).invitations ≡ contains y p.invites
  pending_here y = inv.pending y id ∙ ap (invited_in y) e

  pub IsSound-here : IsSound (some p)
  IsSound-here = rw e at (inv.sound id)

-- Shared experience does not touch who is in a party.
abbrev pub SamePeople : Party → Party → Type 0
SamePeople p q = (q.leader ≡ p.leader) × (q.members ≡ p.members) × (q.invites ≡ p.invites)

module _ (env : Env) (w : World) where
  pub update_shared_experience-SamePeople :
      (p : Party) → SamePeople p (update_shared_experience env w p)
  unfolding update_shared_experience
  update_shared_experience-SamePeople p = ground arith

  pub clear_player_points-SamePeople :
      (x : ℕ) (p : Party) → SamePeople p (clear_player_points env w x p)
  unfolding clear_player_points update_shared_experience
  clear_player_points-SamePeople x p = ground arith

module _ (p q : Party) (same : SamePeople p q) where
  pub in_party-SamePeople : (y : ℕ) → in_party y (some q) ≡ in_party y (some p)
  in_party-SamePeople y = rw (same.0, same.1)

  pub invited_in-SamePeople : (y : ℕ) → invited_in y (some q) ≡ invited_in y (some p)
  invited_in-SamePeople y = rw same.2

  pub IsSound-SamePeople : IsSound (some p) → IsSound (some q)
  IsSound-SamePeople h = rw (same.0, same.1, same.2) h

-- Agreement after one party object is replaced.
pub Inv-store :
    (id : ℕ) (q : Option Party) (w : World)
    → ((y j : ℕ)
        → is_party (w.player y).party j
          ≡ (if id == j then in_party y q else in_party y (w.party j)))
    → ((y j : ℕ)
        → contains j (w.player y).invitations
          ≡ (if id == j then invited_in y q else invited_in y (w.party j)))
    → IsSound q
    → ((j : ℕ) → IsSound (w.party j))
    → Inv (store_party id q w)
unfolding store_party
Inv-store id q w role pending here there = record {
  role = λ y j. ground (arith, role y j);
  pending = λ y j. ground (arith, pending y j);
  sound =
      λ j. elim (Bool-cases (id == j)) [ inl same ↦ rw same here | inr other ↦ rw other (there j) ];
}
