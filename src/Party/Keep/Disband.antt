-- ===== src/Party/Keep/Disband.antt =====
-- Party::disband of src/party.cpp.
use dark_global_12_x.Base.{
  ℕ, ◌≡◌, ◌≢◌, refl, ap, ◌∙◌, true, false, ◌&&◌, Option, none, some, arith, ◌==◌, if◌then◌else◌,
  contains, ==_iff, Bool-cases, inl, inr,
}
use dark_global_12_x.Party.World.{
  Party, World, is_party, set_party, store_party, withdraw_all, release_all,
}
use dark_global_12_x.Party.Shared.{Env}
use dark_global_12_x.Party.Ops.{Events, disband}
use dark_global_12_x.Party.Invariant.{
  Inv, IsSound, in_party, invited_in, one_party, party-set_party, invitations-set_party,
  party-withdraw_all, invitations-withdraw_all, party-release_all, invitations-release_all,
  parties-withdraw_all, parties-release_all,
}
use dark_global_12_x.Party.Keep.Facts.{role_here, Inv-store}

-- What a disband needs: agreement, but for the pointer of the party's own leader.
pub record Nearly (w : World) (id : ℕ) (p : Party) : Type 0 where
  pub role_others :
      (y j : ℕ)
      → (p.leader == y && id == j) ≡ false
      → is_party (w.player y).party j ≡ in_party y (w.party j)
  pub leader_only : (j : ℕ) → id ≢ j → is_party (w.player p.leader).party j ≡ false
  pub pending : (y j : ℕ) → contains j (w.player y).invitations ≡ invited_in y (w.party j)
  pub sound : (j : ℕ) → IsSound (w.party j)
  pub here : w.party id ≡ some p

module _ (w : World) (id : ℕ) (p : Party) (n : Nearly w id p) where
  abbrev released : World
  released = release_all p.members (withdraw_all id p.invites (set_party p.leader none w))

  released-parties : released.party ≡ w.party
  released-parties =
      parties-release_all p.members (withdraw_all id p.invites (set_party p.leader none w))
      ∙ parties-withdraw_all id p.invites (set_party p.leader none w)
      ∙ (unfold set_party in refl)

  released-role :
      (y j : ℕ)
      → is_party (released.player y).party j
        ≡ (if id == j then in_party y none else in_party y (released.party j))
  released-role y j = ground (
    arith,
    party-release_all p.members (withdraw_all id p.invites (set_party p.leader none w)) y j,
    party-withdraw_all id p.invites (set_party p.leader none w) y j,
    party-set_party p.leader none w y j,
    ap (λ (f : ℕ → Option Party). in_party y (f j)) released-parties,
    ap (in_party y) n.here,
    n.role_others y j,
    n.role_others y id,
    n.leader_only j,
    one_party (w.player y).party id j,
  )

  released-pending :
      (y j : ℕ)
      → contains j (released.player y).invitations
        ≡ (if id == j then invited_in y none else invited_in y (released.party j))
  released-pending y j = ground (
    arith,
    invitations-release_all p.members (withdraw_all id p.invites (set_party p.leader none w)) y j,
    invitations-withdraw_all id p.invites (set_party p.leader none w) y j,
    invitations-set_party p.leader none w y j,
    ap (λ (f : ℕ → Option Party). invited_in y (f j)) released-parties,
    ap (invited_in y) n.here,
    n.pending y j,
  )

  released-Inv : Inv (store_party id none released)
  released-Inv =
      Inv-store id none released released-role released-pending tt
        (λ j. rw released-parties (n.sound j))

Nearly-Inv : (w : World) (id : ℕ) (p : Party) → Inv w → w.party id ≡ some p → Nearly w id p
Nearly-Inv w id p inv e = record {
  role_others = λ y j h. inv.role y j;
  leader_only = λ j ne. ground (
    arith,
    role_here w id p inv e p.leader,
    one_party (w.player p.leader).party id j,
    ==_iff id j,
  );
  pending = inv.pending;
  sound = inv.sound;
  here = e;
}

module _ (events : Events) (env : Env) (id : ℕ) (p : Party) (w : World) where
  -- A disband that no script vetoes restores agreement even where the leader has left already.
  pub disband-Nearly :
      events.on_disband w id ≡ true → Nearly w id p → Inv (disband events env id p w)
  unfolding disband
  disband-Nearly agreed n = rw agreed (released-Inv w id p n)

  pub disband-Inv : Inv w → w.party id ≡ some p → Inv (disband events env id p w)
  unfolding disband
  disband-Inv inv e = elim (Bool-cases (events.on_disband w id)) [
    | inl agreed ↦ rw agreed (released-Inv w id p (Nearly-Inv w id p inv e))
    | inr vetoed ↦ rw vetoed inv
  ]
