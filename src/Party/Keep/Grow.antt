-- ===== src/Party/Keep/Grow.antt =====
-- Party::invitePlayer and Party::joinParty of src/party.cpp.
use dark_global_12_x.Base.{
  ℕ, ◌≡◌, refl, sym, ap, ◌∙◌, false, ◌||◌, Option, none, some, [], ◌∷◌, ◌++◌, arith, ◌==◌,
  if◌then◌else◌, contains, erase_first, contains-erase_first, contains-append, erase_first-Distinct,
  append-Distinct, Bool-cases, inl, inr,
}
use dark_global_12_x.Party.World.{
  Party, World, is_party, set_party, add_party_invitation, remove_party_invitation, store_party,
}
use dark_global_12_x.Party.Shared.{Env, update_shared_experience}
use dark_global_12_x.Party.Ops.{Events, join_party, invite_player}
use dark_global_12_x.Party.Invariant.{
  Inv, IsSound, in_party, invited_in, party-set_party, invitations-set_party,
  party-remove_party_invitation, invitations-remove_party_invitation, party-add_party_invitation,
  invitations-add_party_invitation,
}
use dark_global_12_x.Party.Keep.Facts.{
  role_here, pending_here, IsSound-here, update_shared_experience-SamePeople, in_party-SamePeople,
  invited_in-SamePeople, IsSound-SamePeople, Inv-store,
}

module _ (env : Env) (w : World) (id x : ℕ) (p : Party) (inv : Inv w)
    (e : w.party id ≡ some p) where
  abbrev joined : Party
  joined = record p { invites = erase_first x p.invites; members = p.members ++ x ∷ [] }

  abbrev moved : World
  moved = remove_party_invitation id x (set_party x (some id) w)

  abbrev refreshed : Party
  refreshed = update_shared_experience env moved joined

  moved-parties : moved.party ≡ w.party
  unfolding remove_party_invitation set_party
  moved-parties = refl

  module _ (free : (w.player x).party ≡ none) where
    joined-role :
        (y j : ℕ)
        → is_party (moved.player y).party j
          ≡ (if id == j then in_party y (some refreshed) else in_party y (moved.party j))
    joined-role y j = ground (
      arith,
      party-remove_party_invitation id x (set_party x (some id) w) y j,
      party-set_party x (some id) w y j,
      in_party-SamePeople joined refreshed (update_shared_experience-SamePeople env moved joined) y,
      ap (λ (f : ℕ → Option Party). in_party y (f j)) moved-parties,
      contains-append y p.members (x ∷ []),
      role_here w id p inv e y,
      inv.role y j,
      inv.role x j,
      ap (λ (o : Option ℕ). is_party o j) free,
    )

    joined-pending :
        (y j : ℕ)
        → contains j (moved.player y).invitations
          ≡ (if id == j then invited_in y (some refreshed) else invited_in y (moved.party j))
    joined-pending y j = ground (
      arith,
      invitations-remove_party_invitation id x (set_party x (some id) w) y j,
      invitations-set_party x (some id) w y j,
      invited_in-SamePeople joined refreshed (update_shared_experience-SamePeople env moved joined)
          y,
      ap (λ (f : ℕ → Option Party). invited_in y (f j)) moved-parties,
      contains-erase_first x y p.invites (IsSound-here w id p inv e).2,
      pending_here w id p inv e y,
      inv.pending y j,
    )

    joined-IsSound : IsSound (some joined)
    joined-IsSound =
        let s = IsSound-here w id p inv e in
        let out : (p.leader == x || contains x p.members) ≡ false =
          sym (role_here w id p inv e x) ∙ ap (λ (o : Option ℕ). is_party o id) free in
        (
          ground (arith, contains-append p.leader p.members (x ∷ [])),
          append-Distinct x p.members (ground arith) s.1,
          erase_first-Distinct x p.invites s.2,
        )

    joined-Inv : Inv (store_party id (some refreshed) moved)
    joined-Inv =
        let same = update_shared_experience-SamePeople env moved joined in
        Inv-store id (some refreshed) moved joined-role joined-pending
          (IsSound-SamePeople joined refreshed same joined-IsSound)
          (λ j. rw moved-parties (inv.sound j))

module _ (events : Events) (env : Env) (w : World) (id x : ℕ) (p : Party) (inv : Inv w)
    (e : w.party id ≡ some p) where
  pub join_party-Inv : (w.player x).party ≡ none → Inv (join_party events env id x p w).0
  unfolding join_party
  join_party-Inv free = ground (arith, joined-Inv env w id x p inv e free)

  abbrev invited : Party
  invited = record p { invites = p.invites ++ x ∷ [] }

  abbrev asked : World
  asked = add_party_invitation id x w

  asked-parties : asked.party ≡ w.party
  unfolding add_party_invitation
  asked-parties = elim (Bool-cases (contains id (w.player x).invitations)) [
    | inl old ↦ rw old
    | inr new ↦ rw new
  ]

  asked-role :
      (y j : ℕ)
      → is_party (asked.player y).party j
        ≡ (if id == j then in_party y (some invited) else in_party y (asked.party j))
  asked-role y j = ground (
    arith,
    party-add_party_invitation id x w y j,
    role_here w id p inv e y,
    inv.role y j,
    ap (λ (f : ℕ → Option Party). in_party y (f j)) asked-parties,
  )

  asked-pending :
      (y j : ℕ)
      → contains j (asked.player y).invitations
        ≡ (if id == j then invited_in y (some invited) else invited_in y (asked.party j))
  asked-pending y j = ground (
    arith,
    invitations-add_party_invitation id x w y j,
    contains-append y p.invites (x ∷ []),
    pending_here w id p inv e y,
    inv.pending y j,
    ap (λ (f : ℕ → Option Party). invited_in y (f j)) asked-parties,
  )

  add-store :
      add_party_invitation id x (store_party id (some invited) w)
      ≡ store_party id (some invited) asked
  unfolding add_party_invitation store_party
  add-store = elim (Bool-cases (contains id (w.player x).invitations)) [
    | inl old ↦ rw old
    | inr new ↦ rw new
  ]

  asked-Inv : contains x p.invites ≡ false → Inv (store_party id (some invited) asked)
  asked-Inv new =
      let s = IsSound-here w id p inv e in
      Inv-store id (some invited) asked asked-role asked-pending
        (s.0, s.1, append-Distinct x p.invites new s.2) (λ j. rw asked-parties (inv.sound j))

  pub invite_player-Inv : Inv (invite_player events env id x p w).0
  unfolding invite_player
  invite_player-Inv = elim (Bool-cases (contains x p.invites)) [
    | inl old ↦ rw old inv
    | inr new ↦ rw (new, add-store) (asked-Inv new)
  ]
