-- ===== src/Party/Keep/Shrink.antt =====
-- Party::revokeInvitation and Party::passPartyLeadership of src/party.cpp.
use dark_global_12_x.Base.{
  ℕ, ◌≡◌, refl, ap, true, false, not, ◌||◌, Option, some, ◌∷◌, arith, ◌==◌, if◌then◌else◌, contains,
  erase_first, contains-erase_first, erase_first-Distinct, ==_iff, Bool-cases, inl, inr,
}
use dark_global_12_x.Party.World.{Party, World, is_party, remove_party_invitation, store_party}
use dark_global_12_x.Party.Shared.{Env, update_shared_experience}
use dark_global_12_x.Party.Ops.{
  Events, remove_invite, revoke_invitation, pass_party_leadership, is_empty,
}
use dark_global_12_x.Party.Invariant.{
  Inv, IsSound, in_party, invited_in, party-remove_party_invitation,
  invitations-remove_party_invitation,
}
use dark_global_12_x.Party.Keep.Facts.{
  role_here, pending_here, IsSound-here, update_shared_experience-SamePeople, in_party-SamePeople,
  invited_in-SamePeople, IsSound-SamePeople, Inv-store,
}
use dark_global_12_x.Party.Keep.Disband.{disband-Inv}

module _ (w : World) (id x : ℕ) (p : Party) (inv : Inv w) (e : w.party id ≡ some p) where
  abbrev without : Party
  without = record p { invites = erase_first x p.invites }

  abbrev uninvited : World
  uninvited = remove_party_invitation id x w

  uninvited-parties : uninvited.party ≡ w.party
  unfolding remove_party_invitation
  uninvited-parties = refl

  uninvited-role :
      (y j : ℕ)
      → is_party (uninvited.player y).party j
        ≡ (if id == j then in_party y (some without) else in_party y (uninvited.party j))
  uninvited-role y j = ground (
    arith,
    party-remove_party_invitation id x w y j,
    role_here w id p inv e y,
    inv.role y j,
    ap (λ (f : ℕ → Option Party). in_party y (f j)) uninvited-parties,
  )

  uninvited-pending :
      (y j : ℕ)
      → contains j (uninvited.player y).invitations
        ≡ (if id == j then invited_in y (some without) else invited_in y (uninvited.party j))
  uninvited-pending y j = ground (
    arith,
    invitations-remove_party_invitation id x w y j,
    contains-erase_first x y p.invites (IsSound-here w id p inv e).2,
    pending_here w id p inv e y,
    inv.pending y j,
    ap (λ (f : ℕ → Option Party). invited_in y (f j)) uninvited-parties,
  )

  uninvited-Inv : Inv (store_party id (some without) uninvited)
  uninvited-Inv =
      let s = IsSound-here w id p inv e in
      Inv-store id (some without) uninvited uninvited-role uninvited-pending
        (s.0, s.1, erase_first-Distinct x p.invites s.2) (λ j. rw uninvited-parties (inv.sound j))

pub stored_here : (id : ℕ) (q : Option Party) (w : World) → (store_party id q w).party id ≡ q
unfolding store_party
stored_here id q w = ground arith

module _ (events : Events) (env : Env) (w : World) (id x : ℕ) (p : Party) (inv : Inv w)
    (e : w.party id ≡ some p) where
  -- Revoking an invitation, also the last one of a party with no members.
  pub revoke_invitation-Inv : Inv (revoke_invitation events env id x p w)
  unfolding revoke_invitation remove_invite
  revoke_invitation-Inv =
      let q = without w id x p inv e in
      let w' = store_party id (some q) (uninvited w id x p inv e) in
      let kept = uninvited-Inv w id x p inv e in
      elim (Bool-cases (contains x p.invites)) [
        | inr never ↦ rw (revoke_invitation, remove_invite, never) inv
        | inl there ↦
            rw (revoke_invitation, remove_invite, there)
              (elim (Bool-cases (is_empty q)) [
                | inl last ↦ rw last (
                    disband-Inv events env id q w' kept
                      (stored_here id (some q) (uninvited w id x p inv e)))
                | inr more ↦ rw more kept
              ])
      ]

  abbrev passed : Party
  passed = record p { leader = x; members = p.leader ∷ erase_first x p.members }

  passed-in_party :
      p.leader == x ≡ false
      → contains x p.members ≡ true
      → (y : ℕ) → in_party y (some passed) ≡ in_party y (some p)
  passed-in_party other member y =
      ground (arith, contains-erase_first x y p.members (IsSound-here w id p inv e).1, ==_iff x y)

  pub passed-IsSound : p.leader == x ≡ false → IsSound (some passed)
  passed-IsSound other =
      let s = IsSound-here w id p inv e in
      (
        ground (arith, contains-erase_first x x p.members s.1),
        (
          ground (arith, contains-erase_first x p.leader p.members s.1),
          erase_first-Distinct x p.members s.1,
        ),
        s.2,
      )

  passed-Inv :
      p.leader == x ≡ false
      → contains x p.members ≡ true
      → Inv (store_party id (some (update_shared_experience env w passed)) w)
  passed-Inv other member =
      let q = update_shared_experience env w passed in
      let same = update_shared_experience-SamePeople env w passed in
      Inv-store id (some q) w
        (λ y j. ground (
          arith,
          in_party-SamePeople passed q same y,
          passed-in_party other member y,
          role_here w id p inv e y,
          inv.role y j,
        ))
        (λ y j. ground (
          arith,
          invited_in-SamePeople passed q same y,
          pending_here w id p inv e y,
          inv.pending y j,
        ))
        (IsSound-SamePeople passed q same (passed-IsSound other)) inv.sound

  unchanged-Inv : Inv (store_party id (some p) w)
  unchanged-Inv =
      Inv-store id (some p) w (λ y j. ground (arith, role_here w id p inv e y, inv.role y j))
        (λ y j. ground (arith, pending_here w id p inv e y, inv.pending y j))
        (IsSound-here w id p inv e) inv.sound

  pub pass_party_leadership-Inv :
      Inv (store_party id (some (pass_party_leadership events env id x p w).0) w)
  unfolding pass_party_leadership
  pass_party_leadership-Inv =
      elim (Bool-cases (p.leader == x || not (is_party (w.player x).party id))) [
        | inl refused ↦ rw refused unchanged-Inv
        | inr allowed ↦
            let other : (p.leader == x) ≡ false = ground arith in
            let member : contains x p.members ≡ true = ground (arith, role_here w id p inv e x) in
            rw allowed (passed-Inv other member)
      ]
