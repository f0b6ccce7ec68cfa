-- ===== src/Party/Keep/Leave.antt =====
-- Party::leaveParty of src/party.cpp, whoever leaves.
use dark_global_12_x.Base.{
  ℕ, ◌≡◌, refl, ap, ◌∙◌, Bool, true, false, some, List, [], ◌∷◌, arith, ◌==◌, if◌then◌else◌,
  erase_first, ==_iff, Bool-cases, inl, inr,
}
use dark_global_12_x.Party.World.{Party, World, is_party, is_nil, store_party}
use dark_global_12_x.Party.Shared.{Env, update_shared_experience}
use dark_global_12_x.Party.Ops.{
  Events, disband, leave_party, missing_leader, hand_on, take_out, pass_party_leadership,
  new_leader,
}
use dark_global_12_x.Party.Invariant.{Inv, IsSound}
use dark_global_12_x.Party.Keep.Facts.{
  role_here, IsSound-here, update_shared_experience-SamePeople, in_party-SamePeople,
  invited_in-SamePeople, IsSound-SamePeople,
}
use dark_global_12_x.Party.Keep.Disband.{disband-Nearly, disband-Inv}
use dark_global_12_x.Party.Keep.Shrink.{stored_here}
use dark_global_12_x.Party.Keep.Depart.{
  gone, minus, take_out-SamePeople, gone-Inv, member-people, member-IsSound, heir-people,
  last-Nearly,
}

module _ (events : Events) (env : Env) (w : World) (id x : ℕ) (p : Party) (inv : Inv w)
    (e : w.party id ≡ some p) where
  -- What is left of the leave, once agreement holds of the new world.
  finish :
      (q : Party) (b : Bool)
      → Inv (store_party id (some q) (gone x w))
      → Inv (
          if b
          then disband events env id q (store_party id (some q) (gone x w))
          else store_party id (some q) (gone x w))
  finish q true kept = disband-Inv events env id q _ kept (stored_here id (some q) (gone x w))
  finish q false kept = kept

  abbrev Mine : Type 0
  Mine = is_party (w.player x).party id ≡ true

  leave-member :
      Mine
      → p.leader == x ≡ false
      → Inv (store_party id (some (take_out events env x p (gone x w))) (gone x w))
  leave-member own other =
      let q = take_out events env x p (gone x w) in
      let same = take_out-SamePeople events env x p (gone x w) in
      gone-Inv events env w id x p inv e q own
        (λ y.
          in_party-SamePeople (minus x p) q same y
          ∙ member-people events env w id x p inv e other y)
        (λ y. invited_in-SamePeople (minus x p) q same y)
        (IsSound-SamePeople (minus x p) q same (member-IsSound events env w id x p inv e other))

  pass_allowed :
      (m : ℕ)
      → p.leader == m ≡ false
      → is_party (w.player m).party id ≡ true
      → (pass_party_leadership events env id m p w).0
        ≡ update_shared_experience env w
            (record p { leader = m; members = p.leader ∷ erase_first m p.members })
  unfolding pass_party_leadership
  pass_allowed m other joined = rw (pass_party_leadership, other, joined)

  leave-leader :
      (m : ℕ) (ms : List ℕ)
      → Mine
      → p.members ≡ m ∷ ms
      → p.leader == x ≡ true
      → Inv (
          store_party id
            (some (take_out events env x (new_leader events env id (m ∷ ms) p w) (gone x w)))
            (gone x w))
  leave-leader m ms own list lead =
      let s : IsSound (some (record p { members = m ∷ ms })) =
        rw list at (IsSound-here w id p inv e) in
      let joined : is_party (w.player m).party id ≡ true =
        role_here w id p inv e m ∙ rw list (ground (arith, ==_iff m m)) in
      let other : (p.leader == m) ≡ false = ground (arith, s.0) in
      let h = new_leader events env id (m ∷ ms) p w in
      let r : Party = record p { leader = m; members = p.leader ∷ erase_first m p.members } in
      let passed : h ≡ update_shared_experience env w r = pass_allowed m other joined in
      let heir =
        heir-people events env w id x p inv e m ms list lead h
          (rw passed (update_shared_experience-SamePeople env w r)) in
      let q = take_out events env x h (gone x w) in
      let same = take_out-SamePeople events env x h (gone x w) in
      gone-Inv events env w id x p inv e q own
        (λ y. in_party-SamePeople (minus x h) q same y ∙ heir.0 y)
        (λ y. invited_in-SamePeople (minus x h) q same y ∙ heir.2 y)
        (IsSound-SamePeople (minus x h) q same heir.1)

  hand_on-member : p.leader == x ≡ false → hand_on events env id x p w ≡ p
  unfolding hand_on
  hand_on-member other = rw other

  hand_on-missing : missing_leader events env x p ≡ true → hand_on events env id x p w ≡ p
  unfolding hand_on
  hand_on-missing missing = ground arith

  missing-nil : p.leader == x ≡ true → p.members ≡ [] → missing_leader events env x p ≡ true
  unfolding missing_leader
  missing-nil lead list = ground (arith, ap (λ (l : List ℕ). is_nil l) list)

  missing-leader : missing_leader events env x p ≡ true → p.leader == x ≡ true
  unfolding missing_leader
  missing-leader h = ground arith

  hand_on-leader :
      (m : ℕ) (ms : List ℕ)
      → p.members ≡ m ∷ ms
      → p.leader == x ≡ true
      → missing_leader events env x p ≡ false
      → hand_on events env id x p w ≡ new_leader events env id (m ∷ ms) p w
  unfolding hand_on
  hand_on-leader m ms list lead there =
      rw (lead, there) (ap (λ (l : List ℕ). new_leader events env id l p w) list)

  hand_on-Inv :
      (ms : List ℕ)
      → Mine
      → p.members ≡ ms
      → missing_leader events env x p ≡ false
      → Inv (
          store_party id
            (some (take_out events env x (hand_on events env id x p w) (gone x w)))
            (gone x w))
  hand_on-Inv [] own list there = elim (Bool-cases (p.leader == x)) [
    | inr other ↦ rw (hand_on-member other) (leave-member own other)
    | inl lead ↦ absurd (ground (arith, missing-nil lead list))
  ]
  hand_on-Inv (m ∷ ms) own list there = elim (Bool-cases (p.leader == x)) [
    | inr other ↦ rw (hand_on-member other) (leave-member own other)
    | inl lead ↦ rw (hand_on-leader m ms list lead there) (leave-leader m ms own list lead)
  ]

  last_leaves :
      missing_leader events env x p ≡ true
      → ((v : World) (i : ℕ) → events.on_disband v i ≡ true)
      → let q = take_out events env x p (gone x w) in
        Inv (disband events env id q (store_party id (some q) (gone x w)))
  last_leaves missing agreed =
      let q = take_out events env x p (gone x w) in
      disband-Nearly events env id q _ (agreed _ id) (
        last-Nearly events env w id x p inv e q (missing-leader missing)
          (take_out-SamePeople events env x p (gone x w)))

  -- Where players and parties agree and a player leaves the party that it points to, as leader or
  -- member, they agree afterwards, whoever takes over. Condition: no script vetoes a disband.
  pub leave_party-Inv :
      is_party (w.player x).party id ≡ true
      → ((v : World) (i : ℕ) → events.on_disband v i ≡ true)
      → Inv (leave_party events env id x p w).0
  unfolding leave_party
  leave_party-Inv own agreed = elim (Bool-cases (events.on_leave w id x)) [
    | inr vetoed ↦ rw (leave_party, own, vetoed) inv
    | inl allowed ↦ elim (Bool-cases (missing_leader events env x p)) [
      | inl missing ↦
          rw (leave_party, own, allowed, missing, hand_on-missing missing)
            (last_leaves missing agreed)
      | inr there ↦
          rw (leave_party, own, allowed, there)
            (finish (take_out events env x (hand_on events env id x p w) (gone x w)) _
              (hand_on-Inv p.members own refl there))
    ]
  ]
