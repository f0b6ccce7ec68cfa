-- ===== src/Party/Requests.antt =====
-- The requests of src/game.cpp to join, revoke, pass on, leave and share.
use dark_global_12_x.Base.{
  ℕ, ◌≡◌, refl, ap, ◌∙◌, Bool, true, false, not, ◌&&◌, ◌||◌, Option, none, some, arith, ◌==◌,
  ==_self, Bool-cases, inl, inr,
}
use dark_global_12_x.Party.World.{Party, World, is_party, store_party}
use dark_global_12_x.Party.Shared.{Env, set_shared_experience}
use dark_global_12_x.Party.Ops.{Events}
use dark_global_12_x.Party.Game.{
  get_party, at_pointer, tagged, player_join_party, has_party, is_inviting, is_partner, join_into,
  revoke_in, pass_in, leave_in, share_in,
}
use dark_global_12_x.Party.Invariant.{Inv}
use dark_global_12_x.Party.Keep.Facts.{
  Inv-store, SamePeople, role_here, pending_here, IsSound-here, in_party-SamePeople,
  invited_in-SamePeople, IsSound-SamePeople,
}
use dark_global_12_x.Party.Keep.Grow.{join_party-Inv}
use dark_global_12_x.Party.Keep.Shrink.{revoke_invitation-Inv, pass_party_leadership-Inv}
use dark_global_12_x.Party.Keep.Leave.{leave_party-Inv}

-- What a player's pointer leads to.
abbrev pub Leads : World → ℕ → Option (ℕ × Party) → Type 0
Leads w x none = Unit {0}
Leads w x (some (id, p)) = ((w.player x).party ≡ some id) × (w.party id ≡ some p)

tagged-Leads :
    (w : World) (x id : ℕ) (o : Option Party)
    → (w.player x).party ≡ some id
    → w.party id ≡ o
    → Leads w x (tagged id o)
tagged-Leads w x id none h e = tt
tagged-Leads w x id (some p) h e = (h, e)

at_pointer-Leads :
    (w : World) (x : ℕ) (o : Option ℕ) → (w.player x).party ≡ o → Leads w x (at_pointer o w)
at_pointer-Leads w x none h = tt
at_pointer-Leads w x (some id) h = tagged-Leads w x id (w.party id) h refl

pub get_party-Leads : (w : World) (x : ℕ) → Leads w x (get_party x w)
unfolding get_party
get_party-Leads w x = at_pointer-Leads w x (w.player x).party refl

pub no_party : (o : Option ℕ) → has_party o ≡ false → o ≡ none
no_party none h = refl
no_party (some id) h = absurd (ground arith)

module _ (events : Events) (env : Env) (w : World) (inv : Inv w) where
  pub join_into-Inv :
      (x y : ℕ) (o : Option (ℕ × Party)) → Leads w y o → Inv (join_into events env x y o w)
  join_into-Inv x y none l = inv
  join_into-Inv x y (some (id, p)) l = elim (Bool-cases (p.leader == y)) [
    | inr other ↦ rw other inv
    | inl lead ↦ elim (Bool-cases (has_party (w.player x).party)) [
      | inl busy ↦ rw (lead, busy) inv
      | inr free ↦
          rw (lead, free)
            (join_party-Inv events env w id x p inv l.1 (no_party (w.player x).party free))
    ]
  ]

  pub player_join_party-Inv : (x y : ℕ) → Inv (player_join_party events env x y w)
  unfolding player_join_party
  player_join_party-Inv x y = elim (Bool-cases (w.online x)) [
    | inr off ↦ rw (player_join_party, off) inv
    | inl on ↦ elim (Bool-cases (not (w.online y) || not (is_inviting y x w))) [
      | inl refused ↦ rw (player_join_party, on, refused) inv
      | inr allowed ↦
          rw (player_join_party, on, allowed)
            (join_into-Inv x y (get_party y w) (get_party-Leads w y))
    ]
  ]

  pub revoke_in-Inv :
      (x y : ℕ) (o : Option (ℕ × Party)) → Leads w x o → Inv (revoke_in events env x y o w)
  revoke_in-Inv x y none l = inv
  revoke_in-Inv x y (some (id, p)) l = elim (Bool-cases (p.leader == x)) [
    | inr other ↦ rw other inv
    | inl lead ↦ elim (Bool-cases (not (w.online y) || not (is_inviting x y w))) [
      | inl refused ↦ rw (lead, refused) inv
      | inr allowed ↦ rw (lead, allowed) (revoke_invitation-Inv events env w id y p inv l.1)
    ]
  ]

  pub pass_in-Inv :
      (x y : ℕ) (o : Option (ℕ × Party)) → Leads w x o → Inv (pass_in events env x y o w)
  pass_in-Inv x y none l = inv
  pass_in-Inv x y (some (id, p)) l = elim (Bool-cases (p.leader == x)) [
    | inr other ↦ rw other inv
    | inl lead ↦ elim (Bool-cases (not (w.online y) || not (is_partner x y w))) [
      | inl refused ↦ rw (lead, refused) inv
      | inr allowed ↦ rw (lead, allowed) (pass_party_leadership-Inv events env w id y p inv l.1)
    ]
  ]

  pub leave_in-Inv :
      ((v : World) (i : ℕ) → events.on_disband v i ≡ true)
      → (x : ℕ) (o : Option (ℕ × Party)) → Leads w x o
      → Inv (leave_in events env x o w)
  leave_in-Inv agreed x none l = inv
  leave_in-Inv agreed x (some (id, p)) l = elim (Bool-cases (w.player x).in_fight) [
    | inl fighting ↦ rw fighting inv
    | inr calm ↦
        let own : is_party (w.player x).party id ≡ true =
          ap (λ (o : Option ℕ). is_party o id) l.0 ∙ ==_self id in
        rw calm (leave_party-Inv events env w id x p inv l.1 own agreed)
  ]

  set_shared_experience-SamePeople :
      (x : ℕ) (active : Bool) (p : Party) → SamePeople p (set_shared_experience env w x active p).0
  unfolding set_shared_experience
  set_shared_experience-SamePeople x active p = ground arith

  pub share_in-Inv :
      (x : ℕ) (active in_zone : Bool) (o : Option (ℕ × Party))
      → Leads w x o
      → Inv (share_in events env x active in_zone o w)
  share_in-Inv x active in_zone none l = inv
  share_in-Inv x active in_zone (some (id, p)) l =
      elim (Bool-cases ((w.player x).in_fight && not in_zone)) [
        | inl refused ↦ rw refused inv
        | inr allowed ↦ rw allowed (
            shared-Inv id p (set_shared_experience env w x active p).0 l.1
              (set_shared_experience-SamePeople x active p))
      ]
    where
      shared-Inv :
          (id : ℕ) (p q : Party)
          → w.party id ≡ some p
          → SamePeople p q
          → Inv (store_party id (some q) w)
      shared-Inv id p q e same =
          Inv-store id (some q) w
            (λ y j.
              ground
                (arith, in_party-SamePeople p q same y, role_here w id p inv e y, inv.role y j))
            (λ y j. ground (
              arith,
              invited_in-SamePeople p q same y,
              pending_here w id p inv e y,
              inv.pending y j,
            ))
            (IsSound-SamePeople p q same (IsSound-here w id p inv e)) inv.sound
