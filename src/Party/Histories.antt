-- ===== src/Party/Histories.antt =====
-- Histories of the party requests that src/game.cpp accepts from clients, from a world without
-- parties on.
use dark_global_12_x.Base.{
  ℕ, ◌≡◌, sym, ap, ◌∙◌, Bool, true, Option, none, [], contains, Bool-cases, inl, inr,
}
use dark_global_12_x.Party.World.{World, is_party}
use dark_global_12_x.Party.Shared.{Env}
use dark_global_12_x.Party.Ops.{Events}
use dark_global_12_x.Party.Game.{
  get_party, player_invite_to_party, player_join_party, player_revoke_party_invitation,
  player_pass_party_leadership, player_leave_party, player_enable_shared_party_experience,
}
use dark_global_12_x.Party.Invariant.{Inv, in_party, invited_in}
use dark_global_12_x.Party.Requests.{
  get_party-Leads, player_join_party-Inv, revoke_in-Inv, pass_in-Inv, leave_in-Inv, share_in-Inv,
}
use dark_global_12_x.Party.Invites.{player_invite_to_party-Inv}

module _ (events : Events) (env : Env) (w : World) (inv : Inv w) where
  player_revoke_party_invitation-Inv :
      (x y : ℕ) → Inv (player_revoke_party_invitation events env x y w)
  unfolding player_revoke_party_invitation
  player_revoke_party_invitation-Inv x y = elim (Bool-cases (w.online x)) [
    | inr off ↦ rw (player_revoke_party_invitation, off) inv
    | inl on ↦
        rw (player_revoke_party_invitation, on)
          (revoke_in-Inv events env w inv x y (get_party x w) (get_party-Leads w x))
  ]

  player_pass_party_leadership-Inv : (x y : ℕ) → Inv (player_pass_party_leadership events env x y w)
  unfolding player_pass_party_leadership
  player_pass_party_leadership-Inv x y = elim (Bool-cases (w.online x)) [
    | inr off ↦ rw (player_pass_party_leadership, off) inv
    | inl on ↦
        rw (player_pass_party_leadership, on)
          (pass_in-Inv events env w inv x y (get_party x w) (get_party-Leads w x))
  ]

  player_leave_party-Inv :
      ((v : World) (i : ℕ) → events.on_disband v i ≡ true)
      → (x : ℕ) → Inv (player_leave_party events env x w)
  unfolding player_leave_party
  player_leave_party-Inv agreed x = elim (Bool-cases (w.online x)) [
    | inr off ↦ rw (player_leave_party, off) inv
    | inl on ↦
        rw (player_leave_party, on)
          (leave_in-Inv events env w inv agreed x (get_party x w) (get_party-Leads w x))
  ]

  player_enable_shared_party_experience-Inv :
      (x : ℕ) (active in_zone : Bool)
      → Inv (player_enable_shared_party_experience events env x active in_zone w)
  unfolding player_enable_shared_party_experience
  player_enable_shared_party_experience-Inv x active in_zone = elim (Bool-cases (w.online x)) [
    | inr off ↦ rw (player_enable_shared_party_experience, off) inv
    | inl on ↦
        rw (player_enable_shared_party_experience, on)
          (share_in-Inv events env w inv x active in_zone (get_party x w) (get_party-Leads w x))
  ]

-- The worlds that requests lead to; a party that an invitation founds gets an unused address.
pub data Reach (events : Events) (env : Env) : World → Type 0 where
  starts :
      (w : World)
      → ((x : ℕ) → (w.player x).party ≡ none)
      → ((x : ℕ) → (w.player x).invitations ≡ [])
      → ((id : ℕ) → w.party id ≡ none)
      → Reach events env w
  invites :
      (w : World) (fresh x y : ℕ)
      → Reach events env w
      → w.party fresh ≡ none
      → Reach events env (player_invite_to_party events env fresh x y w)
  joins :
      (w : World) (x y : ℕ)
      → Reach events env w
      → Reach events env (player_join_party events env x y w)
  revokes :
      (w : World) (x y : ℕ)
      → Reach events env w
      → Reach events env (player_revoke_party_invitation events env x y w)
  passes :
      (w : World) (x y : ℕ)
      → Reach events env w
      → Reach events env (player_pass_party_leadership events env x y w)
  leaves :
      (w : World) (x : ℕ)
      → Reach events env w
      → Reach events env (player_leave_party events env x w)
  shares :
      (w : World) (x : ℕ) (active in_zone : Bool)
      → Reach events env w
      → Reach events env (player_enable_shared_party_experience events env x active in_zone w)

abbrev no_roles :
    (w : World)
    → ((x : ℕ) → (w.player x).party ≡ none)
    → ((x : ℕ) → (w.player x).invitations ≡ [])
    → ((id : ℕ) → w.party id ≡ none)
    → Inv w
no_roles w alone unasked empty = record {
  role = λ x id. ap (λ (o : Option ℕ). is_party o id) (alone x) ∙ sym (ap (in_party x) (empty id));
  pending = λ x id. ap (contains id) (unasked x) ∙ sym (ap (invited_in x) (empty id));
  sound = λ id. rw (empty id) tt;
}

-- Whatever invitations, joins, revocations, passes of the leadership, departures and switches of
-- shared experience clients request, in any order, starting where nobody is in a party: every
-- player points to exactly the party that lists it as leader or member and holds exactly the
-- invitations of the parties that list it as invited, and no party lists anybody twice or its
-- leader among its members. Condition: the event onDisband never refuses, and a new party gets an
-- address that no party has.
pub Reach-Inv :
    (events : Events) (env : Env) (w : World)
    → ((v : World) (i : ℕ) → events.on_disband v i ≡ true)
    → Reach events env w
    → Inv w
Reach-Inv events env _ agreed (starts v alone unasked empty) = no_roles v alone unasked empty
Reach-Inv events env _ agreed (invites v fresh x y r unused) =
    player_invite_to_party-Inv events env v (Reach-Inv events env v agreed r) fresh x y unused
Reach-Inv events env _ agreed (joins v x y r) =
    player_join_party-Inv events env v (Reach-Inv events env v agreed r) x y
Reach-Inv events env _ agreed (revokes v x y r) =
    player_revoke_party_invitation-Inv events env v (Reach-Inv events env v agreed r) x y
Reach-Inv events env _ agreed (passes v x y r) =
    player_pass_party_leadership-Inv events env v (Reach-Inv events env v agreed r) x y
Reach-Inv events env _ agreed (leaves v x r) =
    player_leave_party-Inv events env v (Reach-Inv events env v agreed r) agreed x
Reach-Inv events env _ agreed (shares v x active in_zone r) =
    player_enable_shared_party_experience-Inv events env v (Reach-Inv events env v agreed r) x
      active in_zone
