-- ===== src/Party/Ops.antt =====
-- The operations of src/party.cpp that change who is in a party.
use dark_global_12_x.Base.{
  ℕ, Bool, true, false, not, ◌&&◌, ◌||◌, none, some, List, [], ◌∷◌, ◌++◌, ◌==◌, if◌then◌else◌,
  contains, erase_first, length,
}
use dark_global_12_x.Party.World.{
  Party, World, is_party, is_nil, set_party, add_party_invitation, remove_party_invitation,
  store_party, withdraw_all, release_all,
}
use dark_global_12_x.Party.Shared.{Env, update_shared_experience, clear_player_points}

-- The answers of the Lua events onDisband, onLeave and onJoin.
pub record Events : Type 0 where
  pub on_disband : World → ℕ → Bool
  pub on_leave : World → ℕ → ℕ → Bool
  pub on_join : World → ℕ → ℕ → Bool

-- Party::Party, at a new address
unfoldable pub create : ℕ → ℕ → World → World
create id leader w = set_party leader (some id) (
    store_party id
      (some (record {
        leader = leader;
        members = [];
        invites = [];
        ticks = [];
        shared_active = false;
        shared_enabled = false;
      }))
      w)

-- memberList.empty() && inviteList.empty()
abbrev pub is_empty : Party → Bool
is_empty p = is_nil p.members && is_nil p.invites

abbrev pub is_player_invited : ℕ → Party → Bool
is_player_invited x p = contains x p.invites

module _ (events : Events) (env : Env) where
  -- Party::disband, up to `delete this`
  unfoldable pub disband : ℕ → Party → World → World
  disband id p w =
      if not (events.on_disband w id)
      then w
      else store_party id none
          (release_all p.members (withdraw_all id p.invites (set_party p.leader none w)))

  -- Party::passPartyLeadership
  unfoldable pub pass_party_leadership : ℕ → ℕ → Party → World → Party × Bool
  pass_party_leadership id x p w =
      if p.leader == x || not (is_party (w.player x).party id) then (p, false) else (
        update_shared_experience env w
            (record p { leader = x; members = p.leader ∷ erase_first x p.members }),
        true,
      )

  -- The first part of leaveParty: is there nobody to lead the party after this one?
  unfoldable pub missing_leader : ℕ → Party → Bool
  missing_leader x p =
      p.leader == x && (is_nil p.members || length p.members == 1 && is_nil p.invites)

  abbrev pub new_leader : ℕ → List ℕ → Party → World → Party
  new_leader id [] p w = p
  new_leader id (m ∷ ms) p w = (pass_party_leadership id m p w).0

  unfoldable pub hand_on : ℕ → ℕ → Party → World → Party
  hand_on id x p w =
      if p.leader == x && not (missing_leader x p) then new_leader id p.members p w else p

  -- The party without the player, in the world where the player has none.
  unfoldable pub take_out : ℕ → Party → World → Party
  take_out x p w =
      clear_player_points env w x
        (update_shared_experience env w (record p { members = erase_first x p.members }))

  -- Party::leaveParty
  unfoldable pub leave_party : ℕ → ℕ → Party → World → World × Bool
  leave_party id x p w =
      if not (is_party (w.player x).party id) && not (p.leader == x)
      then (w, false)
      else if not (events.on_leave w id x)
      then (w, false)
      else let w1 = set_party x none w in
        let p1 = take_out x (hand_on id x p w) w1 in
        let w2 = store_party id (some p1) w1 in
        (if missing_leader x p || is_empty p1 then disband id p1 w2 else w2, true)

  -- Party::joinParty
  unfoldable pub join_party : ℕ → ℕ → Party → World → World × Bool
  join_party id x p w =
      if not (events.on_join w id x)
      then (w, false)
      else if not (contains x p.invites)
      then (w, false)
      else let w1 = remove_party_invitation id x (set_party x (some id) w) in
        let p1 = record p { invites = erase_first x p.invites; members = p.members ++ x ∷ [] } in
        (store_party id (some (update_shared_experience env w1 p1)) w1, true)

  -- Party::removeInvite
  unfoldable pub remove_invite : ℕ → ℕ → Bool → Party → World → World × Bool
  remove_invite id x remove_from_player p w =
      if not (contains x p.invites)
      then (w, false)
      else let p1 = record p { invites = erase_first x p.invites } in
        let w1 = if remove_from_player then remove_party_invitation id x w else w in
        let w2 = store_party id (some p1) w1 in (if is_empty p1 then disband id p1 w2 else w2, true)

  -- Party::revokeInvitation
  unfoldable pub revoke_invitation : ℕ → ℕ → Party → World → World
  revoke_invitation id x p w = (remove_invite id x true p w).0

  -- Party::invitePlayer
  unfoldable pub invite_player : ℕ → ℕ → Party → World → World × Bool
  invite_player id x p w = if is_player_invited x p then (w, false) else (
    add_party_invitation id x
        (store_party id (some (record p { invites = p.invites ++ x ∷ [] })) w),
    true,
  )
