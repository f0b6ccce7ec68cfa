-- ===== src/Party/Game.antt =====
-- The requests of clients that src/game.cpp passes on to a party, with their guards, and what
-- src/player.cpp does about parties at a logout.
use dark_global_12_x.Base.{
  ℕ, Bool, true, false, not, ◌&&◌, ◌||◌, Option, none, some, List, [], ◌∷◌, ◌==◌, if◌then◌else◌,
}
use dark_global_12_x.Party.World.{Party, World, is_party, store_party}
use dark_global_12_x.Party.Shared.{Env, set_shared_experience}
use dark_global_12_x.Party.Ops.{
  Events, create, is_player_invited, pass_party_leadership, leave_party, join_party, remove_invite,
  revoke_invitation, invite_player,
}

abbrev pub tagged : ℕ → Option Party → Option (ℕ × Party)
tagged id none = none
tagged id (some p) = some (id, p)

-- player->getParty(), with the object that it points to.
abbrev pub at_pointer : Option ℕ → World → Option (ℕ × Party)
at_pointer none w = none
at_pointer (some id) w = tagged id (w.party id)

unfoldable pub get_party : ℕ → World → Option (ℕ × Party)
get_party x w = at_pointer (w.player x).party w

abbrev pub invites_to : ℕ → ℕ → Option (ℕ × Party) → Bool
invites_to x y none = false
invites_to x y (some (id, p)) = if not (p.leader == x) then false else is_player_invited y p

-- Player::isInviting
unfoldable pub is_inviting : ℕ → ℕ → World → Bool
is_inviting x y w = invites_to x y (get_party x w)

abbrev pub same_party : Option ℕ → Option ℕ → Bool
same_party none q = false
same_party (some id) q = is_party q id

-- Player::isPartner
unfoldable pub is_partner : ℕ → ℕ → World → Bool
is_partner x y w = if x == y then false else same_party (w.player x).party (w.player y).party

abbrev pub has_party : Option ℕ → Bool
has_party none = false
has_party (some id) = true

module _ (events : Events) (env : Env) where
  -- The end of Game::playerInviteToParty: `fresh` is the address of a new party.
  abbrev pub invite_into : ℕ → ℕ → ℕ → Option (ℕ × Party) → World → World
  invite_into fresh x y none w =
      let w' = create fresh x w in
      let p : Party = record {
        leader = x;
        members = [];
        invites = [];
        ticks = [];
        shared_active = false;
        shared_enabled = false;
      } in
      (invite_player events env fresh y p w').0
  invite_into fresh x y (some (id, p)) w =
      if not (p.leader == x) then w else (invite_player events env id y p w).0

  unfoldable pub player_invite_to_party : ℕ → ℕ → ℕ → World → World
  player_invite_to_party fresh x y w =
      if x == y
      then w
      else if not (w.online x)
      then w
      else if not (w.online y) || is_inviting y x w
      then w
      else if has_party (w.player y).party
      then w
      else invite_into fresh x y (get_party x w) w

  abbrev pub join_into : ℕ → ℕ → Option (ℕ × Party) → World → World
  join_into x y none w = w
  join_into x y (some (id, p)) w =
      if not (p.leader == y)
      then w
      else if has_party (w.player x).party
      then w
      else (join_party events env id x p w).0

  unfoldable pub player_join_party : ℕ → ℕ → World → World
  player_join_party x y w =
      if not (w.online x)
      then w
      else if not (w.online y) || not (is_inviting y x w)
      then w
      else join_into x y (get_party y w) w

  abbrev pub revoke_in : ℕ → ℕ → Option (ℕ × Party) → World → World
  revoke_in x y none w = w
  revoke_in x y (some (id, p)) w =
      if not (p.leader == x)
      then w
      else if not (w.online y) || not (is_inviting x y w)
      then w
      else revoke_invitation events env id y p w

  unfoldable pub player_revoke_party_invitation : ℕ → ℕ → World → World
  player_revoke_party_invitation x y w =
      if not (w.online x) then w else revoke_in x y (get_party x w) w

  abbrev pub pass_in : ℕ → ℕ → Option (ℕ × Party) → World → World
  pass_in x y none w = w
  pass_in x y (some (id, p)) w =
      if not (p.leader == x)
      then w
      else if not (w.online y) || not (is_partner x y w)
      then w
      else store_party id (some (pass_party_leadership events env id y p w).0) w

  unfoldable pub player_pass_party_leadership : ℕ → ℕ → World → World
  player_pass_party_leadership x y w = if not (w.online x) then w else pass_in x y (get_party x w) w

  abbrev pub leave_in : ℕ → Option (ℕ × Party) → World → World
  leave_in x none w = w
  leave_in x (some (id, p)) w =
      if (w.player x).in_fight then w else (leave_party events env id x p w).0

  unfoldable pub player_leave_party : ℕ → World → World
  player_leave_party x w = if not (w.online x) then w else leave_in x (get_party x w) w

  -- `in_zone` is false where the player stands on a tile that is no protection zone.
  abbrev pub share_in : ℕ → Bool → Bool → Option (ℕ × Party) → World → World
  share_in x active in_zone none w = w
  share_in x active in_zone (some (id, p)) w =
      if (w.player x).in_fight && not in_zone
      then w
      else store_party id (some (set_shared_experience env w x active p).0) w

  unfoldable pub player_enable_shared_party_experience : ℕ → Bool → Bool → World → World
  player_enable_shared_party_experience x active in_zone w =
      if not (w.online x) then w else share_in x active in_zone (get_party x w) w

  -- Player::clearPartyInvitations: the loop, then the clear.
  abbrev pub drop_invite : ℕ → ℕ → Option Party → World → World
  drop_invite id x none w = w
  drop_invite id x (some p) w = (remove_invite events env id x false p w).0

  unfoldable pub drop_invites : ℕ → List ℕ → World → World
  drop_invites x [] w = w
  drop_invites x (id ∷ ids) w = drop_invites x ids (drop_invite id x (w.party id) w)

  abbrev pub forget_invitations : ℕ → World → World
  forget_invitations x w = record w {
    player = λ y. if x == y then record (w.player x) { invitations = [] } else w.player y;
  }

  unfoldable pub clear_party_invitations : ℕ → World → World
  clear_party_invitations x w = forget_invitations x (drop_invites x (w.player x).invitations w)
