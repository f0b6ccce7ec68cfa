-- ===== src/Party/World.antt =====
-- The state that src/party.cpp works on: players, parties, and the moves of single pointers.
use dark_global_12_x.Base.{
  ℕ, Bool, true, false, Option, none, some, List, [], ◌∷◌, ◌==◌, if◌then◌else◌, contains, erase_all,
}
use dark_global_12_x.Position.{Position}

-- What a party reads and writes of a Player: party, invitePartyList, level, position and
-- PlayerFlag_NotGainInFight, and for the calls of src/game.cpp whether it is in a fight.
pub record Player : Type 0 where
  pub party : Option ℕ
  pub invitations : List ℕ
  pub level : ℕ
  pub position : Position
  pub not_gain_in_fight : Bool
  pub in_fight : Bool

pub record Party : Type 0 where
  pub leader : ℕ
  pub members : List ℕ
  pub invites : List ℕ
  pub ticks : List (ℕ × ℕ)
  pub shared_active : Bool
  pub shared_enabled : Bool

pub record World : Type 0 where
  pub player : ℕ → Player
  pub online : ℕ → Bool
  pub party : ℕ → Option Party

abbrev pub is_party : Option ℕ → ℕ → Bool
is_party none id = false
is_party (some k) id = k == id

-- memberList.empty() && inviteList.empty()
abbrev pub is_nil {ℓ} : {A : Type ℓ} → List A → Bool
is_nil [] = true
is_nil (x ∷ xs) = false

-- A pointer's target, replaced.
abbrev pub change {ℓ} : {A : Type ℓ} → ℕ → A → (ℕ → A) → ℕ → A
change k a f j = if k == j then a else f j

-- Player::setParty
unfoldable pub set_party : ℕ → Option ℕ → World → World
set_party x v w = record w { player = change x (record (w.player x) { party = v }) w.player }

-- Player::addPartyInvitation
unfoldable pub add_party_invitation : ℕ → ℕ → World → World
add_party_invitation id x w = if contains id (w.player x).invitations then w else record w {
  player = change x (record (w.player x) { invitations = id ∷ (w.player x).invitations }) w.player;
}

-- Player::removePartyInvitation
unfoldable pub remove_party_invitation : ℕ → ℕ → World → World
remove_party_invitation id x w = record w {
  player =
      change x (record (w.player x) { invitations = erase_all id (w.player x).invitations })
        w.player;
}

-- The party object at an address.
unfoldable pub store_party : ℕ → Option Party → World → World
store_party id p w = record w { party = change id p w.party }

-- for (Player* invitee : inviteList) invitee->removePartyInvitation(this);
unfoldable pub withdraw_all : ℕ → List ℕ → World → World
withdraw_all id [] w = w
withdraw_all id (x ∷ xs) w = withdraw_all id xs (remove_party_invitation id x w)

-- for (Player* member : memberList) member->setParty(nullptr);
unfoldable pub release_all : List ℕ → World → World
release_all [] w = w
release_all (x ∷ xs) w = release_all xs (set_party x none w)
