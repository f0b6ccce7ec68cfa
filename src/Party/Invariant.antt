-- ===== src/Party/Invariant.antt =====
-- What agreement of players and parties of src/party.cpp is, and the moves of single pointers.
use dark_global_12_x.Base.{
  ℕ, ◌≡◌, refl, ◌∙◌, Bool, true, false, ◌&&◌, ◌||◌, Option, none, some, List, [], ◌∷◌, arith, ◌==◌,
  if◌then◌else◌, contains, contains-erase_all, Distinct,
}
use dark_global_12_x.Party.World.{
  Party, World, is_party, set_party, add_party_invitation, remove_party_invitation, withdraw_all,
  release_all,
}

abbrev pub in_party : ℕ → Option Party → Bool
in_party x none = false
in_party x (some p) = p.leader == x || contains x p.members

abbrev pub invited_in : ℕ → Option Party → Bool
invited_in x none = false
invited_in x (some p) = contains x p.invites

-- A party lists nobody twice, and its leader is none of its members.
abbrev pub IsSound : Option Party → Type 0
IsSound none = Unit {0}
IsSound (some p) = (contains p.leader p.members ≡ false) × Distinct p.members × Distinct p.invites

-- A player points to exactly the party that lists it as leader or member, and holds exactly the
-- invitations of the parties that list it as invited.
pub record Inv (w : World) : Type 0 where
  pub role : (x id : ℕ) → is_party (w.player x).party id ≡ in_party x (w.party id)
  pub pending : (x id : ℕ) → contains id (w.player x).invitations ≡ invited_in x (w.party id)
  pub sound : (id : ℕ) → IsSound (w.party id)

-- A player is in one party at most.
pub one_party : (o : Option ℕ) (id j : ℕ) → is_party o id ≡ true → is_party o j ≡ (id == j)
one_party none id j h = ground arith
one_party (some k) id j h = ground arith

module _ (x : ℕ) (v : Option ℕ) (w : World) where
  pub party-set_party :
      (y j : ℕ)
      → is_party ((set_party x v w).player y).party j
        ≡ (if x == y then is_party v j else is_party (w.player y).party j)
  unfolding set_party
  party-set_party y j = ground arith

  pub invitations-set_party :
      (y j : ℕ)
      → contains j ((set_party x v w).player y).invitations ≡ contains j (w.player y).invitations
  unfolding set_party
  invitations-set_party y j = ground arith

module _ (id x : ℕ) (w : World) where
  pub party-remove_party_invitation :
      (y j : ℕ)
      → is_party ((remove_party_invitation id x w).player y).party j ≡ is_party (w.player y).party j
  unfolding remove_party_invitation
  party-remove_party_invitation y j = ground arith

  pub invitations-remove_party_invitation :
      (y j : ℕ)
      → contains j ((remove_party_invitation id x w).player y).invitations
        ≡ (if x == y && id == j then false else contains j (w.player y).invitations)
  unfolding remove_party_invitation
  invitations-remove_party_invitation y j =
      ground (arith, contains-erase_all id j (w.player x).invitations)

  pub party-add_party_invitation :
      (y j : ℕ)
      → is_party ((add_party_invitation id x w).player y).party j ≡ is_party (w.player y).party j
  unfolding add_party_invitation
  party-add_party_invitation y j = ground arith

  pub invitations-add_party_invitation :
      (y j : ℕ)
      → contains j ((add_party_invitation id x w).player y).invitations
        ≡ (x == y && id == j || contains j (w.player y).invitations)
  unfolding add_party_invitation
  invitations-add_party_invitation y j = ground arith

pub party-withdraw_all :
    (id : ℕ) (xs : List ℕ) (w : World) (y j : ℕ)
    → is_party ((withdraw_all id xs w).player y).party j ≡ is_party (w.player y).party j
unfolding withdraw_all
party-withdraw_all id [] w y j = refl
party-withdraw_all id (x ∷ xs) w y j =
    party-withdraw_all id xs (remove_party_invitation id x w) y j
    ∙ party-remove_party_invitation id x w y j

pub invitations-withdraw_all :
    (id : ℕ) (xs : List ℕ) (w : World) (y j : ℕ)
    → contains j ((withdraw_all id xs w).player y).invitations
      ≡ (if contains y xs && id == j then false else contains j (w.player y).invitations)
unfolding withdraw_all
invitations-withdraw_all id [] w y j = refl
invitations-withdraw_all id (x ∷ xs) w y j = ground (
  arith,
  invitations-withdraw_all id xs (remove_party_invitation id x w) y j,
  invitations-remove_party_invitation id x w y j,
)

pub party-release_all :
    (xs : List ℕ) (w : World) (y j : ℕ)
    → is_party ((release_all xs w).player y).party j
      ≡ (if contains y xs then false else is_party (w.player y).party j)
unfolding release_all
party-release_all [] w y j = refl
party-release_all (x ∷ xs) w y j =
    ground (arith, party-release_all xs (set_party x none w) y j, party-set_party x none w y j)

pub invitations-release_all :
    (xs : List ℕ) (w : World) (y j : ℕ)
    → contains j ((release_all xs w).player y).invitations ≡ contains j (w.player y).invitations
unfolding release_all
invitations-release_all [] w y j = refl
invitations-release_all (x ∷ xs) w y j =
    invitations-release_all xs (set_party x none w) y j ∙ invitations-set_party x none w y j

-- Moves of players leave the party objects alone.
pub parties-withdraw_all :
    (id : ℕ) (xs : List ℕ) (w : World) → (withdraw_all id xs w).party ≡ w.party
unfolding withdraw_all remove_party_invitation
parties-withdraw_all id [] w = refl
parties-withdraw_all id (x ∷ xs) w = parties-withdraw_all id xs (remove_party_invitation id x w)

pub parties-release_all : (xs : List ℕ) (w : World) → (release_all xs w).party ≡ w.party
unfolding release_all set_party
parties-release_all [] w = refl
parties-release_all (x ∷ xs) w = parties-release_all xs (set_party x none w)
