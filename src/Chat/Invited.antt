-- ===== src/Chat/Invited.antt =====
-- Who is in a private channel of src/chat.cpp.
use dark_global_12_x.Base.{
  ℕ, ◌≡◌, refl, sym, ap, ◌∙◌, true, false, not, ◌&&◌, ◌||◌, List, [], ◌∷◌, ◌++◌, ◌==◌, arith,
  contains, erase_all, contains-erase_all, ==_iff, Bool-cases, inl, inr,
}
use dark_global_12_x.Chat.{
  Channel, Players, has_user_in, erase_user, is_invited, remove_invite, add_user, remove_user,
  invite_player, exclude_player, add_user_to_private, remove_from_private,
}

module _ (players : Players) where
  pub contains-erase_user :
      (x y : ℕ) (us : List ℕ)
      → contains y (erase_user players x us)
        ≡ (contains y us && not (players.get_id y == players.get_id x))
  contains-erase_user x y [] = refl
  contains-erase_user x y (u ∷ us) = ground (arith, contains-erase_user x y us, same_id)
    where
      same_id : (u == y) ≡ true → players.get_id u ≡ players.get_id y
      same_id h = ap players.get_id ((==_iff u y).0 h)

  contains-snoc : (x y : ℕ) (us : List ℕ) → contains y (us ++ x ∷ []) ≡ (contains y us || x == y)
  contains-snoc x y [] = ground arith
  contains-snoc x y (u ∷ us) = ground (arith, contains-snoc x y us)

  has_user_in-erase_user :
      (x : ℕ) (us : List ℕ) → has_user_in players x (erase_user players x us) ≡ false
  has_user_in-erase_user x [] = refl
  has_user_in-erase_user x (u ∷ us) = ground (arith, has_user_in-erase_user x us)

  absent-erase_user :
      (x y : ℕ) (us : List ℕ)
      → has_user_in players x us ≡ false
      → contains y us ≡ true
      → (players.get_id y == players.get_id x) ≡ false
  absent-erase_user x y [] h k = absurd (ground arith)
  absent-erase_user x y (u ∷ us) h k = elim (Bool-cases (u == y)) [
    | inl same ↦ ground (arith, ap players.get_id ((==_iff u y).0 same))
    | inr other ↦ absent-erase_user x y us (ground arith) (ground arith)
  ]

  users-remove_user :
      (x y : ℕ) (ch : Channel)
      → contains y (remove_user players x ch).0.users
        ≡ (contains y ch.users && not (players.get_id y == players.get_id x))
  unfolding remove_user
  users-remove_user x y ch =
      ground (arith, contains-erase_user x y ch.users, absent-erase_user x y ch.users)

  -- Everybody in the channel is its owner or invited.
  abbrev pub AllInvited : Channel → Type 0
  AllInvited ch = (y : ℕ) → contains y ch.users ≡ true → is_invited players y ch ≡ true

  add_user-AllInvited :
      (x : ℕ) (ch : Channel) → AllInvited ch → AllInvited (add_user_to_private players x ch).0
  unfolding add_user_to_private add_user is_invited
  add_user-AllInvited x ch h y k = ground (arith, h y, contains-snoc x y ch.users, ==_iff x y)

  invite_player-AllInvited :
      (by x : ℕ) (ch : Channel) → AllInvited ch → AllInvited (invite_player players by x ch).0
  unfolding invite_player is_invited
  invite_player-AllInvited by x ch h y k = ground (arith, h y)

  remove_user-AllInvited :
      (x : ℕ) (ch : Channel) → AllInvited ch → AllInvited (remove_user players x ch).0
  unfolding remove_user is_invited
  remove_user-AllInvited x ch h y k = ground (arith, h y, contains-erase_user x y ch.users)

  is_invited-remove_user :
      (x y : ℕ) (ch : Channel)
      → is_invited players y (remove_user players x ch).0 ≡ is_invited players y ch
  unfolding remove_user is_invited
  is_invited-remove_user x y ch = ground arith

  is_invited-remove_invite :
      (x y : ℕ) (ch : Channel)
      → is_invited players y (remove_invite players x ch).0
        ≡ (y == ch.owner || not (x == y) && contains y ch.invites)
  unfolding remove_invite is_invited
  is_invited-remove_invite x y ch = ground (arith, contains-erase_all x y ch.invites)

  -- When a player is excluded who was invited, the users with its getID() are no users any more and
  -- all others stay; when one is excluded who was not, every user stays. Afterwards the owner and the
  -- invited players but the excluded one are invited.
  pub exclude_player-gone :
      (by x y : ℕ) (ch : Channel)
      → (contains y (exclude_player players by x ch).0.users ≡ (
          contains y ch.users
          && not (contains x ch.invites && players.get_id y == players.get_id x)))
        × (is_invited players y (exclude_player players by x ch).0
            ≡ (y == ch.owner || not (x == y) && contains y ch.invites))
  unfolding exclude_player remove_invite is_invited
  exclude_player-gone by x y ch =
      let ch1 : Channel = record ch { invites = erase_all x ch.invites } in
      ground (
        arith,
        users-remove_user x y ch1,
        is_invited-remove_user x y ch1,
        contains-erase_all x y ch.invites,
        ==_iff x y,
      )

  exclude_player-AllInvited :
      (by x : ℕ) (ch : Channel) → AllInvited ch → AllInvited (exclude_player players by x ch).0
  unfolding is_invited
  exclude_player-AllInvited by x ch h y k =
      let gone = exclude_player-gone by x y ch in gone.1 ∙ invited_still (sym gone.0 ∙ k) (h y)
    where
      invited_still :
          (contains y ch.users
              && not (contains x ch.invites && players.get_id y == players.get_id x))
            ≡ true
          → (contains y ch.users ≡ true → is_invited players y ch ≡ true)
          → (y == ch.owner || not (x == y) && contains y ch.invites) ≡ true
      invited_still u v = elim (Bool-cases (x == y)) [
        | inr other ↦ ground (arith, v)
        | inl same ↦
            let e = (==_iff x y).0 same in
            ground (arith, v, ap players.get_id e, ap (λ (z : ℕ). contains z ch.invites) e)
      ]

  -- The private channels that players make, join, leave and are invited to or excluded from.
  -- `quits` is removeUserFromAllChannels for a player who does not own the channel.
  pub data Session : Channel → Type 0 where
    opens :
        (id owner : ℕ)
        → Session
            (record { id = id; public_channel = false; users = []; owner = owner; invites = [] })
    enters : (x : ℕ) (ch : Channel) → Session ch → Session (add_user_to_private players x ch).0
    parts : (x : ℕ) (ch : Channel) → Session ch → Session (remove_user players x ch).0
    quits : (x : ℕ) (ch : Channel) → Session ch → Session (remove_from_private players x ch).0
    invites : (by x : ℕ) (ch : Channel) → Session ch → Session (invite_player players by x ch).0
    excludes : (by x : ℕ) (ch : Channel) → Session ch → Session (exclude_player players by x ch).0

  remove_from_private-AllInvited :
      (x : ℕ) (ch : Channel) → AllInvited ch → AllInvited (remove_from_private players x ch).0
  unfolding remove_from_private remove_invite is_invited
  remove_from_private-AllInvited x ch h y k =
      let ch1 : Channel = record ch { invites = erase_all x ch.invites } in
      elim (Bool-cases (x == y)) [
        | inr other ↦ ground (
          arith,
          h y,
          users-remove_user x y ch1,
          is_invited-remove_user x y ch1,
          contains-erase_all x y ch.invites,
        )
        | inl same ↦ ground (
          arith,
          h y,
          ap players.get_id ((==_iff x y).0 same),
          users-remove_user x y ch1,
          is_invited-remove_user x y ch1,
          contains-erase_all x y ch.invites,
        )
      ]

  Session-AllInvited : (ch : Channel) → Session ch → AllInvited ch
  Session-AllInvited _ (opens id owner) = λ y h. absurd (ground arith)
  Session-AllInvited _ (enters x ch s) = add_user-AllInvited x ch (Session-AllInvited ch s)
  Session-AllInvited _ (parts x ch s) = remove_user-AllInvited x ch (Session-AllInvited ch s)
  Session-AllInvited _ (quits x ch s) =
      remove_from_private-AllInvited x ch (Session-AllInvited ch s)
  Session-AllInvited _ (invites by x ch s) =
      invite_player-AllInvited by x ch (Session-AllInvited ch s)
  Session-AllInvited _ (excludes by x ch s) =
      exclude_player-AllInvited by x ch (Session-AllInvited ch s)

  -- In a private channel, after any sequence of entrances, departures, invitations and exclusions,
  -- every user is the owner or invited.
  pub Session-invited :
      (ch : Channel) (y : ℕ)
      → Session ch
      → contains y ch.users ≡ true
      → is_invited players y ch ≡ true
  Session-invited ch y s h = Session-AllInvited ch s y h
