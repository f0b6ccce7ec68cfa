-- ===== src/Chat.antt =====
-- src/chat.cpp: the channels of the chat, each with its users, and the private channels, which a
-- player joins by invitation. What is sent is a list of notices, in the order of the users' list;
-- the code's maps give the order of the identifiers.
use dark_global_12_x.Base.{
  ℕ, Bool, true, false, not, ◌&&◌, ◌||◌, List, [], ◌∷◌, ◌++◌, map, ◌==◌, if◌then◌else◌, contains,
  erase_all,
}
mod Tests
pub mod Invited
pub mod Private

abbrev pub channel_guild : ℕ
channel_guild = 0

pub data ChannelEvent : Type 0 where
  event_join : ChannelEvent
  event_leave : ChannelEvent
  event_invite : ChannelEvent
  event_exclude : ChannelEvent

pub data Notice : Type 0 where
  channel_event : (to who : ℕ) (event : ChannelEvent) → Notice
  close_private : (to : ℕ) → Notice
  channel_text : (to from : ℕ) (text : List ℕ) → Notice
  text_message : (to about : ℕ) → Notice
  guild_motd : (to delay : ℕ) → Notice

-- A channel of the chat; a player is its GUID. The owner and the invites are those of a private
-- channel.
pub record Channel : Type 0 where
  pub id : ℕ
  pub public_channel : Bool
  pub users : List ℕ
  pub owner : ℕ
  pub invites : List ℕ

-- What a channel asks of a player: its getID(), the answer of the script onJoin, and whether its
-- guild has a message of the day.
pub record Players : Type 0 where
  pub get_id : ℕ → ℕ
  pub on_join : ℕ → Bool
  pub has_motd : ℕ → Bool

abbrev pub tell : (ℕ → Notice) → List ℕ → List Notice
tell f [] = []
tell f (x ∷ xs) = f x ∷ tell f xs

module _ (players : Players) where
  -- users.find(player.getID()) != users.end()
  abbrev pub has_user_in : ℕ → List ℕ → Bool
  has_user_in x [] = false
  has_user_in x (u ∷ us) = players.get_id u == players.get_id x || has_user_in x us

  -- users.erase(iter)
  abbrev pub erase_user : ℕ → List ℕ → List ℕ
  erase_user x [] = []
  erase_user x (u ∷ us) =
      let rest = erase_user x us in if players.get_id u == players.get_id x then rest else u ∷ rest

  unfoldable pub has_user : ℕ → Channel → Bool
  has_user x ch = has_user_in x ch.users

  unfoldable pub is_invited : ℕ → Channel → Bool
  is_invited x ch = if x == ch.owner then true else contains x ch.invites

  unfoldable pub remove_invite : ℕ → Channel → Channel × Bool
  remove_invite x ch = (record ch { invites = erase_all x ch.invites }, contains x ch.invites)

  unfoldable pub add_user : ℕ → Channel → Channel × Bool × List Notice
  add_user x ch =
      if has_user_in x ch.users
      then (ch, false, [])
      else if not (players.on_join x)
      then (ch, false, [])
      else let motd =
          if ch.id == channel_guild && players.has_motd x then guild_motd x 150 ∷ [] else [] in
        let told =
          if ch.public_channel then [] else tell (λ u. channel_event u x event_join) ch.users in
        (record ch { users = ch.users ++ x ∷ [] }, true, motd ++ told)

  unfoldable pub remove_user : ℕ → Channel → Channel × Bool × List Notice
  remove_user x ch =
      if not (has_user_in x ch.users)
      then (ch, false, [])
      else let left = erase_user x ch.users in
        (
          record ch { users = left },
          true,
          if ch.public_channel then [] else tell (λ u. channel_event u x event_leave) left,
        )

  unfoldable pub invite_player : ℕ → ℕ → Channel → Channel × List Notice
  invite_player by x ch = if contains x ch.invites then (ch, []) else (
    record ch { invites = x ∷ ch.invites },
    text_message x by ∷ text_message by x ∷ tell (λ u. channel_event u x event_invite) ch.users,
  )

  unfoldable pub exclude_player : ℕ → ℕ → Channel → Channel × List Notice
  exclude_player by x ch =
      let (ch1, found) = remove_invite x ch in
      if not found
      then (ch, [])
      else let (ch2, was_user, left) = remove_user x ch1 in
        (
          ch2,
          left
              ++ text_message by x
                ∷ close_private x
                ∷ tell (λ u. channel_event u x event_exclude) ch2.users,
        )

  unfoldable pub close_channel : Channel → List Notice
  close_channel ch = tell (λ u. close_private u) ch.users

  unfoldable pub talk : ℕ → List ℕ → Channel → Bool × List Notice
  talk x text ch =
      if not (has_user_in x ch.users)
      then (false, [])
      else (true, tell (λ u. channel_text u x text) ch.users)

  -- A private channel in Chat::addUserToChannel, which getChannel gives to invited players only.
  unfoldable pub add_user_to_private : ℕ → Channel → Channel × Bool × List Notice
  add_user_to_private x ch = if is_invited x ch then add_user x ch else (ch, false, [])

  -- A private channel in Chat::removeUserFromAllChannels; the Boolean says that it is erased.
  unfoldable pub remove_from_private : ℕ → Channel → Channel × Bool × List Notice
  remove_from_private x ch =
      let (ch1, found) = remove_invite x ch in
      let (ch2, was_user, left) = remove_user x ch1 in
      if ch2.owner == x then (ch2, true, left ++ close_channel ch2) else (ch2, false, left)
