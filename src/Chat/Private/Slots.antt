-- ===== src/Chat/Private/Slots.antt =====
-- Which slots the private channels of src/chat.cpp take.
use dark_global_12_x.Base.{
  ℕ, zero, suc, ◌+◌, ◌≤◌, ◌<◌, ◌≡◌, refl, ap, Bool, true, false, not, ◌&&◌, Option, none, some,
  List, [], ◌∷◌, ◌==◌, if◌then◌else◌, arith, contains, ==_iff, Bool-cases, inl, inr,
}
use dark_global_12_x.Chat.{Channel}
use dark_global_12_x.Chat.Private.{
  find_private, is_none, get_private_channel, free_slot, place_in, create_private,
}

abbrev pub ids : List Channel → List ℕ
ids [] = []
ids (ch ∷ chs) = ch.id ∷ ids chs

abbrev pub owners : List Channel → List ℕ
owners [] = []
owners (ch ∷ chs) = ch.owner ∷ owners chs

find_private-ids :
    (i : ℕ) (chs : List Channel) → is_none (find_private i chs) ≡ not (contains i (ids chs))
unfolding find_private
find_private-ids i [] = refl
find_private-ids i (ch ∷ chs) = ground (arith, find_private-ids i chs)

pub get_private_channel-owners :
    (guid : ℕ) (chs : List Channel)
    → is_none (get_private_channel guid chs) ≡ not (contains guid (owners chs))
unfolding get_private_channel
get_private_channel-owners guid [] = refl
get_private_channel-owners guid (ch ∷ chs) = ground (arith, get_private_channel-owners guid chs)

-- The first free slot of a range, if there is one.
abbrev pub IsFirstFree : ℕ → ℕ → List Channel → Option ℕ → Type 0
IsFirstFree turns i chs none = (j : ℕ) → i ≤ j → j < i + turns → contains j (ids chs) ≡ true
IsFirstFree turns i chs (some k) =
    (i ≤ k)
    × (k < i + turns)
    × (contains k (ids chs) ≡ false)
    × ((j : ℕ) → i ≤ j → j < k → contains j (ids chs) ≡ true)

taken_first :
    (i j : ℕ) (chs : List Channel) → (i == j) ≡ true → contains i (ids chs) ≡ contains j (ids chs)
taken_first i j chs same = ap (λ (k : ℕ). contains k (ids chs)) ((==_iff i j).0 same)

later :
    (turns i : ℕ) (chs : List Channel) (o : Option ℕ)
    → contains i (ids chs) ≡ true
    → IsFirstFree turns (i + 1) chs o
    → IsFirstFree (suc turns) i chs o
later turns i chs none here rest = λ j lo hi. ground (arith, taken_first i j chs, rest j)
later turns i chs (some k) here (lo, hi, free, before) =
    (omega arith, omega arith, free, λ j l h. ground (arith, taken_first i j chs, before j))

pub free_slot-IsFirstFree :
    (turns i : ℕ) (chs : List Channel) → IsFirstFree turns i chs (free_slot turns i chs)
unfolding free_slot
free_slot-IsFirstFree zero i chs = λ j lo hi. absurd (omega arith)
free_slot-IsFirstFree (suc turns) i chs = elim (Bool-cases (contains i (ids chs))) [
  | inl busy ↦
      rw (find_private-ids i chs, busy)
        (later turns i chs (free_slot turns (i + 1) chs) busy
          (free_slot-IsFirstFree turns (i + 1) chs))
  | inr free ↦
      rw (find_private-ids i chs, free)
        (omega arith, omega arith, free, λ j lo hi. absurd (omega arith))
]

-- What is made of a slot: a channel with its number that the player owns, in which nobody is and to
-- which nobody is invited; and without a slot nothing.
abbrev pub Outcome : ℕ → List Channel → Option Channel × List Channel → Option ℕ → Type 0
Outcome guid chs r none = r ≡ (none, chs)
Outcome guid chs r (some slot) =
    (ch : Channel) × (r ≡ (some ch, ch ∷ chs))
    × (ch.id ≡ slot)
    × (ch.owner ≡ guid)
    × (ch.users ≡ [])
    × (ch.invites ≡ [])
    × (ch.public_channel ≡ false)

place_in-Outcome :
    (guid : ℕ) (o : Option ℕ) (chs : List Channel) → Outcome guid chs (place_in guid o chs) o
place_in-Outcome guid none chs = refl
place_in-Outcome guid (some slot) chs = (_, refl, refl, refl, refl, refl, refl)

-- Who gets a channel: place_in makes it.
pub create_private-place_in :
    (guid : ℕ) (premium : Bool) (chs : List Channel)
    → let o = free_slot 9900 100 chs in
      let allowed = premium && not (contains guid (owners chs)) in
      IsFirstFree 9900 100 chs o
      × (create_private guid premium chs ≡ (if allowed then place_in guid o chs else (none, chs)))
unfolding create_private
create_private-place_in guid premium chs =
    (free_slot-IsFirstFree 9900 100 chs, guarded (get_private_channel-owners guid chs))
  where
    guarded :
        is_none (get_private_channel guid chs) ≡ not (contains guid (owners chs))
        → create_private guid premium chs ≡ (
            if premium && not (contains guid (owners chs))
            then place_in guid (free_slot 9900 100 chs) chs
            else (none, chs))
    guarded e = elim (Bool-cases premium) [
      | inl paid ↦ elim (Bool-cases (contains guid (owners chs))) [
        | inl has ↦ rw (create_private, paid, e, has) refl
        | inr free ↦ rw (create_private, paid, e, free) refl
      ]
      | inr unpaid ↦ rw (create_private, unpaid) refl
    ]

-- A premium player without a private channel gets one whose number is the lowest free slot from 100 to
-- 9999, which the player owns, with no users and no invites, and the other channels stay; a player who is
-- not premium or owns a private channel gets none, and where all slots are taken no channel is made.
pub create_private-slot :
    (guid : ℕ) (premium : Bool) (chs : List Channel)
    → (o : Option ℕ) × IsFirstFree 9900 100 chs o
      × Outcome guid chs
          (create_private guid premium chs)
          (if premium && not (contains guid (owners chs)) then o else none)
create_private-slot guid premium chs =
    let o = free_slot 9900 100 chs in
    let (first, made) = create_private-place_in guid premium chs in
    (
      o,
      first,
      elim (Bool-cases (premium && not (contains guid (owners chs)))) [
        | inl allowed ↦ rw (made, allowed) (place_in-Outcome guid o chs)
        | inr refused ↦ rw (made, refused) refl
      ],
    )
