-- ===== src/Chat/Private/Registry.antt =====
-- The private channels of src/chat.cpp through every operation that makes, changes or ends them.
use dark_global_12_x.Base.{
  ℕ, ◌≡◌, refl, ◌∙◌, Bool, true, false, not, ◌&&◌, Option, none, some, List, [], ◌∷◌, ◌==◌, arith,
  contains, Bool-cases, inl, inr,
}
use dark_global_12_x.Chat.{
  Channel, Players, remove_user, remove_invite, remove_from_private, is_invited,
}
use dark_global_12_x.Chat.Private.{
  find_private, free_slot, place_in, create_private, store_private, leave_found,
  remove_user_from_private, leave_all_private,
}
use dark_global_12_x.Chat.Private.Slots.{ids, owners, IsFirstFree, create_private-place_in}
use dark_global_12_x.Chat.Private.Stored.{
  IsRegistry, find_private-id, ids-store_private, owners-store_private, erase-IsRegistry,
}

module _ (players : Players) where
  same-remove_user :
      (x : ℕ) (ch : Channel)
      → ((remove_user players x ch).0.id ≡ ch.id) × ((remove_user players x ch).0.owner ≡ ch.owner)
  unfolding remove_user
  same-remove_user x ch = (ground arith, ground arith)

  same-remove_from_private :
      (x : ℕ) (ch : Channel)
      → ((remove_from_private players x ch).0.id ≡ ch.id)
        × ((remove_from_private players x ch).0.owner ≡ ch.owner)
  unfolding remove_from_private remove_invite
  same-remove_from_private x ch =
      let ch1 : Channel = (remove_invite players x ch).0 in
      let same = same-remove_user x ch1 in (ground (arith, same.0), ground (arith, same.1))

  stored-IsRegistry :
      (i : ℕ) (c ch : Channel) (chs : List Channel)
      → find_private i chs ≡ some ch
      → c.id ≡ ch.id
      → c.owner ≡ ch.owner
      → IsRegistry chs
      → IsRegistry (store_private i (some c) chs)
  stored-IsRegistry i c ch chs e id own r = record {
    ids_distinct = rw (ids-store_private i c chs (id ∙ find_private-id i chs ch e)) r.ids_distinct;
    owners_distinct = rw (owners-store_private i c ch chs e own r.ids_distinct) r.owners_distinct;
  }

  leave_found-IsRegistry :
      (x i : ℕ) (o : Option Channel) (chs : List Channel)
      → find_private i chs ≡ o
      → IsRegistry chs
      → IsRegistry (leave_found players x i o chs).0
  leave_found-IsRegistry x i none chs e r = r
  leave_found-IsRegistry x i (some ch) chs e r =
      let same = same-remove_user x ch in
      elim (Bool-cases (is_invited players x ch)) [
        | inr stranger ↦ rw stranger r
        | inl guest ↦ elim (Bool-cases (remove_user players x ch).1) [
          | inr absent ↦ rw (guest, absent) r
          | inl there ↦ elim (Bool-cases (ch.owner == x)) [
            | inl own ↦ rw (guest, there, own) (erase-IsRegistry i chs r)
            | inr other ↦
                rw (guest, there, other)
                  (stored-IsRegistry i (remove_user players x ch).0 ch chs e same.0 same.1 r)
          ]
        ]
      ]

  left-ids :
      (x j : ℕ) (chs : List Channel)
      → contains j (ids (leave_all_private players x chs)) ≡ true
      → contains j (ids chs) ≡ true
  unfolding leave_all_private
  left-ids x j [] h = h
  left-ids x j (ch ∷ chs) h = ground (arith, left-ids x j chs, (same-remove_from_private x ch).0)

  left-owners :
      (x j : ℕ) (chs : List Channel)
      → contains j (owners (leave_all_private players x chs)) ≡ true
      → contains j (owners chs) ≡ true
  unfolding leave_all_private
  left-owners x j [] h = h
  left-owners x j (ch ∷ chs) h =
      ground (arith, left-owners x j chs, (same-remove_from_private x ch).1)

  leave_all-IsRegistry :
      (x : ℕ) (chs : List Channel) → IsRegistry chs → IsRegistry (leave_all_private players x chs)
  unfolding leave_all_private
  leave_all-IsRegistry x [] r = r
  leave_all-IsRegistry x (ch ∷ chs) r =
      let rest =
        leave_all-IsRegistry x chs
          (record { ids_distinct = r.ids_distinct.1; owners_distinct = r.owners_distinct.1 }) in
      record {
        ids_distinct = ground (
          arith,
          rest.ids_distinct,
          left-ids x ch.id chs,
          r.ids_distinct.0,
          (same-remove_from_private x ch).0,
        );
        owners_distinct = ground (
          arith,
          rest.owners_distinct,
          left-owners x ch.owner chs,
          r.owners_distinct.0,
          (same-remove_from_private x ch).1,
        );
      }

  -- What happens to the private channels, from none on. `changes` is any operation of a channel
  -- that keeps its identifier and owner: an invitation, an exclusion, a user who enters.
  pub data Registry : List Channel → Type 0 where
    starts : Registry []
    creates :
        (guid : ℕ) (premium : Bool) (chs : List Channel)
        → Registry chs
        → Registry (create_private guid premium chs).1
    changes :
        (i : ℕ) (c ch : Channel) (chs : List Channel)
        → Registry chs
        → find_private i chs ≡ some ch
        → c.id ≡ ch.id
        → c.owner ≡ ch.owner
        → Registry (store_private i (some c) chs)
    leaves :
        (x i : ℕ) (chs : List Channel)
        → Registry chs
        → Registry (remove_user_from_private players x i chs).0
    quits : (x : ℕ) (chs : List Channel) → Registry chs → Registry (leave_all_private players x chs)

  placed-IsRegistry :
      (guid : ℕ) (o : Option ℕ) (chs : List Channel)
      → contains guid (owners chs) ≡ false
      → IsFirstFree 9900 100 chs o
      → IsRegistry chs
      → IsRegistry (place_in guid o chs).1
  placed-IsRegistry guid none chs own first r = r
  placed-IsRegistry guid (some i) chs own first r = record {
    ids_distinct = (first.2, r.ids_distinct);
    owners_distinct = (own, r.owners_distinct);
  }

  created-IsRegistry :
      (guid : ℕ) (premium : Bool) (chs : List Channel)
      → IsRegistry chs
      → IsRegistry (create_private guid premium chs).1
  created-IsRegistry guid premium chs r =
      let (first, made) = create_private-place_in guid premium chs in
      rw made (elim (Bool-cases (premium && not (contains guid (owners chs)))) [
        | inr refused ↦ rw refused r
        | inl allowed ↦
            rw allowed (placed-IsRegistry guid (free_slot 9900 100 chs) chs (ground arith) first r)
      ])

  -- Whatever private channels players create, change, leave and lose by logging out, no two of them
  -- have the same identifier, and no player owns two.
  pub Registry-IsRegistry : (chs : List Channel) → Registry chs → IsRegistry chs
  unfolding remove_user_from_private
  Registry-IsRegistry _ starts = record { ids_distinct = tt; owners_distinct = tt }
  Registry-IsRegistry _ (creates guid premium chs g) =
      created-IsRegistry guid premium chs (Registry-IsRegistry chs g)
  Registry-IsRegistry _ (changes i c ch chs g e id own) =
      stored-IsRegistry i c ch chs e id own (Registry-IsRegistry chs g)
  Registry-IsRegistry _ (leaves x i chs g) =
      leave_found-IsRegistry x i (find_private i chs) chs refl (Registry-IsRegistry chs g)
  Registry-IsRegistry _ (quits x chs g) = leave_all-IsRegistry x chs (Registry-IsRegistry chs g)
