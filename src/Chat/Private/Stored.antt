-- ===== src/Chat/Private/Stored.antt =====
-- Identifiers and owners of the private channels of src/chat.cpp when one is written back or erased.
use dark_global_12_x.Base.{
  ℕ, ◌≡◌, refl, sym, ap, ◌∙◌, true, false, Option, none, some, List, [], ◌∷◌, ◌==◌, arith, contains,
  Distinct, ==_iff, Bool-cases, inl, inr,
}
use dark_global_12_x.Chat.{Channel}
use dark_global_12_x.Chat.Private.{find_private, store_private}
use dark_global_12_x.Chat.Private.Slots.{ids, owners}

-- No two channels have one identifier or one owner.
pub record IsRegistry (chs : List Channel) : Type 0 where
  pub ids_distinct : Distinct (ids chs)
  pub owners_distinct : Distinct (owners chs)

pub find_private-id :
    (i : ℕ) (chs : List Channel) (ch : Channel) → find_private i chs ≡ some ch → ch.id ≡ i
unfolding find_private
find_private-id i [] ch e = absurd (ground arith)
find_private-id i (c ∷ chs) ch e = ground (arith, find_private-id i chs ch)

pub ids-store_private :
    (i : ℕ) (c : Channel) (chs : List Channel)
    → c.id ≡ i
    → ids (store_private i (some c) chs) ≡ ids chs
unfolding store_private
ids-store_private i c [] e = refl
ids-store_private i c (ch ∷ chs) e = ground (arith, ids-store_private i c chs e)

owners-store_absent :
    (i : ℕ) (c : Channel) (chs : List Channel)
    → contains i (ids chs) ≡ false
    → owners (store_private i (some c) chs) ≡ owners chs
unfolding store_private
owners-store_absent i c [] e = refl
owners-store_absent i c (ch ∷ chs) e = ground (arith, owners-store_absent i c chs)

abbrev owner_or : Option Channel → ℕ
owner_or none = 0
owner_or (some ch) = ch.owner

pub owners-store_private :
    (i : ℕ) (c ch : Channel) (chs : List Channel)
    → find_private i chs ≡ some ch
    → c.owner ≡ ch.owner
    → Distinct (ids chs)
    → owners (store_private i (some c) chs) ≡ owners chs
unfolding store_private find_private
owners-store_private i c ch [] e own d = absurd (ground arith)
owners-store_private i c ch (h ∷ chs) e own d = elim (Bool-cases (h.id == i)) [
  | inl same ↦
      let found : some h ≡ some ch = rw same at e in
      let owner_found : h.owner ≡ ch.owner = ap owner_or found in
      let absent : contains i (ids chs) ≡ false =
        sym (ap (λ (k : ℕ). contains k (ids chs)) ((==_iff h.id i).0 same)) ∙ d.0 in
      rw (same, owners-store_absent i c chs absent)
        (ap (λ (o : ℕ). o ∷ owners chs) (own ∙ sym owner_found))
  | inr other ↦
      rw other (
        ap (λ (os : List ℕ). h.owner ∷ os)
          (owners-store_private i c ch chs (rw other at e) own d.1))
]

erased-ids :
    (i j : ℕ) (chs : List Channel)
    → contains j (ids (store_private i none chs)) ≡ true
    → contains j (ids chs) ≡ true
unfolding store_private
erased-ids i j [] h = h
erased-ids i j (ch ∷ chs) h = ground (arith, erased-ids i j chs)

erased-owners :
    (i j : ℕ) (chs : List Channel)
    → contains j (owners (store_private i none chs)) ≡ true
    → contains j (owners chs) ≡ true
unfolding store_private
erased-owners i j [] h = h
erased-owners i j (ch ∷ chs) h = ground (arith, erased-owners i j chs)

pub erase-IsRegistry :
    (i : ℕ) (chs : List Channel) → IsRegistry chs → IsRegistry (store_private i none chs)
unfolding store_private
erase-IsRegistry i [] r = r
erase-IsRegistry i (ch ∷ chs) r =
    let rest =
      erase-IsRegistry i chs
        (record { ids_distinct = r.ids_distinct.1; owners_distinct = r.owners_distinct.1 }) in
    record {
      ids_distinct = ground (arith, rest.ids_distinct, erased-ids i ch.id chs, r.ids_distinct.0);
      owners_distinct =
          ground (arith, rest.owners_distinct, erased-owners i ch.owner chs, r.owners_distinct.0);
    }
