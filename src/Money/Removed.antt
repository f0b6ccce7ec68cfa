-- ===== src/Money/Removed.antt =====
-- What removeMoney of src/game.cpp takes.
use native.Mathlib.Nat.{mul-div_cancel_left}
use dark_global_12_x.Base.{
  ℕ, ◌+◌, ◌-◌, ◌*◌, ◌/◌, ◌%◌, ◌<◌, ◌≡◌, refl, ap, ◌∙◌, true, List, [], ◌∷◌, ltb, ◌==◌, some, arith,
  Bool-cases, inl, inr, ==_iff, All, ltb→lt, ltb→ge,
}
use dark_global_12_x.Base.Words.{u16_mod, u32_mod}
use dark_global_12_x.Money.{
  Kind, Stack, gold_coin, platinum_coin, crystal_coin, other_item, worth_of, get_worth, emplace,
  money_map, ceil_div, add_money, split_stack, take_coins, remove_money,
}
use dark_global_12_x.Money.Added.{total, too_much, add_money-total}

-- getItemCount is uint16_t.
abbrev pub Counted : List Stack → Type 0
Counted ss = All (λ (s : Stack). s.count < u16_mod) ss

-- The entries of moneyMap.
abbrev pub Entries : List Stack → Type 0
Entries ss = All (λ (s : Stack). (s.count < u16_mod) × (0 < get_worth s)) ss

-- The total of two lists of stacks, those left and the change.
abbrev pub left_total : List Stack × List Stack → ℕ
left_total r = total r.0 + total r.1

-- What one item of a stack is worth.
unit_worth :
    (k : Kind) (n : ℕ)
    → n < u16_mod
    → 0 < n * worth_of k % u32_mod
    → n * worth_of k % u32_mod / n ≡ worth_of k
unit_worth k n hn hw =
    ap (λ (w : ℕ). w / n) (small k) ∙ mul-div_cancel_left (worth_of k) (some_items k hw)
  where
    small : (k : Kind) → n * worth_of k % u32_mod ≡ n * worth_of k
    small gold_coin = omega (arith, hn)
    small platinum_coin = omega (arith, hn)
    small crystal_coin = omega (arith, hn)
    small other_item = omega arith

    some_items : (k : Kind) → 0 < n * worth_of k % u32_mod → 0 < n
    some_items gold_coin h = omega (arith, h)
    some_items platinum_coin h = omega (arith, h)
    some_items crystal_coin h = omega (arith, h)
    some_items other_item h = absurd (omega (arith, h))

-- The rest of a split stack and its change.
pays :
    (k : Kind) (n money : ℕ)
    → n < u16_mod
    → 0 < n * worth_of k % u32_mod
    → money < n * worth_of k % u32_mod
    → ((n - ceil_div money (worth_of k)) * worth_of k % u32_mod
          + (worth_of k * ceil_div money (worth_of k) % u32_mod - money)
        ≡ n * worth_of k % u32_mod - money)
      × (worth_of k * ceil_div money (worth_of k) % u32_mod - money < too_much)
pays gold_coin n money hn hw hm = (omega (arith, hn, hm), omega (arith, hn, hm))
pays platinum_coin n money hn hw hm = (omega (arith, hn, hm), omega (arith, hn, hm))
pays crystal_coin n money hn hw hm = (omega (arith, hn, hm), omega (arith, hn, hm))
pays other_item n money hn hw hm = absurd (omega (arith, hw))

split_stack-total :
    (k : Kind) (n money : ℕ) (ss : List Stack)
    → n < u16_mod
    → 0 < n * worth_of k % u32_mod
    → money < n * worth_of k % u32_mod
    → left_total (split_stack money (record { kind = k; count = n }) ss)
      ≡ n * worth_of k % u32_mod + total ss - money
unfolding split_stack
split_stack-total k n money ss hn hw hm =
    let (paid, fits) = pays k n money hn hw hm in
    ap
      (λ (w : ℕ).
        (n - ceil_div money w) * worth_of k % u32_mod
        + total ss
        + total (add_money (w * ceil_div money w % u32_mod - money)))
      (unit_worth k n hn hw)
    ∙ omega (
      arith,
      paid,
      hm,
      add_money-total (worth_of k * ceil_div money (worth_of k) % u32_mod - money) fits,
    )

take_coins-total :
    (money : ℕ) (ss : List Stack)
    → 0 < money
    → Entries ss
    → left_total (take_coins money ss) ≡ total ss - money
unfolding take_coins
take_coins-total money [] pos h = omega arith
take_coins-total money (s ∷ ss) pos ((hn, hw), h) = elim (Bool-cases (ltb (get_worth s) money)) [
  | inl less ↦
      let lt = ltb→lt (get_worth s) money less in
      rw less (take_coins-total (money - get_worth s) ss (omega (arith, lt)) h ∙ omega (arith, lt))
  | inr not_less ↦
      let ge = ltb→ge (get_worth s) money not_less in
      elim (Bool-cases (ltb money (get_worth s))) [
        | inl more ↦
            rw (not_less, more)
              (split_stack-total s.kind s.count money ss hn hw (ltb→lt money (get_worth s) more))
        | inr exact ↦
            let le = ltb→ge money (get_worth s) exact in
            rw (not_less, exact) (omega (arith, ge, le))
      ]
]

emplace-Entries :
    (s : Stack) (ts : List Stack)
    → (s.count < u16_mod) × (0 < get_worth s)
    → Entries ts
    → Entries (emplace s ts)
emplace-Entries s [] h hs = (h, tt)
emplace-Entries s (t ∷ ts) h hs = elim (Bool-cases (ltb (get_worth s) (get_worth t))) [
  | inl before ↦ rw before (h, hs)
  | inr behind ↦ rw behind (hs.0, emplace-Entries s ts h hs.1)
]

emplace-total : (s : Stack) (ts : List Stack) → total (emplace s ts) ≡ get_worth s + total ts
emplace-total s [] = refl
emplace-total s (t ∷ ts) = elim (Bool-cases (ltb (get_worth s) (get_worth t))) [
  | inl before ↦ rw before refl
  | inr behind ↦ rw behind (omega (arith, emplace-total s ts))
]

money_map-total : (ss ts : List Stack) → total (money_map ss ts) ≡ total ss + total ts
unfolding money_map
money_map-total [] ts = omega arith
money_map-total (s ∷ ss) ts = elim (Bool-cases (get_worth s == 0)) [
  | inl none ↦ rw none (omega (arith, money_map-total ss ts, (==_iff (get_worth s) 0).0 none))
  | inr coins ↦ rw coins (omega (arith, money_map-total ss (emplace s ts), emplace-total s ts))
]

money_map-Entries : (ss ts : List Stack) → Counted ss → Entries ts → Entries (money_map ss ts)
unfolding money_map
money_map-Entries [] ts h e = e
money_map-Entries (s ∷ ss) ts (hn, h) e = elim (Bool-cases (get_worth s == 0)) [
  | inl none ↦ rw none (money_map-Entries ss ts h e)
  | inr coins ↦
      rw coins
        (money_map-Entries ss (emplace s ts) h (emplace-Entries s ts (hn, ground (arith, coins)) e))
]

-- removeMoney takes exactly the money: the coins that are left and the change are worth what all of them
-- were worth before, less the money. Where they are worth less than the money, none is left; the
-- answer is true there too. Counts are 16 bits wide.
pub remove_money-total :
    (items : List Stack) (money : ℕ)
    → Counted items
    → ((remove_money (some items) money).0 ≡ true)
      × (left_total (remove_money (some items) money).1 ≡ total items - money)
unfolding remove_money
remove_money-total items money h = elim (Bool-cases (money == 0)) [
  | inl none ↦ rw none (refl, omega (arith, money_map-total items [], (==_iff money 0).0 none))
  | inr coins ↦ rw coins (
    refl,
    take_coins-total money (money_map items []) (ground (arith, coins))
          (money_map-Entries items [] h tt)
        ∙ omega (arith, money_map-total items []),
  )
]
