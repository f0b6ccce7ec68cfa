-- ===== src/Money/Added.antt =====
-- The coins that addMoney of src/game.cpp makes.
use dark_global_12_x.Base.{
  ℕ, zero, suc, ◌+◌, ◌-◌, ◌*◌, ◌/◌, ◌%◌, ◌<◌, ◌≡◌, ap, ◌∙◌, false, List, [], ◌∷◌, ◌++◌, ltb, ◌==◌,
  if◌then◌else◌, arith, Bool-cases, inl, inr, ==_iff,
}
use dark_global_12_x.Base.Words.{u8_mod, u16_mod, u32_mod, u64_mod}
use dark_global_12_x.Money.{
  Stack, gold_coin, platinum_coin, get_worth, new_stack, crystal_stacks, add_money,
}

-- What stacks are worth together.
abbrev pub total : List Stack → ℕ
total [] = 0
total (s ∷ ss) = get_worth s + total ss

total-append : (ss ts : List Stack) → total (ss ++ ts) ≡ total ss + total ts
total-append [] ts = omega arith
total-append (s ∷ ss) ts = omega (arith, total-append ss ts)

-- The first amount whose crystal coins are worth more than 32 bits hold.
abbrev pub too_much : ℕ
too_much = 4294970000

total-crystal_stacks :
    (fuel coins : ℕ) → coins < fuel → total (crystal_stacks fuel coins) ≡ coins * 10000
unfolding crystal_stacks
total-crystal_stacks zero coins h = absurd (omega (arith, h))
total-crystal_stacks (suc fuel) coins h =
    ground (arith, total-crystal_stacks fuel (coins - (if ltb coins 100 then coins else 100)))

total-platinum :
    (n : ℕ) → total (if n == 0 then [] else new_stack platinum_coin n) ≡ n % u8_mod * 100
total-platinum n = ground arith

-- The gold coins that a stack for the rest holds.
abbrev pub gold_of : ℕ → ℕ
gold_of n = if n == 0 then 0 else if n % u16_mod == 0 then 1 else n % u8_mod

total-gold : (n : ℕ) → total (if n == 0 then [] else new_stack gold_coin (n % u16_mod)) ≡ gold_of n
total-gold n = ground arith

-- What is left of the money when the crystal coins are made, and what the stacks are worth.
abbrev crystals : ℕ → ℕ
crystals money = money / 10000 % u32_mod

abbrev left_of : ℕ → ℕ
left_of money = (money + u64_mod - crystals money * 10000 % u32_mod) % u64_mod

gold_of-few : (n : ℕ) → n < 100 → gold_of n ≡ n
gold_of-few n h = ground (arith, h)

pub add_money-worth :
    (money : ℕ)
    → 0 < money
    → total (add_money money)
      ≡ crystals money * 10000
        + left_of money / 100 % u16_mod % u8_mod * 100
        + gold_of (left_of money - left_of money / 100 % u16_mod * 100)
unfolding add_money
add_money-worth money h =
    let some_money : money == 0 ≡ false = ground (arith, h) in
    let platinum_coins = left_of money / 100 % u16_mod in
    let rest = left_of money - platinum_coins * 100 in
    rw some_money (
      total-append (crystal_stacks (suc (crystals money)) (crystals money)) _
      ∙ ap (λ (k : ℕ). total (crystal_stacks (suc (crystals money)) (crystals money)) + k)
          (total-append (if platinum_coins == 0 then [] else new_stack platinum_coin platinum_coins)
            (if rest == 0 then [] else new_stack gold_coin (rest % u16_mod)))
      ∙ omega (
        arith,
        total-crystal_stacks (suc (crystals money)) (crystals money) (omega arith),
        total-platinum platinum_coins,
        total-gold rest,
      ))

-- The stacks that addMoney makes are worth the money, for amounts below 4294970000.
pub add_money-total : (money : ℕ) → money < too_much → total (add_money money) ≡ money
unfolding add_money
add_money-total money h = elim (Bool-cases (money == 0)) [
  | inl zero_money ↦ rw zero_money (omega (arith, (==_iff money 0).0 zero_money))
  | inr some_money ↦
      let small : left_of money < 10000 = omega (arith, h) in
      let platinum : left_of money / 100 % u16_mod % u8_mod ≡ left_of money / 100 =
        omega (arith, small) in
      let rest : left_of money - left_of money / 100 % u16_mod * 100 ≡ left_of money % 100 =
        omega (arith, small) in
      let gold : gold_of (left_of money % 100) ≡ left_of money % 100 =
        gold_of-few (left_of money % 100) (omega arith) in
      add_money-worth money (ground (arith, some_money))
      ∙ omega (arith, h, small, platinum, ap gold_of rest, gold)
]
