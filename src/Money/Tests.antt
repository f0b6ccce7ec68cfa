-- ===== src/Money/Tests.antt =====
-- Applications of the theorems on addMoney and removeMoney of src/game.cpp.
use dark_global_12_x.Base.{◌+◌, ◌-◌, ◌≡◌, refl, true, some, List, [], ◌∷◌, arith}
use dark_global_12_x.Money.{
  Stack, gold_coin, platinum_coin, other_item, add_money, money_map, split_stack, take_coins,
  remove_money,
}
use dark_global_12_x.Money.Added.{total, add_money-total, add_money-worth}
use dark_global_12_x.Money.Removed.{left_total, remove_money-total}

add_money-total_example : total (add_money 2034567) ≡ 2034567
add_money-total_example = add_money-total 2034567 (omega arith)

-- From 4294970000 on, the product of 32 bits wraps, and what is made is worth more.
over_32_bits : total (add_money 4294970000) ≡ 4294970000 + 4000 + 96
over_32_bits = add_money-worth 4294970000 (omega arith)

abbrev purse : List Stack
purse =
    record { kind = platinum_coin; count = 3 }
    ∷ record { kind = other_item; count = 1 }
    ∷ record { kind = gold_coin; count = 50 }
    ∷ []

remove_money-total_example :
    ((remove_money (some purse) 75).0 ≡ true)
    × (left_total (remove_money (some purse) 75).1 ≡ total purse - 75)
remove_money-total_example =
    remove_money-total purse 75 (omega arith, (omega arith, (omega arith, tt)))

-- Too little money: all of it goes, and the answer is true.
too_little : remove_money (some purse) 1000 ≡ (true, ([], []))
unfolding remove_money money_map take_coins split_stack
too_little = refl
