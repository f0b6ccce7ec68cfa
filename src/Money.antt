-- ===== src/Money.antt =====
-- src/game.cpp, addMoney and removeMoney, with Item::getWorth of src/item.cpp. Money is uint64_t, a worth
-- is uint32_t. An item of a stack is its kind and its count; where internalAddItem puts a new stack,
-- the cylinder or its tile, is left open.
mod Tests
pub mod Added
pub mod Removed
use dark_global_12_x.Base.{
  ℕ, zero, suc, ◌+◌, ◌-◌, ◌*◌, ◌/◌, ◌%◌, Bool, true, false, Option, none, some, List, [], ◌∷◌, ◌++◌,
  ltb, ◌==◌, if◌then◌else◌,
}
use dark_global_12_x.Base.Words.{u8_mod, u16_mod, u32_mod, u64_mod}

-- ITEM_GOLD_COIN, ITEM_PLATINUM_COIN, ITEM_CRYSTAL_COIN and the others.
pub data Kind : Type 0 where
  gold_coin platinum_coin crystal_coin other_item : Kind

pub record Stack : Type 0 where
  pub kind : Kind
  pub count : ℕ

-- Item::getWorth
abbrev pub worth_of : Kind → ℕ
worth_of gold_coin = 1
worth_of platinum_coin = 100
worth_of crystal_coin = 10000
worth_of other_item = 0

abbrev pub get_worth : Stack → ℕ
get_worth s = s.count * worth_of s.kind % u32_mod

-- Item::CreateItem: the count of a new item is 1 where none is given, and has 8 bits.
abbrev pub new_stack : Kind → ℕ → List Stack
new_stack k n = record { kind = k; count = if n == 0 then 1 else n % u8_mod } ∷ []

-- The loop that makes stacks of 100 at most, on fuel.
unfoldable pub crystal_stacks : ℕ → ℕ → List Stack
crystal_stacks zero coins = []
crystal_stacks (suc fuel) coins =
    let count = if ltb coins 100 then coins else 100 in
    let rest = crystal_stacks fuel (coins - count) in
    if ltb 0 coins then new_stack crystal_coin count ++ rest else []

-- Game::addMoney, as the stacks that it makes: `crystalCoins * 10000` is a product of 32 bits.
unfoldable pub add_money : ℕ → List Stack
unfolding crystal_stacks
add_money money =
    if money == 0
    then []
    else let crystal_coins = money / 10000 % u32_mod in
      let left = (money + u64_mod - crystal_coins * 10000 % u32_mod) % u64_mod in
      let platinum_coins = left / 100 % u16_mod in
      let rest = left - platinum_coins * 100 in
      crystal_stacks (suc crystal_coins) crystal_coins
      ++ ((if platinum_coins == 0 then [] else new_stack platinum_coin platinum_coins)
          ++ (if rest == 0 then [] else new_stack gold_coin (rest % u16_mod)))

-- moneyMap, a multimap from worths: an entry goes behind those that are worth as much.
abbrev pub emplace : Stack → List Stack → List Stack
emplace s [] = s ∷ []
emplace s (t ∷ ts) = if ltb (get_worth s) (get_worth t) then s ∷ t ∷ ts else t ∷ emplace s ts

unfoldable pub money_map : List Stack → List Stack → List Stack
money_map [] entries = entries
money_map (s ∷ ss) entries = money_map ss (if get_worth s == 0 then entries else emplace s entries)

-- std::ceil of the quotient.
abbrev pub ceil_div : ℕ → ℕ → ℕ
ceil_div n d = (n + d - 1) / d

-- An entry that is worth more than what is left to pay is split.
unfoldable pub split_stack : ℕ → Stack → List Stack → List Stack × List Stack
unfolding add_money
split_stack money s ss =
    let worth = get_worth s / s.count in
    let remove_count = ceil_div money worth in
    (
      record s { count = s.count - remove_count } ∷ ss,
      add_money (worth * remove_count % u32_mod - money),
    )

-- The loop over moneyMap: what is left of its stacks, and the change.
unfoldable pub take_coins : ℕ → List Stack → List Stack × List Stack
unfolding split_stack
take_coins money [] = ([], [])
take_coins money (s ∷ ss) =
    let rest = take_coins (money - get_worth s) ss in
    if ltb (get_worth s) money
    then rest
    else if ltb money (get_worth s)
    then split_stack money s ss
    else (ss, [])

-- Game::removeMoney, on the items in the cylinder and its containers in the order in which they are met:
-- the answer, the coins that are left and the change.
unfoldable pub remove_money : Option (List Stack) → ℕ → Bool × (List Stack × List Stack)
unfolding take_coins money_map
remove_money none money = (false, ([], []))
remove_money (some items) money =
    if money == 0
    then (true, (money_map items [], []))
    else (true, take_coins money (money_map items []))
