-- ===== src/Base/Keys.antt =====
-- Finite sets of numbers, as the lists that `std::unordered_set` and pointer vectors stand for.
use Prim.Native.Nat.{ℕ}
use mathlib.Core.Path.{◌≡◌, refl}
use mathlib.Core.Logic.{◌≢◌}
use mathlib.Core.Bool.{Bool, true, false, ◌&&◌, ◌||◌}
use mathlib.Core.List.{List, [], ◌∷◌, ◌++◌}
use native.Mathlib.Omega.{arith}
use dark_global_12_x.Base.Tests.{◌==◌, if◌then◌else◌}

-- std::find(...) != end
abbrev pub contains : ℕ → List ℕ → Bool
contains k [] = false
contains k (x ∷ xs) = x == k || contains k xs

-- vector::erase of the first match of std::find
unfoldable pub erase_first : ℕ → List ℕ → List ℕ
erase_first k [] = []
erase_first k (x ∷ xs) = if x == k then xs else x ∷ erase_first k xs

-- list::remove, set::erase: every match goes
unfoldable pub erase_all : ℕ → List ℕ → List ℕ
erase_all k [] = []
erase_all k (x ∷ xs) = let rest = erase_all k xs in if x == k then rest else x ∷ rest

-- set::insert
unfoldable pub insert_key : ℕ → List ℕ → List ℕ
insert_key k xs = if contains k xs then xs else k ∷ xs

-- Strings are lists of characters.
abbrev pub same_name : List ℕ → List ℕ → Bool
same_name [] [] = true
same_name [] (d ∷ t) = false
same_name (c ∷ s) [] = false
same_name (c ∷ s) (d ∷ t) = c == d && same_name s t

pub contains-insert_key :
    (k j : ℕ) (xs : List ℕ) → contains j (insert_key k xs) ≡ (k == j || contains j xs)
unfolding insert_key
contains-insert_key k j xs = ground arith

pub contains-erase_all :
    (k j : ℕ) (xs : List ℕ)
    → contains j (erase_all k xs) ≡ (if k == j then false else contains j xs)
unfolding erase_all
contains-erase_all k j [] = ground arith
contains-erase_all k j (x ∷ xs) = ground (arith, contains-erase_all k j xs)

pub contains-append :
    (j : ℕ) (xs ys : List ℕ) → contains j (xs ++ ys) ≡ (contains j xs || contains j ys)
contains-append j [] ys = refl
contains-append j (x ∷ xs) ys = ground (arith, contains-append j xs ys)

-- No key occurs twice.
abbrev pub Distinct : List ℕ → Type 0
Distinct [] = Unit {0}
Distinct (x ∷ xs) = (contains x xs ≡ false) × Distinct xs

pub contains-erase_first :
    (k j : ℕ) (xs : List ℕ)
    → Distinct xs
    → contains j (erase_first k xs) ≡ (if k == j then false else contains j xs)
unfolding erase_first
contains-erase_first k j [] d = ground arith
contains-erase_first k j (x ∷ xs) d = ground (arith, contains-erase_first k j xs d.1)

pub contains-erase_first_ne :
    (k j : ℕ) (xs : List ℕ) → k ≢ j → contains j (erase_first k xs) ≡ contains j xs
unfolding erase_first
contains-erase_first_ne k j [] n = refl
contains-erase_first_ne k j (x ∷ xs) n = ground (arith, contains-erase_first_ne k j xs n)

pub erase_first-Distinct : (k : ℕ) (xs : List ℕ) → Distinct xs → Distinct (erase_first k xs)
unfolding erase_first
erase_first-Distinct k [] d = tt
erase_first-Distinct k (x ∷ xs) d =
    ground (arith, erase_first-Distinct k xs d.1, contains-erase_first k x xs d.1)

pub append-Distinct :
    (k : ℕ) (xs : List ℕ) → contains k xs ≡ false → Distinct xs → Distinct (xs ++ k ∷ [])
append-Distinct k [] h d = (refl, tt)
append-Distinct k (x ∷ xs) h d = ground (arith, contains-append x xs (k ∷ []), append-Distinct k xs)
