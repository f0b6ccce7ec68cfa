-- ===== src/Base/Lists.antt =====
-- Lists measured and indexed by native numbers, under the library's names, and `All` by recursion.
use Prim.Native.Nat.{ℕ, zero, suc, ◌+◌, ◌-◌, ◌≤◌}
use mathlib.Core.Path.{◌≡◌, refl, ap, ◌∙◌}
use mathlib.Core.List.{List, [], ◌∷◌, ◌++◌}
use mathlib.Core.Option.{Option, none, some}
use native.Mathlib.Omega.{arith}

module _ {ℓ} {A : Type ℓ} where
  abbrev pub length : List A → ℕ
  length [] = 0
  length (x ∷ xs) = suc (length xs)

  abbrev pub get_elem? : List A → ℕ → Option A
  get_elem? [] i = none
  get_elem? (x ∷ xs) zero = some x
  get_elem? (x ∷ xs) (suc i) = get_elem? xs i

  abbrev pub take : ℕ → List A → List A
  take zero xs = []
  take (suc n) [] = []
  take (suc n) (x ∷ xs) = x ∷ take n xs

  abbrev pub drop : ℕ → List A → List A
  drop zero xs = xs
  drop (suc n) [] = []
  drop (suc n) (x ∷ xs) = drop n xs

  abbrev pub replicate : ℕ → A → List A
  replicate zero a = []
  replicate (suc n) a = a ∷ replicate n a

  pub length-append : (xs ys : List A) → length (xs ++ ys) ≡ length xs + length ys
  length-append [] ys = omega arith
  length-append (x ∷ xs) ys = omega (arith, length-append xs ys)

  pub length-replicate : (n : ℕ) (a : A) → length (replicate n a) ≡ n
  length-replicate zero a = refl
  length-replicate (suc n) a = ap suc (length-replicate n a)

  pub take-exact : (k : ℕ) (a b : List A) → length a ≡ k → take k (a ++ b) ≡ a
  take-exact zero [] b h = refl
  take-exact zero (x ∷ a) b h = absurd (omega (arith, h))
  take-exact (suc k) [] b h = absurd (omega (arith, h))
  take-exact (suc k) (x ∷ a) b h = ap (λ (q : List A). x ∷ q) (take-exact k a b (omega (arith, h)))

  pub drop-exact : (k : ℕ) (a b : List A) → length a ≡ k → drop k (a ++ b) ≡ b
  drop-exact zero [] b h = refl
  drop-exact zero (x ∷ a) b h = absurd (omega (arith, h))
  drop-exact (suc k) [] b h = absurd (omega (arith, h))
  drop-exact (suc k) (x ∷ a) b h = drop-exact k a b (omega (arith, h))

  pub take-drop : (k : ℕ) (a : List A) → take k a ++ drop k a ≡ a
  take-drop zero a = refl
  take-drop (suc k) [] = refl
  take-drop (suc k) (x ∷ a) = ap (λ (q : List A). x ∷ q) (take-drop k a)

  pub take_within : (k : ℕ) (a b : List A) → k ≤ length a → take k (a ++ b) ≡ take k a
  take_within zero a b h = refl
  take_within (suc k) [] b h = absurd (omega (arith, h))
  take_within (suc k) (x ∷ a) b h =
      ap (λ (q : List A). x ∷ q) (take_within k a b (omega (arith, h)))

  pub take_past :
      (k : ℕ) (a b : List A) → length a ≤ k → take k (a ++ b) ≡ a ++ take (k - length a) b
  take_past k [] b h = let all : k ≡ k - 0 = omega arith in ap (λ (n : ℕ). take n b) all
  take_past zero (x ∷ a) b h = absurd (omega (arith, h))
  take_past (suc k) (x ∷ a) b h =
      let rest : k - length a ≡ suc k - suc (length a) = omega arith in
      ap (λ (q : List A). x ∷ q)
        (take_past k a b (omega (arith, h)) ∙ ap (λ (n : ℕ). a ++ take n b) rest)

  pub length-take_le : (k : ℕ) (a : List A) → length (take k a) ≤ k
  length-take_le zero a = omega arith
  length-take_le (suc k) [] = omega arith
  length-take_le (suc k) (x ∷ a) = omega (arith, length-take_le k a)

abbrev pub All {ℓ κ} : {A : Type ℓ} → (A → Type κ) → List A → Type κ
All P [] = Unit
All P (x ∷ xs) = P x × All P xs

pub All-append {ℓ κ} :
    {A : Type ℓ} (P : A → Type κ) (xs ys : List A) → All P xs → All P ys → All P (xs ++ ys)
All-append P [] ys hx hy = hy
All-append P (x ∷ xs) ys hx hy = (hx.0, All-append P xs ys hx.1 hy)

pub All-mono {ℓ κ ν} :
    {A : Type ℓ} (P : A → Type κ) (Q : A → Type ν)
    → ((a : A) → P a → Q a)
    → (xs : List A) → All P xs
    → All Q xs
All-mono P Q f [] h = tt
All-mono P Q f (x ∷ xs) h = (f x h.0, All-mono P Q f xs h.1)
