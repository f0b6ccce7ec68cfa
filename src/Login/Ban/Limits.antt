-- ===== src/Login/Ban/Limits.antt =====
-- Whom the limiter of src/ban.cpp accepts and refuses.
use dark_global_12_x.Base.{
  ℕ, suc, ◌+◌, ◌%◌, ◌^◌, ◌≤◌, ◌<◌, ◌≡◌, ◌≢◌, refl, sym, subst, ◌*◌, ◌∙◌, ap, Bool, true, false,
  none, some, List, [], ◌∷◌, arith, length, replicate, ◌==◌, if◌then◌else◌,
}
use dark_global_12_x.Base.Words.{u64_mod}
use dark_global_12_x.Login.Ban.{
  ConnectBlock, IpConnectMap, find, store, diff_le, try_again, answer, accept_connection, attempts,
}

pub find-store :
    (ip j : ℕ) (b : ConnectBlock) (m : IpConnectMap)
    → find j (store ip b m) ≡ (if ip == j then some b else find j m)
unfolding find store
find-store ip j b [] = refl
find-store ip j b ((k, c) ∷ m) = ground (arith, find-store ip j b m)

-- An attempt of one address changes nothing for another: its next answer is the same.
pub accept_connection-isolated :
    (ip j now later : ℕ) (m : IpConnectMap)
    → ip ≢ j
    → (find j (accept_connection ip now m).0 ≡ find j m)
      × ((accept_connection j later (accept_connection ip now m).0).1
          ≡ (accept_connection j later m).1)
unfolding accept_connection
accept_connection-isolated ip j now later m ne =
    let other : find j (store ip (answer ip (find ip m) now).0 m) ≡ find j m =
      ground (arith, find-store ip j (answer ip (find ip m) now).0 m) in
    (other, rw other)

abbrev pub all_accepted : List ℕ → List Bool
all_accepted [] = []
all_accepted (t ∷ times) = true ∷ all_accepted times

pub find-store_self :
    (ip : ℕ) (b : ConnectBlock) (m : IpConnectMap) → find ip (store ip b m) ≡ some b
find-store_self ip b m = ground (arith, find-store ip ip b m)

-- Attempts half a second apart at most.
abbrev pub Fast : ℕ → List ℕ → Type 0
Fast last [] = Unit {0}
Fast last (now ∷ times) = (last ≤ now) × (now ≤ last + 500) × (now < 2 ^ 62) × Fast now times

abbrev pub last_of : ℕ → List ℕ → ℕ
last_of last [] = last
last_of last (now ∷ times) = last_of now times

try_again-fast :
    (now : ℕ) (b : ConnectBlock)
    → b.block_time ≤ now
    → b.last_attempt ≤ now
    → now ≤ b.last_attempt + 500
    → now < 2 ^ 62
    → b.count < 5
    → try_again now b ≡ (record b { last_attempt = now; count = b.count + 1 }, true)
unfolding try_again diff_le
try_again-fast now b old order gap small few = ground arith

try_again-sixth :
    (now : ℕ) (b : ConnectBlock)
    → b.block_time ≤ now
    → b.last_attempt ≤ now
    → now ≤ b.last_attempt + 500
    → now < 2 ^ 62
    → b.count ≡ 5
    → try_again now b ≡ (record { last_attempt = now; block_time = now + 3000; count = 0 }, false)
unfolding try_again diff_le
try_again-sixth now b old order gap small five = ground arith

try_again-blocked :
    (now : ℕ) (b : ConnectBlock)
    → now < b.block_time
    → try_again now b ≡ (record b { block_time = (b.block_time + 250) % u64_mod }, false)
unfolding try_again
try_again-blocked now b h = ground arith

attempts-Fast :
    (ip : ℕ) (b : ConnectBlock) (times : List ℕ) (m : IpConnectMap)
    → find ip m ≡ some b
    → b.block_time ≤ b.last_attempt
    → b.count + length times ≤ 5
    → Fast b.last_attempt times
    → ((attempts ip times m).1 ≡ all_accepted times)
      × (find ip (attempts ip times m).0
          ≡ some (record b {
            last_attempt = last_of b.last_attempt times;
            count = b.count + length times;
          }))
unfolding attempts accept_connection
attempts-Fast ip b [] m e old few h =
    let zero_more : b.count ≡ b.count + 0 = omega arith in
    (refl, e ∙ ap some (λ i. record b { count = zero_more i }))
attempts-Fast ip b (now ∷ times) m e old few h =
    let b' : ConnectBlock = record b { last_attempt = now; count = b.count + 1 } in
    let rest =
      attempts-Fast ip b' times (store ip b' m) (find-store_self ip b' m) (omega arith)
        (omega arith) h.3 in
    let one_more : b.count + 1 + length times ≡ b.count + suc (length times) = omega arith in
    rw (e, try_again-fast now b (omega arith) h.0 h.1 h.2 (omega arith), rest.0)
      (
        refl,
        rest.1 ∙ ap some (λ i. record b { last_attempt = last_of now times; count = one_more i }),
      )

all_accepted-replicate : (times : List ℕ) → all_accepted times ≡ replicate (length times) true
all_accepted-replicate [] = refl
all_accepted-replicate (t ∷ times) = ap (◌∷◌ true) (all_accepted-replicate times)

accept_connection-known :
    (ip now : ℕ) (b : ConnectBlock) (m : IpConnectMap)
    → find ip m ≡ some b
    → accept_connection ip now m ≡ (store ip (try_again now b).0 m, (try_again now b).1)
unfolding accept_connection
accept_connection-known ip now b m e = rw e

-- Attempts during a block, which each of them makes 250 milliseconds longer.
abbrev pub During : ℕ → List ℕ → Type 0
During until [] = Unit {0}
During until (now ∷ times) = (now < until) × During (until + 250) times

abbrev pub all_refused : List ℕ → List Bool
all_refused [] = []
all_refused (t ∷ times) = false ∷ all_refused times

attempts-During :
    (ip : ℕ) (b : ConnectBlock) (times : List ℕ) (m : IpConnectMap)
    → find ip m ≡ some b
    → b.block_time + 250 * length times < u64_mod
    → During b.block_time times
    → (attempts ip times m).1 ≡ all_refused times
unfolding attempts
attempts-During ip b [] m e fits h = refl
attempts-During ip b (now ∷ times) m e fits h =
    let b' : ConnectBlock = record b { block_time = (b.block_time + 250) % u64_mod } in
    let no_wrap : (b.block_time + 250) % u64_mod ≡ b.block_time + 250 = omega (arith, fits) in
    let rest =
      attempts-During ip b' times (store ip b' m) (find-store_self ip b' m)
        (omega (arith, fits, no_wrap))
        (subst (λ (until : ℕ). During until times) (sym no_wrap) h.1) in
    rw (accept_connection-known ip now b m e, try_again-blocked now b h.0, rest) refl

-- A sixth attempt in a row, and those during the block that it starts.
blocked :
    (ip sixth : ℕ) (later : List ℕ) (b : ConnectBlock) (m : IpConnectMap)
    → find ip m ≡ some b
    → b.block_time ≡ 0
    → b.count ≡ 5
    → Fast b.last_attempt (sixth ∷ [])
    → sixth + 3000 + 250 * length later < u64_mod
    → During (sixth + 3000) later
    → ((accept_connection ip sixth m).1 ≡ false)
      × ((attempts ip later (accept_connection ip sixth m).0).1 ≡ all_refused later)
blocked ip sixth later b m e never five next fits soon =
    let b' : ConnectBlock = record { last_attempt = sixth; block_time = sixth + 3000; count = 0 } in
    let refused = try_again-sixth sixth b (omega arith) next.0 next.1 next.2 five in
    rw (accept_connection-known ip sixth b m e, refused)
      (refl, attempts-During ip b' later (store ip b' m) (find-store_self ip b' m) fits soon)

-- A flood from an address that is not known yet: of attempts half a second apart at most, the first
-- five are accepted and the sixth is refused, and so are all attempts of the three seconds that follow.
-- Each of them makes the block 250 milliseconds longer, and those that come before it ends are refused
-- too. Conditions: the time stays below 2 ^ 62, and the end of the block fits into 64 bits.
pub attempts_flood :
    (ip now sixth : ℕ) (times later : List ℕ) (m : IpConnectMap)
    → find ip m ≡ none
    → length times ≡ 4
    → Fast now times
    → Fast (last_of now times) (sixth ∷ [])
    → sixth + 3000 + 250 * length later < u64_mod
    → During (sixth + 3000) later
    → let (m5, first) = attempts ip (now ∷ times) m in
      let (m6, answer6) = accept_connection ip sixth m5 in
      (first ≡ true ∷ true ∷ true ∷ true ∷ true ∷ [])
      × (answer6 ≡ false)
      × ((attempts ip later m6).1 ≡ all_refused later)
unfolding attempts accept_connection
attempts_flood ip now sixth times later m e four fast next fits soon =
    let b : ConnectBlock = record { last_attempt = now; block_time = 0; count = 1 } in
    let b5 : ConnectBlock = record {
      last_attempt = last_of now times;
      block_time = 0;
      count = 1 + length times;
    } in
    let (answers, state) =
      attempts-Fast ip b times (store ip b m) (find-store_self ip b m) (omega arith) (omega arith)
        fast in
    let ends =
      blocked ip sixth later b5 (attempts ip times (store ip b m)).0 state refl (omega arith) next
        fits soon in
    rw (e, answers, all_accepted-replicate times, four) (refl, ends.0, ends.1)
