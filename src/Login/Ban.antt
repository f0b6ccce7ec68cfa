-- ===== src/Login/Ban.antt =====
-- Ban::acceptConnection of src/ban.cpp: connection attempts of each address are limited. The lock
-- makes a call one step; the time is an argument, in milliseconds.
pub mod Limits
pub mod Patient
use dark_global_12_x.Base.{
  ℕ, ◌+◌, ◌-◌, ◌%◌, ◌^◌, Bool, true, false, ◌||◌, Option, none, some, List, [], ◌∷◌, ltb, leb, ◌==◌,
  if◌then◌else◌,
}
use dark_global_12_x.Base.Words.{u32_mod, u64_mod}

pub record ConnectBlock : Type 0 where
  pub last_attempt : ℕ
  pub block_time : ℕ
  pub count : ℕ

-- std::map<uint32_t, ConnectBlock>
abbrev pub IpConnectMap : Type 0
IpConnectMap = List (ℕ × ConnectBlock)

unfoldable pub find : ℕ → IpConnectMap → Option ConnectBlock
find ip [] = none
find ip ((k, b) ∷ m) = if k == ip then some b else find ip m

-- emplace of a missing key, or a write through the iterator of a found one.
unfoldable pub store : ℕ → ConnectBlock → IpConnectMap → IpConnectMap
store ip b [] = (ip, b) ∷ []
store ip b ((k, c) ∷ m) = if k == ip then (ip, b) ∷ m else (k, c) ∷ store ip b m

-- int64_t timeDiff = now - last, a difference of uint64_t, compared with a small limit.
unfoldable pub diff_le : ℕ → ℕ → ℕ → Bool
diff_le limit now last = let d = (now + u64_mod - last) % u64_mod in leb d limit || leb (2 ^ 63) d

-- The branches on a block that is there: the new block and the answer.
unfoldable pub try_again : ℕ → ConnectBlock → ConnectBlock × Bool
try_again now b =
    if ltb now b.block_time
    then (record b { block_time = (b.block_time + 250) % u64_mod }, false)
    else if diff_le 5000 now b.last_attempt
    then (let count = (b.count + 1) % u32_mod in
        if ltb 5 count
        then (if diff_le 500 now b.last_attempt
            then (
              record { last_attempt = now; block_time = (now + 3000) % u64_mod; count = 0 },
              false,
            )
            else (record b { last_attempt = now; count = 0 }, true))
        else (record b { last_attempt = now; count = count }, true))
    else (record b { last_attempt = now; count = 1 }, true)

abbrev pub answer : ℕ → Option ConnectBlock → ℕ → ConnectBlock × Bool
answer ip none now = (record { last_attempt = now; block_time = 0; count = 1 }, true)
answer ip (some b) now = try_again now b

unfoldable pub accept_connection : ℕ → ℕ → IpConnectMap → IpConnectMap × Bool
accept_connection ip now m =
    let (b, accepted) = answer ip (find ip m) now in (store ip b m, accepted)

-- Attempts of one address at the given times: the answers.
unfoldable pub attempts : ℕ → List ℕ → IpConnectMap → IpConnectMap × List Bool
attempts ip [] m = (m, [])
attempts ip (now ∷ times) m =
    let (m1, accepted) = accept_connection ip now m in
    let (m2, rest) = attempts ip times m1 in (m2, accepted ∷ rest)
