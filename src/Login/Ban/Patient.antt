-- ===== src/Login/Ban/Patient.antt =====
-- A client that src/ban.cpp never refuses.
use dark_global_12_x.Base.{ℕ, ◌+◌, ◌^◌, ◌≤◌, ◌<◌, ◌≡◌, refl, true, none, some, List, [], ◌∷◌, arith}
use dark_global_12_x.Login.Ban.{
  ConnectBlock, IpConnectMap, find, store, diff_le, try_again, accept_connection, attempts,
}
use dark_global_12_x.Login.Ban.Limits.{all_accepted, find-store_self}

-- Attempts more than five seconds apart.
abbrev pub Patient : ℕ → List ℕ → Type 0
Patient last [] = Unit {0}
Patient last (now ∷ times) = (last + 5000 < now) × (now < 2 ^ 62) × Patient now times

try_again-patient :
    (now : ℕ) (b : ConnectBlock)
    → b.last_attempt + 5000 < now
    → now < 2 ^ 62
    → b.block_time ≤ now
    → try_again now b ≡ (record b { last_attempt = now; count = 1 }, true)
unfolding try_again diff_le
try_again-patient now b gap small open_ = ground arith

attempts-Patient_known :
    (ip : ℕ) (b : ConnectBlock) (times : List ℕ) (m : IpConnectMap)
    → find ip m ≡ some b
    → b.block_time ≤ b.last_attempt
    → Patient b.last_attempt times
    → (attempts ip times m).1 ≡ all_accepted times
unfolding attempts accept_connection
attempts-Patient_known ip b [] m e old h = refl
attempts-Patient_known ip b (now ∷ times) m e old h =
    let b' : ConnectBlock = record b { last_attempt = now; count = 1 } in
    rw (
      e,
      try_again-patient now b h.0 h.1 (omega arith),
      attempts-Patient_known ip b' times (store ip b' m) (find-store_self ip b' m) (omega arith)
          h.2,
    )

-- A client that is not known yet and leaves more than five seconds between its attempts is never
-- refused, whatever other addresses did before. Condition: the time stays below 2 ^ 62.
pub attempts-Patient :
    (ip now : ℕ) (times : List ℕ) (m : IpConnectMap)
    → find ip m ≡ none
    → Patient now times
    → (attempts ip (now ∷ times) m).1 ≡ all_accepted (now ∷ times)
unfolding attempts accept_connection
attempts-Patient ip now times m e h =
    let b : ConnectBlock = record { last_attempt = now; block_time = 0; count = 1 } in
    rw
      (e, attempts-Patient_known ip b times (store ip b m) (find-store_self ip b m) (omega arith) h)
