-- ===== src/Position/Tests.antt =====
-- Applications of the theorems on src/position.h.
use dark_global_12_x.Base.{◌≡◌, ◌↔◌, ◌⊎◌, ◌||◌, true, not}
use dark_global_12_x.Position.{Position, less, equal, unequal, greater}
use dark_global_12_x.Position.Order.{less_total}

abbrev temple : Position
temple = record { x = 65535; y = 200; z = 7 }

abbrev depot : Position
depot = record { x = 1; y = 210; z = 7 }

less_total_example :
    ((less temple depot ≡ true) ⊎ (less depot temple ≡ true) ⊎ (temple ≡ depot))
    × ((equal temple depot ≡ true) ↔ (temple ≡ depot))
    × (unequal temple depot ≡ not (equal temple depot))
    × (greater temple depot ≡ (less depot temple || equal temple depot))
less_total_example = less_total temple depot
