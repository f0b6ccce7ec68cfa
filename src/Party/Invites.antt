-- ===== src/Party/Invites.antt =====
-- The request of src/game.cpp to invite a player, also where it founds a party.
use dark_global_12_x.Base.{
  ℕ, ◌≡◌, refl, ap, ◌∙◌, false, not, ◌||◌, Option, none, some, [], arith, ◌==◌, if◌then◌else◌,
  contains, Bool-cases, inl, inr,
}
use dark_global_12_x.Party.World.{Party, World, is_party, set_party, store_party}
use dark_global_12_x.Party.Shared.{Env}
use dark_global_12_x.Party.Ops.{Events, create}
use dark_global_12_x.Party.Game.{
  get_party, at_pointer, tagged, player_invite_to_party, has_party, is_inviting, invite_into,
}
use dark_global_12_x.Party.Invariant.{Inv, in_party, invited_in}
use dark_global_12_x.Party.Requests.{Leads, get_party-Leads}
use dark_global_12_x.Party.Keep.Grow.{invite_player-Inv}

abbrev new_party : ℕ → Party
new_party x = record {
  leader = x;
  members = [];
  invites = [];
  ticks = [];
  shared_active = false;
  shared_enabled = false;
}

module _ (fresh x : ℕ) (w : World) (inv : Inv w) (unused : w.party fresh ≡ none)
    (free : (w.player x).party ≡ none) where
  abbrev stored : World
  stored = store_party fresh (some (new_party x)) w

  created-party :
      (j : ℕ) → (create fresh x w).party j ≡ (if fresh == j then some (new_party x) else w.party j)
  unfolding create set_party store_party
  created-party j = refl

  created-role :
      (y j : ℕ)
      → is_party ((create fresh x w).player y).party j
        ≡ (if x == y then fresh == j else is_party (w.player y).party j)
  unfolding create set_party store_party
  created-role y j = ground arith

  created-pending :
      (y j : ℕ)
      → contains j ((create fresh x w).player y).invitations ≡ contains j (w.player y).invitations
  unfolding create set_party store_party
  created-pending y j = ground arith

  create-Inv : Inv (create fresh x w)
  create-Inv = record {
    role = λ y j. ground (
      arith,
      created-role y j,
      created-party j,
      inv.role y j,
      inv.role y fresh,
      ap (in_party y) unused,
      ap (λ (o : Option ℕ). is_party o j) free,
    );
    pending = λ y j. ground (
      arith,
      created-pending y j,
      created-party j,
      inv.pending y j,
      inv.pending y fresh,
      ap (invited_in y) unused,
    );
    sound = λ j. elim (Bool-cases (fresh == j)) [
      | inl here ↦ rw (created-party j, here) (refl, tt, tt)
      | inr there ↦ rw (created-party j, there) (inv.sound j)
    ];
  }

tagged-none : (id : ℕ) (o : Option Party) → tagged id o ≡ none → o ≡ none
tagged-none id none h = refl
tagged-none id (some p) h = absurd (ground arith)

-- A pointer that leads nowhere is null: there are no dangling pointers.
pointer_null :
    (w : World) (x : ℕ) (o : Option ℕ)
    → Inv w
    → (w.player x).party ≡ o
    → at_pointer o w ≡ none
    → o ≡ none
pointer_null w x none inv h e = refl
pointer_null w x (some id) inv h e =
    let lost = tagged-none id (w.party id) e in
    absurd
      (ground (arith, inv.role x id, ap (in_party x) lost, ap (λ (o : Option ℕ). is_party o id) h))

module _ (events : Events) (env : Env) (w : World) (inv : Inv w) where
  invite_into-Inv :
      (fresh x y : ℕ) (o : Option (ℕ × Party))
      → w.party fresh ≡ none
      → (o ≡ none → (w.player x).party ≡ none)
      → Leads w x o
      → Inv (invite_into events env fresh x y o w)
  invite_into-Inv fresh x y none unused free l =
      invite_player-Inv events env (create fresh x w) fresh y (new_party x)
        (create-Inv fresh x w inv unused (free refl))
        (created-party fresh x w inv unused (free refl) fresh ∙ ground arith)
  invite_into-Inv fresh x y (some (id, p)) unused free l = elim (Bool-cases (p.leader == x)) [
    | inr other ↦ rw other inv
    | inl lead ↦ rw lead (invite_player-Inv events env w id y p inv l.1)
  ]

  pub player_invite_to_party-Inv :
      (fresh x y : ℕ) → w.party fresh ≡ none → Inv (player_invite_to_party events env fresh x y w)
  unfolding player_invite_to_party get_party
  player_invite_to_party-Inv fresh x y unused = elim (Bool-cases (x == y)) [
    | inl same ↦ rw (player_invite_to_party, same) inv
    | inr apart ↦ elim (Bool-cases (w.online x)) [
      | inr off ↦ rw (player_invite_to_party, apart, off) inv
      | inl on ↦ elim (Bool-cases (not (w.online y) || is_inviting y x w)) [
        | inl refused ↦ rw (player_invite_to_party, apart, on, refused) inv
        | inr allowed ↦ elim (Bool-cases (has_party (w.player y).party)) [
          | inl busy ↦ rw (player_invite_to_party, apart, on, allowed, busy) inv
          | inr free ↦
              rw (player_invite_to_party, apart, on, allowed, free)
                (invite_into-Inv fresh x y (get_party x w) unused
                  (λ e. pointer_null w x (w.player x).party inv refl e) (get_party-Leads w x))
        ]
      ]
    ]
  ]
