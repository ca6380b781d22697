-- ===== src/Primitives.antt =====
-- src/p2p_thief/domain/primitives.py: cells, moves, roles, phases and outcomes.
use p2p_thief.Prelude.{◌≡◌, ◌↔◌, Bool, true, false, ◌&&◌, arith, Equality}
use p2p_thief.Prelude.Int.{ℤ, pos, negsuc, ◌+ℤ◌, eqb_ℤ, eqb_ℤ_iff}

-- (row, col), origin at the top left, rows grow downward.
abbrev pub Cell : Type 0
Cell = ℤ × ℤ

abbrev pub eqb_cell : Cell → Cell → Bool
eqb_cell a b = eqb_ℤ a.0 b.0 && eqb_ℤ a.1 b.1

pub eqb_cell_iff : (a b : Cell) → (eqb_cell a b ≡ true) ↔ (a ≡ b)
eqb_cell_iff a b = (
  ground (arith, eqb_ℤ_iff a.0 b.0, eqb_ℤ_iff a.1 b.1),
  ground (arith, eqb_ℤ_iff a.0 b.0, eqb_ℤ_iff a.1 b.1),
)

instance abbrev pub cell_equality : Equality Cell
cell_equality = record { test = eqb_cell; test_iff = eqb_cell_iff }

pub data Move : Type 0 where
  north south east west stay : Move

-- `Move.value`, which `Move.delta` returns.
abbrev pub delta : Move → Cell
delta north = (negsuc 0, pos 0)
delta south = (pos 1, pos 0)
delta east = (pos 0, pos 1)
delta west = (pos 0, negsuc 0)
delta stay = (pos 0, pos 0)

unfoldable pub applied_to : Move → Cell → Cell
applied_to m cell = (cell.0 +ℤ (delta m).0, cell.1 +ℤ (delta m).1)

pub data Role : Type 0 where
  police thief : Role

abbrev pub rival : Role → Role
rival police = thief
rival thief = police

abbrev pub eqb_role : Role → Role → Bool
eqb_role police police = true
eqb_role thief thief = true
eqb_role _ _ = false

pub eqb_role_iff : (a b : Role) → (eqb_role a b ≡ true) ↔ (a ≡ b)
eqb_role_iff a b = (ground arith, ground arith)

instance abbrev pub role_equality : Equality Role
role_equality = record { test = eqb_role; test_iff = eqb_role_iff }

pub data GamePhase : Type 0 where
  waiting_for_opponent computing_move committing awaiting_reveal verifying : GamePhase
  technical_loss : GamePhase

pub data Outcome : Type 0 where
  ongoing capture survival technical_loss : Outcome

abbrev pub is_ongoing : Outcome → Bool
is_ongoing ongoing = true
is_ongoing _ = false
