-- ===== src/Rules.antt =====
-- src/p2p_thief/domain/rules.py: the rule set, the law of barriers, and the verdict of a turn.
pub mod Laws
use p2p_thief.Prelude.{ℕ, ◌+◌, ◌≡◌, List, Bool, not, ◌||◌, arith, ltb, leb, length, ◌==◌}
use p2p_thief.Prelude.{Result, ok, err, value_error, illegal_barrier_error}
use p2p_thief.Prelude.{raise_if, ◌>>=◌, ◌>>◌, if◌then◌else◌}
use p2p_thief.Prelude.Int.{ℤ, pos, leb_ℤ, ltb_ℤ, ◌-ℤ◌, abs}
use p2p_thief.Primitives.{Cell, cell_equality, Outcome, ongoing, capture, survival}
use p2p_thief.Board.{Board, in_bounds, is_barrier, is_surrounded}

pub record RuleSet : Type 0 where
  pub max_barriers : ℤ
  pub max_moves : ℤ
  pub survival_threshold : ℤ

-- `RuleSet.__post_init__`
unfoldable pub post_init : RuleSet → Result RuleSet
post_init r = do
  raise_if (ltb_ℤ r.max_barriers (pos 0)) value_error
  raise_if (ltb_ℤ r.max_moves (pos 1) || ltb_ℤ r.survival_threshold (pos 1)) value_error
  ok r

-- `abs(cop[0] - target[0]) + abs(cop[1] - target[1])`
abbrev pub distance : Cell → Cell → ℕ
distance a b = abs (a.0 -ℤ b.0) + abs (a.1 -ℤ b.1)

unfoldable pub validate_barrier_placement : Board → RuleSet → Cell → Cell → Result (Unit {0})
validate_barrier_placement board rules cop_cell target = do
  raise_if (leb_ℤ rules.max_barriers (pos (length board.barriers))) illegal_barrier_error
  raise_if (ltb 1 (distance cop_cell target)) illegal_barrier_error
  raise_if (not (in_bounds board target)) illegal_barrier_error
  raise_if (is_barrier board target) illegal_barrier_error

abbrev pub landing_capture : Cell → Cell → Bool
landing_capture cop_cell thief_cell = cop_cell == thief_cell

abbrev pub barrier_capture : Cell → Cell → Bool
barrier_capture barrier_cell thief_cell = barrier_cell == thief_cell

abbrev pub surrounded_capture : Board → Cell → Bool
surrounded_capture board thief_cell = is_surrounded board thief_cell

unfoldable pub outcome_after_full_turn : Board → RuleSet → Cell → Cell → ℕ → Outcome
outcome_after_full_turn board rules cop_cell thief_cell turns_completed =
    if landing_capture cop_cell thief_cell || surrounded_capture board thief_cell
    then capture
    else if leb_ℤ rules.survival_threshold (pos turns_completed)
        || leb_ℤ rules.max_moves (pos turns_completed)
    then survival
    else ongoing
