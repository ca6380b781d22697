-- ===== src/Rules/Laws.antt =====
-- The law of barriers, read off a placement that was allowed.
use p2p_thief.Prelude.{◌≤◌, ◌≡◌, ok, true, false, length, arith}
use p2p_thief.Prelude.Int.{pos, ◌<ℤ◌}
use p2p_thief.Primitives.{Cell}
use p2p_thief.Board.{Board, in_bounds, is_barrier}
use p2p_thief.Rules.{RuleSet, distance, validate_barrier_placement}

pub validate_barrier_placement-ok :
    (b : Board) (rules : RuleSet) (cop target : Cell)
    → validate_barrier_placement b rules cop target ≡ ok tt
    → (pos (length b.barriers) <ℤ rules.max_barriers)
      × (distance cop target ≤ 1)
      × (in_bounds b target ≡ true)
      × (is_barrier b target ≡ false)
unfolding validate_barrier_placement
validate_barrier_placement-ok b rules cop target h = ground arith
