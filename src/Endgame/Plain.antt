-- ===== src/Endgame/Plain.antt =====
-- The recursion behind the search of strategy/endgame.py, with no memo and no budget, and the number of
-- states that the search visits at most.
use p2p_thief.Prelude.{ℕ, zero, suc, ◌+◌, ◌*◌, Bool, true, not, ◌&&◌, ◌||◌}
use p2p_thief.Prelude.{List, [], ◌∷◌, all, any, ◌==◌, leb}
use p2p_thief.Prelude.Int.{ℤ, pos, ◌-ℤ◌, ltb_ℤ}
use p2p_thief.Primitives.{Cell, cell_equality, Move, applied_to}
use p2p_thief.Board.{Board, in_bounds}
use p2p_thief.Endgame.{View, is_passable, is_surrounded, with_wall, all_moves, is_stay, wall_cells}

-- Whether the thief outlasts the turns that remain, given the thief, the cop, the walls, the quota.
abbrev pub Verdicts : Type 0
Verdicts = Cell → Cell → List Cell → ℤ → Bool

module _ (board : Board) where
  abbrev pub view_of : List Cell → View
  view_of extra = record { board = board; extra = extra }

  -- A step of the cop is impossible, or it misses the thief, who then outlasts what remains.
  abbrev pub move_answered : Verdicts → Cell → Cell → List Cell → ℤ → Move → Bool
  move_answered deeper landed cop extra quota m =
      let target = applied_to m cop in
      not (is_stay m) && not (is_passable (view_of extra) target)
      || not (target == landed) && deeper landed target extra quota

  -- A wall is impossible, or it neither hits nor encloses the thief, who then outlasts what remains.
  abbrev pub wall_answered : Verdicts → Cell → Cell → List Cell → ℤ → Cell → Bool
  wall_answered deeper landed cop extra quota wall =
      let walled = with_wall wall extra in
      not (in_bounds board wall && is_passable (view_of extra) wall)
      || not (wall == landed)
        && (not (is_surrounded (view_of walled) landed)
            && deeper landed cop walled (quota -ℤ pos 1))

  -- The thief's move is possible and safe, and every answer of the cop is answered.
  unfoldable pub move_lasts : Verdicts → ℕ → Move → Verdicts
  move_lasts deeper remaining m thief cop extra quota =
      let landed = applied_to m thief in
      not (not (is_stay m) && not (is_passable (view_of extra) landed))
      && (not (landed == cop || is_surrounded (view_of extra) landed)
          && (leb remaining 1
              || all (move_answered deeper landed cop extra quota) all_moves
                && (not (ltb_ℤ (pos 0) quota)
                    || all (wall_answered deeper landed cop extra quota) (wall_cells cop))))

  unfoldable pub lasts : ℕ → Verdicts
  lasts zero thief cop extra quota = true
  lasts (suc n) thief cop extra quota =
      any (λ m. move_lasts (lasts n) (suc n) m thief cop extra quota) all_moves

-- A cost for each member of a list.
abbrev pub total {ℓ} : {A : Type ℓ} → List A → ℕ → ℕ
total [] cost = 0
total (_ ∷ xs) cost = cost + total xs cost

-- The states behind one move: five steps and five walls of the cop.
abbrev pub move_cost : ℕ → ℕ
move_cost deeper = 1 + (5 * deeper + 5 * deeper)

unfoldable pub cost : ℕ → ℕ
cost zero = 0
cost (suc n) = 5 * move_cost (cost n)
