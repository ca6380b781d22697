-- ===== src/Tests/Trails.antt =====
-- Runs of the check on transmitted trails.
use p2p_thief.Prelude.{◌≡◌, refl, true, false, arith, contains, passing, flat_map, some, [], ◌∷◌}
use p2p_thief.Prelude.Int.{pos, ◌+ℤ◌, ◌-ℤ◌}
use p2p_thief.Primitives.{Cell, cell_equality, east, south, applied_to}
use p2p_thief.Board.{Board, in_bounds, is_barrier, apply_move}
use p2p_thief.Scent.{delta_at, value_at, update, updated, update_rows, update_row}
use p2p_thief.Scent.Float.{gef}
use p2p_thief.Prelude.{ℕ, zero, suc, ◌<◌, ◌-◌, List, Option}
use p2p_thief.Forensics.Frames.{
  range_from, range_cells, all_of, candidates_of, abs_float, transition_tolerance, entry, obeys_law,
  transition_emitters,
}
use p2p_thief.Forensics.History.{transition_emitters-honest}
use p2p_thief.Pathfind.{grid_cells}
use p2p_thief.Forensics.{kernel_row, kernel_cells, board_cells, credible_cells}
use p2p_thief.Forensics.Honest.{Played, begun, stepped, credible_cells-honest}
use p2p_thief.Tests.Samples.{millionths, blank_field}

abbrev open_board : Board
open_board = record { grid_size = pos 9; barriers = [] }

-- The wall stands where the agent was a turn ago.
abbrev walled_board : Board
walled_board = record { grid_size = pos 9; barriers = (pos 0, pos 0) ∷ [] }

two_steps : Played (pos 9) (pos 0, pos 0) 2 (pos 1, pos 1)
unfolding apply_move in_bounds is_barrier contains applied_to ◌+ℤ◌
two_steps =
    stepped walled_board south (pos 1, pos 1)
      (stepped open_board east (pos 0, pos 1) begun refl refl) refl refl

credible_cells-honest_example :
    contains (pos 3, pos 3) (credible_cells walled_board (some (pos 0, pos 0)) (pos 2) (pos 9))
    ≡ true
unfolding delta_at ◌+ℤ◌ ◌-ℤ◌
credible_cells-honest_example =
    credible_cells-honest millionths walled_board (pos 9) (pos 2) (pos 0, pos 0) (pos 1, pos 1)
      (pos 3, pos 3) 2 (omega arith) two_steps (omega arith) (omega arith) (λ e. omega (arith, e))

far_cell :
    contains (pos 4, pos 1) (credible_cells walled_board (some (pos 0, pos 0)) (pos 1) (pos 9))
    ≡ false
unfolding credible_cells kernel_cells kernel_row board_cells grid_cells contains passing flat_map
    ◌+ℤ◌ ◌-ℤ◌
far_cell = refl

abbrev near_emitter : Cell
near_emitter = (pos 1, pos 1)

blank_square :
    (row col : ℕ)
    → row < 3
    → col < 3
    → (v : ℕ) × (value_at millionths blank_field (pos row, pos col) ≡ some v)
unfolding value_at
blank_square zero zero r c = (0, refl)
blank_square zero (suc zero) r c = (0, refl)
blank_square zero (suc (suc zero)) r c = (0, refl)
blank_square (suc zero) zero r c = (0, refl)
blank_square (suc zero) (suc zero) r c = (0, refl)
blank_square (suc zero) (suc (suc zero)) r c = (0, refl)
blank_square (suc (suc zero)) zero r c = (0, refl)
blank_square (suc (suc zero)) (suc zero) r c = (0, refl)
blank_square (suc (suc zero)) (suc (suc zero)) r c = (0, refl)
blank_square (suc (suc (suc row))) col r c = absurd (omega arith)
blank_square row (suc (suc (suc col))) r c = absurd (omega arith)

within_tolerance :
    (v : ℕ) → gef millionths (transition_tolerance millionths) (abs_float millionths (v - v)) ≡ true
within_tolerance v = ground arith

transition_emitters-honest_example :
    (found : List Cell) × (transition_emitters millionths blank_field.grid
        (update millionths blank_field near_emitter).grid
        open_board
        (pos 3)
        (transition_tolerance millionths)
      ≡ some found)
    × (contains near_emitter found ≡ true)
transition_emitters-honest_example =
    transition_emitters-honest millionths blank_field open_board (transition_tolerance millionths)
      blank_square refl refl near_emitter (omega arith) (λ row col v read. within_tolerance v)

emitters : Option (List Cell)
unfolding transition_emitters candidates_of all_of range_cells range_from obeys_law entry update
    updated delta_at update_rows update_row flat_map ◌+ℤ◌ ◌-ℤ◌
emitters =
    transition_emitters millionths blank_field.grid
      (update millionths blank_field near_emitter).grid open_board (pos 3)
      (transition_tolerance millionths)

emitters_one : emitters ≡ some (near_emitter ∷ [])
unfolding emitters
emitters_one = refl
