-- ===== src/Forensics.antt =====
-- src/p2p_thief/domain/trail_forensics.py: where a transmitted trail may show a deposit. A set of cells is
-- a list.
pub mod Honest
pub mod Frames
pub mod History
use p2p_thief.Prelude.{Bool, List, [], ◌∷◌, map, contains, passing, flat_map, Option, none, some}
use p2p_thief.Prelude.Int.{ℤ, pos, negsuc, leb_ℤ, ◌+ℤ◌}
use p2p_thief.Primitives.{Cell, cell_equality}
use p2p_thief.Board.{Board}
use p2p_thief.Rules.{distance}
use p2p_thief.Pathfind.{grid_cells}

-- `range(-KERNEL_RADIUS, KERNEL_RADIUS + 1)`
abbrev pub kernel_offsets : List ℤ
kernel_offsets = negsuc 1 ∷ negsuc 0 ∷ pos 0 ∷ pos 1 ∷ pos 2 ∷ []

unfoldable pub kernel_row : Cell → ℤ → List Cell
kernel_row cell dr = map (λ dc. (cell.0 +ℤ dr, cell.1 +ℤ dc)) kernel_offsets

unfoldable pub kernel_cells : Cell → List Cell
kernel_cells cell = flat_map (kernel_row cell) kernel_offsets

unfoldable pub board_cells : ℤ → List Cell
board_cells grid_size = grid_cells (record { grid_size = grid_size; barriers = [] })

abbrev pub in_reach : ℤ → Cell → Cell → Bool
in_reach elapsed anchor cell = leb_ℤ (pos (distance cell anchor)) elapsed

unfoldable pub credible_cells : Board → Option Cell → ℤ → ℤ → List Cell
credible_cells board none elapsed grid_size = board_cells grid_size
credible_cells board (some anchor) elapsed grid_size =
    let reachable = passing (in_reach elapsed anchor) (board_cells grid_size) in
    passing (λ cell. contains cell (board_cells grid_size)) (flat_map kernel_cells reachable)
