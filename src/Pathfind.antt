-- ===== src/Pathfind.antt =====
-- src/p2p_thief/domain/pathfind.py: breadth-first distances over the passable cells.
pub mod Walk
pub mod Visit
pub mod Loop
pub mod Shortest
use p2p_thief.Prelude.{ℕ, zero, suc, ◌+◌, Bool, not, ◌&&◌, List, [], ◌∷◌, ◌++◌, length, map}
use p2p_thief.Prelude.{Option, none, some, has_key, dict_get, dict_set, if◌then◌else◌}
use p2p_thief.Prelude.Int.{ℤ, pos, negsuc, pos_part}
use p2p_thief.Primitives.{Cell, cell_equality, Move, applied_to}
use p2p_thief.Board.{Board, is_passable, orthogonal_moves}

abbrev pub Distances : Type 0
Distances = List (Cell × ℕ)

abbrev pub unreachable : ℤ
unreachable = negsuc 0

-- The dictionary and the queue.
abbrev pub Progress : Type 0
Progress = Distances × List Cell

-- The body of the inner loop, at a cell with distance `k`.
unfoldable pub visit : Board → Cell → ℕ → Move → Progress → Progress
visit board cell k m (distances, frontier) =
    let neighbor = applied_to m cell in
    if is_passable board neighbor && not (has_key neighbor distances)
    then (dict_set neighbor (k + 1) distances, frontier ++ (neighbor ∷ []))
    else (distances, frontier)

unfoldable pub visit_all : Board → Cell → ℕ → List Move → Progress → Progress
visit_all board cell k [] s = s
visit_all board cell k (m ∷ ms) s = visit_all board cell k ms (visit board cell k m s)

-- The outer loop; `none` is a KeyError at `distances[cell]`, or the model's fuel spent.
unfoldable pub bfs_loop : ℕ → Board → Progress → Option Distances
bfs_loop zero board s = none
bfs_loop (suc fuel) board (distances, []) = some distances
bfs_loop (suc fuel) board (distances, cell ∷ frontier) = elim (dict_get cell distances) [
  | none ↦ none
  | some k ↦ bfs_loop fuel board (visit_all board cell k orthogonal_moves (distances, frontier))
]

row_cells : ℕ → ℕ → List Cell
row_cells row zero = []
row_cells row (suc col) = (pos row, pos col) ∷ row_cells row col

rows_cells : ℕ → ℕ → List Cell
rows_cells zero side = []
rows_cells (suc row) side = row_cells row side ++ rows_cells row side

-- Every cell of the grid: the fuel of the loop counts them, the source, and the last pass.
unfoldable pub grid_cells : Board → List Cell
unfolding row_cells rows_cells
grid_cells board = rows_cells (pos_part board.grid_size) (pos_part board.grid_size)

unfoldable pub bfs_distances : Board → Cell → Option Distances
bfs_distances board source =
    bfs_loop (length (grid_cells board) + 2) board ((source, 0) ∷ [], source ∷ [])

unfoldable pub distance_between : Board → Cell → Cell → Option ℤ
distance_between board source target = elim (bfs_distances board source) [
  | none ↦ none
  | some distances ↦ elim (dict_get target distances) [
    | none ↦ some unreachable
    | some k ↦ some (pos k)
  ]
]
