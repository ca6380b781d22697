-- ===== src/Pathfind/Walk.antt =====
-- Walks over the passable cells of a board, and the cells of its grid.
use p2p_thief.Prelude.{
  contains-append, ℕ, zero, suc, ◌<◌, ◌≡◌, ◌≢◌, subst, ◌∙◌, inl, inr, Bool, true,
}
use p2p_thief.Prelude.{◌||◌, arith, contains, ◌==◌, ==_iff, Bool-cases, ℕ_equality}
use p2p_thief.Prelude.Int.{pos, negsuc, pos_part}
use p2p_thief.Primitives.{Cell, cell_equality, Move, stay, applied_to}
use p2p_thief.Board.{Board, in_bounds, is_passable}
use p2p_thief.Board.Laws.{in_bounds_iff}
use p2p_thief.Pathfind.{row_cells, rows_cells, grid_cells}

-- A walk of so many orthogonal steps, each onto a passable cell.
pub data Walk (board : Board) (source : Cell) : ℕ → Cell → Type 0 where
  here : Walk board source 0 source
  onward :
      {n : ℕ} {cell : Cell} (next : Cell) (m : Move)
      → Walk board source n cell
      → m ≢ stay
      → next ≡ applied_to m cell
      → is_passable board next ≡ true
      → Walk board source (suc n) next

contains-row_cells :
    (row col side : ℕ) → col < side → contains (pos row, pos col) (row_cells row side) ≡ true
unfolding contains row_cells
contains-row_cells row col zero h = absurd (omega arith)
contains-row_cells row col (suc side) h = ground (arith, contains-row_cells row col side)

||-left : (a b : Bool) → a ≡ true → (a || b) ≡ true
||-left a b h = ground arith

||-right : (a b : Bool) → b ≡ true → (a || b) ≡ true
||-right a b h = ground arith

contains-rows_cells :
    (row col rows side : ℕ)
    → row < rows
    → col < side
    → contains (pos row, pos col) (rows_cells rows side) ≡ true
unfolding contains rows_cells
contains-rows_cells row col zero side h k = absurd (omega arith)
contains-rows_cells row col (suc rows) side h k =
    contains-append (pos row, pos col) (row_cells rows side) (rows_cells rows side)
    ∙ elim (Bool-cases (row == rows)) [
      | inl last ↦ ||-left _ _ (
          subst (λ (r : ℕ). contains (pos row, pos col) (row_cells r side) ≡ true)
            ((==_iff row rows).0 last) (contains-row_cells row col side k))
      | inr earlier ↦
          ||-right _ _ (contains-rows_cells row col rows side (ground (arith, ==_iff row rows)) k)
    ]

-- The grid has every cell of the board.
pub contains-grid_cells :
    (b : Board) (c : Cell) → in_bounds b c ≡ true → contains c (grid_cells b) ≡ true
unfolding grid_cells
contains-grid_cells b (pos row, pos col) h =
    let inside = (in_bounds_iff b (pos row, pos col)).0 h in
    contains-rows_cells row col (pos_part b.grid_size) (pos_part b.grid_size) (omega arith)
      (omega arith)
contains-grid_cells b (negsuc row, col) h =
    let inside = (in_bounds_iff b (negsuc row, col)).0 h in absurd (omega arith)
contains-grid_cells b (pos row, negsuc col) h =
    let inside = (in_bounds_iff b (pos row, negsuc col)).0 h in absurd (omega arith)
