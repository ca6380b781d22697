-- ===== src/Board.antt =====
-- src/p2p_thief/domain/board.py: grid bounds, permanent barriers, movement legality.
pub mod Laws
use p2p_thief.Prelude.{ℕ, ◌≡◌, List, [], ◌∷◌, map, Bool, true, false, not, ◌&&◌, arith}
use p2p_thief.Prelude.{Equality, ◌==◌, ltb, all, contains, if◌then◌else◌}
use p2p_thief.Prelude.{Result, ok, err, value_error, illegal_barrier_error, illegal_move_error}
use p2p_thief.Prelude.{raise_if, ◌>>=◌, ◌>>◌}
use p2p_thief.Prelude.Int.{ℤ, pos, leb_ℤ, ltb_ℤ}
use p2p_thief.Primitives.{Cell, cell_equality, Move, north, south, east, west, stay, applied_to}

abbrev pub orthogonal_moves : List Move
orthogonal_moves = north ∷ south ∷ east ∷ west ∷ []

-- The set of barriers is the list of its cells, the last placed first.
pub record Board : Type 0 where
  pub grid_size : ℤ
  pub barriers : List Cell

unfoldable pub new : ℤ → Result Board
new grid_size = do
  raise_if (ltb_ℤ grid_size (pos 2)) value_error
  ok (record { grid_size = grid_size; barriers = [] })

unfoldable pub in_bounds : Board → Cell → Bool
in_bounds b (row, col) =
    leb_ℤ (pos 0) row && ltb_ℤ row b.grid_size && (leb_ℤ (pos 0) col && ltb_ℤ col b.grid_size)

unfoldable pub is_barrier : Board → Cell → Bool
is_barrier b cell = contains cell b.barriers

unfoldable pub is_passable : Board → Cell → Bool
is_passable b cell = in_bounds b cell && not (is_barrier b cell)

unfoldable pub add_barrier : Board → Cell → Result Board
add_barrier b cell = do
  raise_if (not (in_bounds b cell)) illegal_barrier_error
  raise_if (is_barrier b cell) illegal_barrier_error
  ok (record b { barriers = cell ∷ b.barriers })

passable_moves : Board → Cell → List Move → List Move
passable_moves b cell [] = []
passable_moves b cell (m ∷ ms) =
    let rest = passable_moves b cell ms in
    if is_passable b (applied_to m cell) then m ∷ rest else rest

unfoldable pub legal_moves : Board → Cell → List Move
unfolding passable_moves
legal_moves b cell = stay ∷ passable_moves b cell orthogonal_moves

unfoldable pub apply_move : Board → Cell → Move → Result Cell
apply_move b cell stay = ok (applied_to stay cell)
apply_move b cell move = do
  let target = applied_to move cell
  raise_if (not (in_bounds b target)) illegal_move_error
  raise_if (is_barrier b target) illegal_move_error
  ok target

unfoldable pub is_surrounded : Board → Cell → Bool
is_surrounded b cell = all (λ m. not (is_passable b (applied_to m cell))) orthogonal_moves
