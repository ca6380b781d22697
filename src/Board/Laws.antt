-- ===== src/Board/Laws.antt =====
-- Moves and placements on the board: what a success says of the cell or the new board.
use p2p_thief.Prelude.{◌≡◌, refl, sym, subst, ◌⊎◌, ◌↔◌, true, false}
use p2p_thief.Prelude.{List, [], ◌∷◌, ok, arith, contains, All}
use p2p_thief.Prelude.Int.{ℤ, +ℤ_zero, pos, ◌≤ℤ◌, ◌<ℤ◌}
use p2p_thief.Primitives.{Cell, cell_equality, Move, north, south, east, west, stay, applied_to}
use p2p_thief.Board.{Board, new, in_bounds, is_barrier, is_passable, add_barrier, apply_move}

pub applied_to-stay : (c : Cell) → applied_to stay c ≡ c
unfolding applied_to
applied_to-stay (r, c) = ground (arith, +ℤ_zero r, +ℤ_zero c)

-- The grid as an order on the coordinates.
abbrev pub Inside : ℤ → Cell → Type 0
Inside g (row, col) = (pos 0 ≤ℤ row) × (row <ℤ g) × (pos 0 ≤ℤ col) × (col <ℤ g)

pub in_bounds_iff : (b : Board) (c : Cell) → (in_bounds b c ≡ true) ↔ Inside b.grid_size c
unfolding in_bounds
in_bounds_iff b (row, col) = (λ h. ground arith, λ h. ground arith)

-- A step that is granted ends on a passable cell; `stay` ends where it began.
pub apply_move-ok :
    (b : Board) (c : Cell) (m : Move) (c' : Cell)
    → apply_move b c m ≡ ok c'
    → (c' ≡ applied_to m c) × ((c' ≡ c) ⊎ (is_passable b c' ≡ true))
unfolding apply_move is_passable
apply_move-ok b c stay c' h = ground (arith, applied_to-stay c)
apply_move-ok b c north c' h = ground arith
apply_move-ok b c south c' h = ground arith
apply_move-ok b c east c' h = ground arith
apply_move-ok b c west c' h = ground arith

module _ (b : Board) (c : Cell) (m : Move) (c' : Cell) (granted : apply_move b c m ≡ ok c') where
  pub apply_move-in_bounds : in_bounds b c ≡ true → in_bounds b c' ≡ true
  unfolding is_passable
  apply_move-in_bounds h = ground (arith, apply_move-ok b c m c' granted)

  pub apply_move-is_barrier : is_barrier b c ≡ false → is_barrier b c' ≡ false
  unfolding is_passable
  apply_move-is_barrier h = ground (arith, apply_move-ok b c m c' granted)

pub add_barrier-ok :
    (b : Board) (c : Cell) (b' : Board)
    → add_barrier b c ≡ ok b'
    → (b' ≡ record b { barriers = c ∷ b.barriers })
      × (in_bounds b c ≡ true)
      × (is_barrier b c ≡ false)
unfolding add_barrier
add_barrier-ok b c b' h = ground arith

-- No cell is listed twice.
abbrev pub IsDistinct : List Cell → Type 0
IsDistinct [] = Unit {0}
IsDistinct (c ∷ cs) = (contains c cs ≡ false) × IsDistinct cs

-- A board as the program keeps it: barriers on the grid, none of them twice.
pub record IsValid (b : Board) : Type 0 where
  pub wide : pos 2 ≤ℤ b.grid_size
  pub inside : All (λ c. in_bounds b c ≡ true) b.barriers
  pub distinct : IsDistinct b.barriers

All-in_bounds :
    (b b' : Board) (cs : List Cell)
    → b'.grid_size ≡ b.grid_size
    → All (λ c. in_bounds b c ≡ true) cs
    → All (λ c. in_bounds b' c ≡ true) cs
unfolding in_bounds
All-in_bounds b b' [] e h = tt
All-in_bounds b b' (c ∷ cs) e h = (rw e h.0, All-in_bounds b b' cs e h.1)

pub new-IsValid : (g : ℤ) (b : Board) → new g ≡ ok b → IsValid b × (b.barriers ≡ [])
unfolding new
new-IsValid g b h = ground arith

pub add_barrier-IsValid :
    (b : Board) (c : Cell) (b' : Board) → add_barrier b c ≡ ok b' → IsValid b → IsValid b'
unfolding is_barrier
add_barrier-IsValid b c b' h v =
    let (e, on_grid, free) = add_barrier-ok b c b' h in
    let grown : Board = record b { barriers = c ∷ b.barriers } in
    subst IsValid (sym e) (record {
      wide = v.wide;
      inside = All-in_bounds b grown (c ∷ b.barriers) refl (on_grid, v.inside);
      distinct = (free, v.distinct);
    })
