-- ===== src/Forensics/Honest.antt =====
-- The trail of an agent that plays by the rules, against domain/trail_forensics.py.
use p2p_thief.Prelude.{ℕ, suc, ◌+◌, ◌≤◌, ◌≡◌, ◌≢◌, ◌⊎◌, refl, sym, subst, inl, inr}
use p2p_thief.Prelude.{true, arith, []}
use p2p_thief.Prelude.{
  contains, passing, contains-passing, flat_map, contains-map, contains-flat_map,
}
use p2p_thief.Prelude.{some, ok}
use p2p_thief.Prelude.Int.{
  ℤ, pos, negsuc, pos_part, neg_part, abs, ◌+ℤ◌, ◌-ℤ◌, ◌≤ℤ◌, leb_ℤ, int_laws, ℤ_equality,
}
use p2p_thief.Primitives.{
  Cell, cell_equality, Move, north, south, east, west, stay, delta, applied_to,
}
use p2p_thief.Board.{Board, apply_move}
use p2p_thief.Board.Laws.{Inside, in_bounds_iff, apply_move-ok, apply_move-in_bounds}
use p2p_thief.Rules.{distance}
use p2p_thief.Scent.Float.{Floats}
use p2p_thief.Scent.{delta_at, kernel_radius}
use p2p_thief.Scent.Bounds.{delta_at-far}
use p2p_thief.Pathfind.Walk.{contains-grid_cells}
use p2p_thief.Forensics.{
  kernel_offsets, kernel_row, kernel_cells, board_cells, in_reach, credible_cells,
}

-- Moves that the board grants, each on the barriers of its own turn.
pub data Played (grid_size : ℤ) (anchor : Cell) : ℕ → Cell → Type 0 where
  begun : Played grid_size anchor 0 anchor
  stepped :
      {n : ℕ} {cell : Cell} (board : Board) (m : Move) (next : Cell)
      → Played grid_size anchor n cell
      → board.grid_size ≡ grid_size
      → apply_move board cell m ≡ ok next
      → Played grid_size anchor (suc n) next

one_part : (x : ℤ) → (pos_part x ≡ 0) ⊎ (neg_part x ≡ 0)
one_part (pos n) = inr refl
one_part (negsuc n) = inl refl

distance_self : (c : Cell) → distance c c ≡ 0
distance_self (r, c) = omega (int_laws, one_part (r -ℤ r), one_part (c -ℤ c))

-- One move changes one coordinate by one.
coordinate_step : (a b d : ℤ) → abs d ≤ 1 → abs ((a +ℤ d) -ℤ b) ≤ abs (a -ℤ b) + abs d
coordinate_step a b d small = omega (int_laws, one_part ((a +ℤ d) -ℤ b))

distance_step : (a c : Cell) (m : Move) → distance (applied_to m c) a ≤ distance c a + 1
unfolding applied_to
distance_step (a, b) (r, c) m =
    let rows = coordinate_step r a (delta m).0 in
    let cols = coordinate_step c b (delta m).1 in
    omega (arith, rows (delta_small m).0, cols (delta_small m).1, (delta_small m).2)
  where
    delta_small :
        (m : Move)
        → (abs (delta m).0 ≤ 1) × (abs (delta m).1 ≤ 1) × (abs (delta m).0 + abs (delta m).1 ≤ 1)
    delta_small north = (omega arith, omega arith, omega arith)
    delta_small south = (omega arith, omega arith, omega arith)
    delta_small east = (omega arith, omega arith, omega arith)
    delta_small west = (omega arith, omega arith, omega arith)
    delta_small stay = (omega arith, omega arith, omega arith)

module _ (grid_size : ℤ) (anchor : Cell) where
  Played-Inside :
      {n : ℕ} {cell : Cell}
      → Inside grid_size anchor
      → Played grid_size anchor n cell
      → Inside grid_size cell
  Played-Inside inside begun = inside
  Played-Inside inside (stepped {cell = cell} board m next before same granted) =
      let was = Played-Inside inside before in
      subst (λ g. Inside g next) same
        ((in_bounds_iff board next).0 (
          apply_move-in_bounds board cell m next granted
            ((in_bounds_iff board cell).1 (subst (λ g. Inside g cell) (sym same) was))))

  Played-distance :
      {n : ℕ} {cell : Cell} → Played grid_size anchor n cell → distance cell anchor ≤ n
  Played-distance begun = omega (arith, distance_self anchor)
  Played-distance (stepped {n = n} {cell = cell} board m next before same granted) =
      let ih = Played-distance before in
      subst (λ c. distance c anchor ≤ suc n) (sym (apply_move-ok board cell m next granted).0)
        (omega (arith, ih, distance_step anchor cell m))

contains-offset : (d : ℤ) → abs d ≤ kernel_radius → contains d kernel_offsets ≡ true
unfolding contains
contains-offset (pos n) h = ground arith
contains-offset (negsuc n) h = ground arith

sub_back : (x e : ℤ) → e +ℤ (x -ℤ e) ≡ x
sub_back x e = omega int_laws

contains-kernel_cells :
    (emitter cell : Cell)
    → abs (cell.0 -ℤ emitter.0) ≤ kernel_radius
    → abs (cell.1 -ℤ emitter.1) ≤ kernel_radius
    → contains cell (kernel_cells emitter) ≡ true
unfolding kernel_cells kernel_row
contains-kernel_cells emitter cell h k =
    contains-flat_map (kernel_row emitter) (cell.0 -ℤ emitter.0) cell kernel_offsets
      (contains-offset (cell.0 -ℤ emitter.0) h)
      (subst (λ (c : Cell). contains c (kernel_row emitter (cell.0 -ℤ emitter.0)) ≡ true)
        (ap2_cell (sub_back cell.0 emitter.0) (sub_back cell.1 emitter.1))
        (contains-map (λ dc. (emitter.0 +ℤ (cell.0 -ℤ emitter.0), emitter.1 +ℤ dc))
          (cell.1 -ℤ emitter.1) kernel_offsets (contains-offset (cell.1 -ℤ emitter.1) k)))
  where
    ap2_cell : {a b c d : ℤ} → a ≡ b → c ≡ d → ◌≡◌ {A = Cell} (a, c) (b, d)
    ap2_cell p q = cc

contains-board_cells :
    (grid_size : ℤ) (c : Cell) → Inside grid_size c → contains c (board_cells grid_size) ≡ true
unfolding board_cells
contains-board_cells grid_size c inside =
    let empty : Board = record { grid_size = grid_size; barriers = [] } in
    contains-grid_cells empty c ((in_bounds_iff empty c).1 inside)

within_kernel : (n : ℕ) → ¬ (kernel_radius + 1 ≤ n) → n ≤ kernel_radius
within_kernel n h = ground arith

-- The credible cells have every cell of the grid on which an agent deposits now, if it was at the anchor
-- and has since made, on whatever barriers, at most `elapsed` granted moves.
pub credible_cells-honest :
    (F : Floats) (board : Board) (grid_size elapsed : ℤ) (anchor emitter cell : Cell) (n : ℕ)
    → Inside grid_size anchor
    → Played grid_size anchor n emitter
    → pos n ≤ℤ elapsed
    → Inside grid_size cell
    → delta_at F cell emitter ≢ F.zero_float
    → contains cell (credible_cells board (some anchor) elapsed grid_size) ≡ true
unfolding credible_cells
credible_cells-honest F board grid_size elapsed anchor emitter cell n begins played fast inside
      deposits =
    let cells = board_cells grid_size in
    let reachable = passing (in_reach elapsed anchor) cells in
    let near_rows =
      within_kernel (abs (cell.0 -ℤ emitter.0))
        (λ far. deposits (delta_at-far F cell emitter (inl far))) in
    let near_cols =
      within_kernel (abs (cell.1 -ℤ emitter.1))
        (λ far. deposits (delta_at-far F cell emitter (inr far))) in
    let there =
      contains-board_cells grid_size emitter (Played-Inside grid_size anchor begins played) in
    let close : in_reach elapsed anchor emitter ≡ true =
      in_time (distance emitter anchor) (Played-distance grid_size anchor played) in
    let reached : contains emitter reachable ≡ true =
      ground (arith, contains-passing (in_reach elapsed anchor) emitter cells, there, close) in
    let spread =
      contains-flat_map kernel_cells emitter cell reachable reached
        (contains-kernel_cells emitter cell near_rows near_cols) in
    ground (
      arith,
      contains-passing (λ c. contains c cells) cell (flat_map kernel_cells reachable),
      spread,
      contains-board_cells grid_size cell inside,
    )
  where
    in_time : (d : ℕ) → d ≤ n → leb_ℤ (pos d) elapsed ≡ true
    in_time d le = ground arith
