-- ===== src/Forensics/Frames.antt =====
-- `transition_emitters` of src/p2p_thief/domain/trail_forensics.py: which emitters turn one frame into the
-- next. A `none` is an IndexError. `_deposit_at`
-- is `delta_at` of domain/scent.py, line by line.
use p2p_thief.Prelude.{ℕ, zero, suc, Bool, true, false, List, [], ◌∷◌, map, flat_map}
use p2p_thief.Prelude.{Option, none, some, if◌then◌else◌}
use p2p_thief.Prelude.Int.{ℤ, pos, pos_part}
use p2p_thief.Primitives.{Cell}
use p2p_thief.Board.{Board}
use p2p_thief.Scent.Float.{Floats, gef}
use p2p_thief.Scent.{kernel_at, kernel_radius, updated, subscript}

-- `range(k, k + n)`
unfoldable pub range_from : ℕ → ℕ → List ℕ
range_from k zero = []
range_from k (suc n) = k ∷ range_from (suc k) n

unfoldable pub range_cells : ℕ → List Cell
range_cells n = flat_map (λ row. map (λ col. (pos row, pos col)) (range_from 0 n)) (range_from 0 n)

-- `all` over tests that may raise: it stops at the first that fails.
unfoldable pub all_of : (Cell → Option Bool) → List Cell → Option Bool
all_of test [] = some true
all_of test (c ∷ cs) =
    let rest = all_of test cs in
    elim (test c) [ none ↦ none | some passed ↦ if passed then rest else some false ]

-- The candidates, in order.
unfoldable pub candidates_of : (Cell → Option Bool) → List Cell → Option (List Cell)
candidates_of test [] = some []
candidates_of test (c ∷ cs) =
    let rest = candidates_of test cs in
    elim (test c) [
      | none ↦ none
      | some passed ↦ elim rest [
        | none ↦ none
        | some later ↦ some (if passed then c ∷ later else later)
      ]
    ]

module _ (F : Floats) where
  open F use {Float, zero_float, lit, sub, ltf}

  abbrev pub Frame : Type 0
  Frame = List (List Float)

  abbrev pub trail_center : Float
  trail_center = kernel_at F kernel_radius kernel_radius

  abbrev pub trail_keep : Float
  trail_keep = lit 9 1

  abbrev pub transition_tolerance : Float
  transition_tolerance = lit 1 3

  -- Python's `abs`.
  abbrev pub abs_float : Float → Float
  abs_float a = if ltf a zero_float then sub zero_float a else a

  -- `frame[r][c]`
  unfoldable pub entry : Frame → Cell → Option Float
  entry frame cell = elim (subscript frame cell.0) [ none ↦ none | some row ↦ subscript row cell.1 ]

  -- The test at one cell.
  unfoldable pub obeys_law : Frame → Frame → Float → Cell → Cell → Option Bool
  obeys_law previous current tolerance emitter cell = elim (entry previous cell) [
    | none ↦ none
    | some before ↦ elim (entry current cell) [
      | none ↦ none
      | some now ↦ some (
          gef F tolerance
            (abs_float (sub (updated F trail_center trail_keep before cell emitter) now)))
    ]
  ]

  unfoldable pub transition_emitters : Frame → Frame → Board → ℤ → Float → Option (List Cell)
  transition_emitters previous current board grid_size tolerance =
      let cells = range_cells (pos_part grid_size) in
      candidates_of (λ emitter. all_of (obeys_law previous current tolerance emitter) cells) cells
