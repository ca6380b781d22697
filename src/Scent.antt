-- ===== src/Scent.antt =====
-- src/p2p_thief/domain/scent.py: the pheromone field. Python's floats are a parameter of the model.
pub mod Float
pub mod Bounds
use p2p_thief.Prelude.{
  ℕ, suc, ◌+◌, ◌-◌, ◌≡◌, List, [], ◌∷◌, Bool, not, ◌&&◌, ◌||◌, Option, none, some,
}
use p2p_thief.Prelude.{Result, ok, err, value_error, raise_if, ◌>>=◌, ◌>>◌, if◌then◌else◌}
use p2p_thief.Prelude.{get_elem?, get_or, replicate, length, leb, eqb}
use p2p_thief.Prelude.Int.{ℤ, pos, negsuc, pos_part, ◌+ℤ◌, ◌-ℤ◌, leb_ℤ, ltb_ℤ}
use p2p_thief.Primitives.{Cell}
use Float.{Floats, min_float, max_float}

abbrev pub kernel_radius : ℕ
kernel_radius = 2

abbrev pub kernel_side : ℕ
kernel_side = 5

module _ (F : Floats) where
  open F use {Float, zero_float, lit, add, sub, mul, ltf}

  -- `EMISSION_KERNEL`
  abbrev pub emission_kernel : List (List Float)
  emission_kernel =
      (lit 4 2 ∷ lit 14 2 ∷ lit 20 2 ∷ lit 14 2 ∷ lit 4 2 ∷ [])
      ∷ (lit 14 2 ∷ lit 42 2 ∷ lit 62 2 ∷ lit 42 2 ∷ lit 14 2 ∷ [])
      ∷ (lit 20 2 ∷ lit 62 2 ∷ lit 90 2 ∷ lit 62 2 ∷ lit 20 2 ∷ [])
      ∷ (lit 14 2 ∷ lit 42 2 ∷ lit 62 2 ∷ lit 42 2 ∷ lit 14 2 ∷ [])
      ∷ (lit 4 2 ∷ lit 14 2 ∷ lit 20 2 ∷ lit 14 2 ∷ lit 4 2 ∷ [])
      ∷ []

  -- `EMISSION_KERNEL[row][col]`, read inside the kernel only.
  abbrev pub kernel_at : ℕ → ℕ → Float
  kernel_at row col = get_or (get_or emission_kernel row []) col zero_float

  pub record ScentField : Type 0 where
    pub grid_size : ℤ
    pub center_intensity : Float
    pub decay : Float
    pub grid : List (List Float)

  unfoldable pub new : ℤ → Float → Float → ℕ → Result ScentField
  new grid_size center_intensity decay kernel_size = do
    raise_if (not (eqb kernel_size kernel_side)) value_error
    raise_if (not (F.eqf center_intensity (kernel_at kernel_radius kernel_radius))) value_error
    raise_if (not (ltf zero_float decay && ltf decay (lit 1 0))) value_error
    let side = pos_part grid_size
    ok (record {
      grid_size = grid_size;
      center_intensity = center_intensity;
      decay = decay;
      grid = replicate side (replicate side zero_float);
    })

  unfoldable pub delta_at : Cell → Cell → Float
  delta_at cell emitter =
      let kernel_row = cell.0 -ℤ emitter.0 +ℤ pos kernel_radius in
      let kernel_col = cell.1 -ℤ emitter.1 +ℤ pos kernel_radius in
      if leb_ℤ (pos 0) kernel_row
        && ltb_ℤ kernel_row (pos kernel_side)
        && (leb_ℤ (pos 0) kernel_col && ltb_ℤ kernel_col (pos kernel_side))
      then kernel_at (pos_part kernel_row) (pos_part kernel_col)
      else zero_float

  -- The new value of one cell.
  unfoldable pub updated : Float → Float → Float → Cell → Cell → Float
  updated center keep value cell emitter =
      min_float F center (max_float F zero_float (add (mul keep value) (delta_at cell emitter)))

  module _ (center keep : Float) (emitter : Cell) where
    -- The inner loop, from column `col` of row `row` on.
    unfoldable pub update_row : ℕ → ℕ → List Float → List Float
    update_row row col [] = []
    update_row row col (v ∷ vs) =
        updated center keep v (pos row, pos col) emitter ∷ update_row row (col + 1) vs

    -- The outer loop, from row `row` on.
    unfoldable pub update_rows : ℕ → List (List Float) → List (List Float)
    update_rows row [] = []
    update_rows row (vs ∷ rest) = update_row row 0 vs ∷ update_rows (row + 1) rest

  unfoldable pub update : ScentField → Cell → ScentField
  update s emitter = record s {
    grid = update_rows s.center_intensity (sub (lit 1 0) s.decay) emitter 0 s.grid;
  }

-- A Python subscript: a negative index counts from the end; `none` is an IndexError.
abbrev pub subscript {ℓ} : {A : Type ℓ} → List A → ℤ → Option A
subscript xs (pos n) = get_elem? xs n
subscript xs (negsuc n) = if leb (suc n) (length xs) then get_elem? xs (length xs - suc n) else none

module _ (F : Floats) where
  unfoldable pub value_at : ScentField F → Cell → Option F.Float
  value_at s cell = elim (subscript s.grid cell.0) [ none ↦ none | some row ↦ subscript row cell.1 ]
