-- ===== src/Scent/Bounds.antt =====
-- The scent field after an update: the book's law at each cell, and the range of every value.
use p2p_thief.Prelude.{ℕ, zero, suc, ◌+◌, ◌≤◌, ◌≡◌, refl, List, [], ◌∷◌, false, arith}
use p2p_thief.Prelude.{Option, none, some, get_elem?, ◌⊎◌}
use p2p_thief.Prelude.Int.{ℤ, pos, negsuc, ◌-ℤ◌, ◌+ℤ◌, abs, leb_ℤ, ltb_ℤ}
use mathlib.Core.Option.{some-injective}
use p2p_thief.Prelude.{◌&&◌, subst}
use p2p_thief.Primitives.{Cell}
use p2p_thief.Scent.{ScentField, delta_at, updated, update_row, update_rows, update, value_at}
use p2p_thief.Scent.{kernel_radius, kernel_side}
use p2p_thief.Scent.Float.{Floats, min_float, max_float}

module _ {ℓ κ} {A : Type ℓ} {B : Type κ} where
  abbrev pub map_option : (A → B) → Option A → Option B
  map_option f none = none
  map_option f (some a) = some (f a)

module _ (F : Floats) where
  open F use {Float, zero_float, lit, add, sub, mul, ltf}

  update_row-get :
      (center keep : Float) (emitter : Cell) (row col i : ℕ) (vs : List Float)
      → get_elem? (update_row F center keep emitter row col vs) i
        ≡ map_option
            (λ v. updated F center keep v (pos row, pos (col + i)) emitter)
            (get_elem? vs i)
  unfolding update_row
  update_row-get center keep emitter row col i [] = refl
  update_row-get center keep emitter row col zero (v ∷ vs) =
      let e : col + 0 ≡ col = omega arith in rw e
  update_row-get center keep emitter row col (suc i) (v ∷ vs) =
      let e : col + suc i ≡ col + 1 + i = omega arith in
      rw e (update_row-get center keep emitter row (col + 1) i vs)

  -- The range that the book states.
  abbrev pub IsInRange : Float → Float → Type 0
  IsInRange center v = (ltf v zero_float ≡ false) × (ltf center v ≡ false)

  clamp-IsInRange :
      (center raw : Float)
      → ltf center zero_float ≡ false
      → IsInRange center (min_float F center (max_float F zero_float raw))
  clamp-IsInRange center raw h = ground (
    arith,
    F.ltf_irrefl center,
    F.ltf_irrefl zero_float,
    F.ltf_asym zero_float raw,
    F.ltf_asym raw center,
    F.ltf_asym zero_float center,
  )

  updated-IsInRange :
      (center keep v : Float) (cell emitter : Cell)
      → ltf center zero_float ≡ false
      → IsInRange center (updated F center keep v cell emitter)
  unfolding updated
  updated-IsInRange center keep v cell emitter h =
      clamp-IsInRange center (add (mul keep v) (delta_at F cell emitter)) h

  update_rows-get :
      (center keep : Float) (emitter : Cell) (row i j : ℕ) (rows : List (List Float))
      → (elim (get_elem? (update_rows F center keep emitter row rows) i) [
        | none ↦ none
        | some vs ↦ get_elem? vs j
      ])
        ≡ map_option
            (λ v. updated F center keep v (pos (row + i), pos j) emitter)
            (elim (get_elem? rows i) [ none ↦ none | some vs ↦ get_elem? vs j ])
  unfolding update_rows
  update_rows-get center keep emitter row i j [] = refl
  update_rows-get center keep emitter row zero j (vs ∷ rows) =
      let e : row + 0 ≡ row = omega arith in
      let f : 0 + j ≡ j = omega arith in
      rw e (rw f at (update_row-get center keep emitter row 0 j vs))
  update_rows-get center keep emitter row (suc i) j (vs ∷ rows) =
      let e : row + suc i ≡ row + 1 + i = omega arith in
      rw e (update_rows-get center keep emitter (row + 1) i j rows)

  -- One update, read at any cell of the field, is the book's law at that cell; off the field there is
  -- nothing before and nothing after.
  pub value_at-update :
      (s : ScentField F) (emitter : Cell) (row col : ℕ)
      → value_at F (update F s emitter) (pos row, pos col)
        ≡ map_option
            (λ v. updated F s.center_intensity (sub (lit 1 0) s.decay) v (pos row, pos col) emitter)
            (value_at F s (pos row, pos col))
  unfolding value_at update
  value_at-update s emitter row col =
      let e : 0 + row ≡ row = omega arith in
      rw e at (update_rows-get s.center_intensity (sub (lit 1 0) s.decay) emitter 0 row col s.grid)

  -- Whatever the field held before, every value after an update lies between 0 and the center.
  pub update-IsInRange :
      (s : ScentField F) (emitter : Cell) (row col : ℕ) (v : Float)
      → ltf s.center_intensity zero_float ≡ false
      → value_at F (update F s emitter) (pos row, pos col) ≡ some v
      → IsInRange s.center_intensity v
  update-IsInRange s emitter row col v h read =
      go (value_at F s (pos row, pos col)) (rw (value_at-update s emitter row col) at read)
    where
      keep : Float
      keep = sub (lit 1 0) s.decay

      go :
          (old : Option Float)
          → map_option (λ w. updated F s.center_intensity keep w (pos row, pos col) emitter) old
            ≡ some v
          → IsInRange s.center_intensity v
      go none e = cc
      go (some w) e =
          subst (IsInRange s.center_intensity) (some-injective _ _ e)
            (updated-IsInRange s.center_intensity keep w (pos row, pos col) emitter h)

  far_ring :
      (d : ℤ)
      → kernel_radius + 1 ≤ abs d
      → (leb_ℤ (pos 0) (d +ℤ pos kernel_radius) && ltb_ℤ (d +ℤ pos kernel_radius) (pos kernel_side))
        ≡ false
  unfolding ◌+ℤ◌
  far_ring (pos n) h = ground arith
  far_ring (negsuc n) h = ground arith

  -- A cell more than two rows or two columns away from the emitter gets no deposit.
  pub delta_at-far :
      (cell emitter : Cell)
      → (kernel_radius + 1 ≤ abs (cell.0 -ℤ emitter.0))
        ⊎ (kernel_radius + 1 ≤ abs (cell.1 -ℤ emitter.1))
      → delta_at F cell emitter ≡ zero_float
  unfolding delta_at
  delta_at-far cell emitter far =
      ground (arith, far_ring (cell.0 -ℤ emitter.0), far_ring (cell.1 -ℤ emitter.1))
