-- ===== src/Forensics/History.antt =====
-- An honest pair of frames under `transition_emitters` of domain/trail_forensics.py.
use p2p_thief.Prelude.{ℕ, zero, suc, ◌+◌, ◌≤◌, ◌<◌, ◌≡◌, refl, sym, ap, ◌∙◌, inl, inr}
use p2p_thief.Prelude.{Bool, true, false, arith, Bool-cases, List, [], ◌∷◌, map, All}
use p2p_thief.Prelude.{contains, contains-map, contains-flat_map, flat_map}
use p2p_thief.Prelude.{Option, some, some_inj, ◌==◌, ℕ_equality, ==_iff}
use p2p_thief.Prelude.Int.{ℤ, pos, negsuc, pos_part}
use p2p_thief.Primitives.{Cell, cell_equality}
use p2p_thief.Board.{Board}
use p2p_thief.Board.Laws.{Inside}
use p2p_thief.Scent.Float.{Floats, gef}
use p2p_thief.Scent.{ScentField, value_at, update, updated}
use p2p_thief.Scent.Bounds.{value_at-update}
use p2p_thief.Pathfind.Visit.{All-append}
use p2p_thief.Pathfind.Loop.{true-false}
use p2p_thief.Forensics.Frames.{
  range_from, range_cells, all_of, candidates_of, trail_center, trail_keep, abs_float, entry,
  obeys_law, transition_emitters,
}

module _ {ℓ κ} {A : Type ℓ} (P : A → Type κ) where
  All-map {ι} : {B : Type ι} (f : B → A) (xs : List B) → All (λ x. P (f x)) xs → All P (map f xs)
  All-map f [] ps = tt
  All-map f (x ∷ xs) (p, ps) = (p, All-map f xs ps)

  All-flat_map {ι} :
      {B : Type ι} (f : B → List A) (xs : List B)
      → All (λ x. All P (f x)) xs
      → All P (flat_map f xs)
  unfolding flat_map
  All-flat_map f [] ps = tt
  All-flat_map f (x ∷ xs) (p, ps) = All-append P (f x) (flat_map f xs) p (All-flat_map f xs ps)

All-range_from {κ} :
    (P : ℕ → Type κ) (k n : ℕ) → ((i : ℕ) → i < k + n → P i) → All P (range_from k n)
unfolding range_from
All-range_from P k zero h = tt
All-range_from P k (suc n) h =
    (h k (omega arith), All-range_from P (suc k) n (λ i le. h i (omega (arith, le))))

contains-range_from : (i k n : ℕ) → k ≤ i → i < k + n → contains i (range_from k n) ≡ true
unfolding contains range_from
contains-range_from i k zero le lt = absurd (omega arith)
contains-range_from i k (suc n) le lt = ground (arith, contains-range_from i (suc k) n, ==_iff i k)

All-range_cells {κ} :
    (P : Cell → Type κ) (n : ℕ)
    → ((row col : ℕ) → row < n → col < n → P (pos row, pos col))
    → All P (range_cells n)
unfolding range_cells
All-range_cells P n h = All-flat_map P _ (range_from 0 n) (
    All-range_from _ 0 n (λ row r.
      All-map P _ (range_from 0 n)
        (All-range_from _ 0 n (λ col c. h row col (omega (arith, r)) (omega (arith, c))))))

contains-range_cells :
    (n row col : ℕ) → row < n → col < n → contains (pos row, pos col) (range_cells n) ≡ true
unfolding range_cells
contains-range_cells n row col r c =
    contains-flat_map (λ (i : ℕ). map (λ (j : ℕ). (pos i, pos j)) (range_from 0 n)) row
      (pos row, pos col) (range_from 0 n)
      (contains-range_from row 0 n (omega arith) (omega (arith, r)))
      (contains-map (λ (j : ℕ). (pos row, pos j)) col (range_from 0 n)
        (contains-range_from col 0 n (omega arith) (omega (arith, c))))

module _ (test : Cell → Option Bool) where
  abbrev IsRead : Cell → Type 0
  IsRead c = (b : Bool) × (test c ≡ some b)

  all_of-read : (cs : List Cell) → All IsRead cs → (b : Bool) × (all_of test cs ≡ some b)
  unfolding all_of
  all_of-read [] reads = (true, refl)
  all_of-read (c ∷ cs) ((false, e), reads) = (false, rw (e, all_of) refl)
  all_of-read (c ∷ cs) ((true, e), reads) =
      let (b, rest) = all_of-read cs reads in (b, rw (e, all_of) rest)

  all_of-passed : (cs : List Cell) → All (λ c. test c ≡ some true) cs → all_of test cs ≡ some true
  unfolding all_of
  all_of-passed [] passed = refl
  all_of-passed (c ∷ cs) (e, passed) = rw (e, all_of) (all_of-passed cs passed)

  candidates_of-read :
      (cs : List Cell)
      → All IsRead cs
      → (ms : List Cell) × (candidates_of test cs ≡ some ms)
        × ((x : Cell) → test x ≡ some true → contains x cs ≡ true → contains x ms ≡ true)
  unfolding candidates_of contains
  candidates_of-read [] reads = ([], refl, λ x e h. h)
  candidates_of-read (c ∷ cs) ((true, e), reads) =
      let (ms, rest, kept) = candidates_of-read cs reads in
      (
        c ∷ ms,
        rw (e, rest, candidates_of) refl,
        λ x passed among. ground (arith, kept x passed, among),
      )
  candidates_of-read (c ∷ cs) ((false, e), reads) =
      let (ms, rest, kept) = candidates_of-read cs reads in
      (
        ms,
        rw (e, rest, candidates_of) refl,
        λ x passed among. ground (arith, kept x passed, among, dropped x c e passed),
      )
    where
      dropped : (x c : Cell) → test c ≡ some false → test x ≡ some true → (x == c) ≡ false
      dropped x c e passed = elim (Bool-cases (x == c)) [
        | inr apart ↦ apart
        | inl same ↦ absurd (true-false (some_inj (sym passed ∙ ap test ((==_iff x c).0 same) ∙ e)))
      ]

contains-range_cells-Inside :
    (grid_size : ℤ) (c : Cell)
    → Inside grid_size c
    → contains c (range_cells (pos_part grid_size)) ≡ true
contains-range_cells-Inside grid_size (pos row, pos col) inside =
    contains-range_cells (pos_part grid_size) row col (omega arith) (omega arith)
contains-range_cells-Inside grid_size (negsuc row, col) inside = absurd (omega arith)
contains-range_cells-Inside grid_size (pos row, negsuc col) inside = absurd (omega arith)

entry-value_at :
    (F : Floats) (s : ScentField F) (cell : Cell) (v : F.Float)
    → value_at F s cell ≡ some v
    → entry F s.grid cell ≡ some v
unfolding value_at entry
entry-value_at F s cell v h = h

module _ (F : Floats) (s : ScentField F) (board : Board) (tolerance : F.Float)
    (square : (row col : ℕ)
      → row < pos_part s.grid_size
      → col < pos_part s.grid_size
      → (v : F.Float) × (value_at F s (pos row, pos col) ≡ some v))
    (centre : s.center_intensity ≡ trail_center F)
    (keeps : F.sub (F.lit 1 0) s.decay ≡ trail_keep F) where
  abbrev kept_value : F.Float → Cell → Cell → F.Float
  kept_value v cell emitter = updated F (trail_center F) (trail_keep F) v cell emitter

  next_value :
      (emitter : Cell) (row col : ℕ) (v : F.Float)
      → value_at F s (pos row, pos col) ≡ some v
      → value_at F (update F s emitter) (pos row, pos col)
        ≡ some (kept_value v (pos row, pos col) emitter)
  next_value emitter row col v e = value_at-update F s emitter row col ∙ rw (e, centre, keeps) refl

  obeys_law-told :
      (emitter claimed : Cell) (row col : ℕ) (v : F.Float)
      → value_at F s (pos row, pos col) ≡ some v
      → obeys_law F s.grid (update F s emitter).grid tolerance claimed (pos row, pos col)
        ≡ some (
            gef F tolerance (
              abs_float F (
                F.sub
                  (kept_value v (pos row, pos col) claimed)
                  (kept_value v (pos row, pos col) emitter))))
  unfolding obeys_law
  obeys_law-told emitter claimed row col v e =
      rw
        (
          entry-value_at F s (pos row, pos col) v e,
          entry-value_at F (update F s emitter) (pos row, pos col) _
              (next_value emitter row col v e),
          obeys_law,
        )
        refl

  -- When `previous` is the trail of an agent and `current` the trail after it has stood on `emitter`, the
  -- check ends with no error and `emitter` is among the emitters that it finds, so that an honest pair
  -- of frames is never proof of a forgery. The fields have the book's center and decay, a value at every
  -- cell of the grid, and values whose difference with themselves is within the tolerance.
  pub transition_emitters-honest :
      (emitter : Cell)
      → Inside s.grid_size emitter
      → ((row col : ℕ) (v : F.Float)
          → value_at F (update F s emitter) (pos row, pos col) ≡ some v
          → gef F tolerance (abs_float F (F.sub v v)) ≡ true)
      → (found : List Cell) × (transition_emitters F s.grid
            (update F s emitter).grid
            board
            s.grid_size
            tolerance
          ≡ some found)
        × (contains emitter found ≡ true)
  unfolding transition_emitters
  transition_emitters-honest emitter inside exact =
      let side = pos_part s.grid_size in
      let law = obeys_law F s.grid (update F s emitter).grid tolerance in
      let every_read : (claimed : Cell) → All (IsRead (law claimed)) (range_cells side) = λ claimed.
        All-range_cells (IsRead (law claimed)) side (λ row col r c.
          let (v, e) = square row col r c in (_, obeys_law-told emitter claimed row col v e)) in
      let truthful : all_of (law emitter) (range_cells side) ≡ some true =
        all_of-passed (law emitter) (range_cells side) (
          All-range_cells (λ c. law emitter c ≡ some true) side
            (λ row col r c.
              let (v, e) = square row col r c in
              obeys_law-told emitter emitter row col v e
              ∙ ap (λ (b : Bool). some b) (exact row col _ (next_value emitter row col v e)))) in
      let (found, returned, kept) =
        candidates_of-read (λ claimed. all_of (law claimed) (range_cells side)) (range_cells side)
          (All-range_cells _ side (λ row col r c.
            all_of-read (law (pos row, pos col)) (range_cells side)
              (every_read (pos row, pos col)))) in
      (
        found,
        returned,
        kept emitter truthful (contains-range_cells-Inside s.grid_size emitter inside),
      )
