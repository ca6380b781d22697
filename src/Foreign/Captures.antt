-- ===== src/Foreign/Captures.antt =====
-- The check for a capture that was not conceded, in terms of the rules of the board.
use p2p_thief.Prelude.{
  Bool, true, false, not, ◌||◌, ◌≡◌, refl, sym, ◌∙◌, ap, subst, ◌⊎◌, inl, inr, List, [], ◌∷◌, ◌++◌,
}
use p2p_thief.Prelude.{Option, none, some, Result, ok, ◌>>=◌, Bool-cases, arith, All, if◌then◌else◌}
use p2p_thief.Prelude.Int.{ℤ, pos, negsuc, ◌+ℤ◌, ◌≤ℤ◌, leb_ℤ}
use p2p_thief.Prelude.{◌↔◌, contains, ◌==◌, ==_iff}
use p2p_thief.Primitives.{Cell, cell_equality, Outcome, applied_to}
use p2p_thief.Board.{Board, in_bounds, is_barrier, is_passable, is_surrounded}
use p2p_thief.Json.{number, array, item, no_items, or_null, member_get}
use p2p_thief.Foreign.{LiveRecord}
use p2p_thief.Foreign.Steps.{Stepped, by_step}
use p2p_thief.Foreign.Dispute.{
  Timeline, neighbours, walls_by, neighbour_sealed, all_sealed, judge_spot, Evidence,
  barrier_on_the_thief, fully_surrounded, first_capture, or_later, at_spot, unconceded_capture,
  is_capture, spot_of,
}

-- A placement of the timeline.
abbrev pub Places : ℤ → Cell → Timeline → Type 0
Places placed wall [] = ⊥
Places placed wall ((p, w) ∷ timeline) = ((placed ≡ p) × (wall ≡ w)) ⊎ Places placed wall timeline

-- The cell has been walled at the step or before.
abbrev pub IsWalled : Timeline → ℤ → Cell → Type 0
IsWalled timeline step wall = (placed : ℤ) × Places placed wall timeline × (placed ≤ℤ step)

walls_by-IsWalled :
    (timeline : Timeline) (step : ℤ) (c : Cell)
    → (contains c (walls_by step timeline) ≡ true) ↔ IsWalled timeline step c
unfolding contains
walls_by-IsWalled [] step c = (λ h. absurd (ground arith), λ (placed, at, le). absurd at)
walls_by-IsWalled ((p, w) ∷ timeline) step c =
    let (found, counted) = walls_by-IsWalled timeline step c in
    let later : contains c (walls_by step timeline) ≡ true → IsWalled ((p, w) ∷ timeline) step c =
      λ h. let (placed, at, le) = found h in (placed, inr at, le) in
    elim (Bool-cases (leb_ℤ p step)) [
      | inl stands ↦ rw stands (
        λ h. elim (Bool-cases (c == w)) [
          | inl same ↦ (p, inl (refl, (==_iff c w).0 same), ground arith)
          | inr differs ↦ later (ground arith)
        ],
        λ (placed, at, le). elim at [
          | inl (_, same) ↦ ground (arith, ==_iff c w, same)
          | inr at ↦ ground (arith, counted (placed, at, le))
        ],
      )
      | inr to_come ↦ rw to_come (
        later,
        λ (placed, at, le). elim at [
          | inl (same, _) ↦ absurd (
              true-false
                (sym (subst (λ (n : ℤ). leb_ℤ n step ≡ true) same (ground arith)) ∙ to_come))
          | inr at ↦ counted (placed, at, le)
        ],
      )
    ]
  where
    true-false : true ≡ false → ⊥
    true-false h = cc

-- The board with the walls that stand at a step.
abbrev pub board_at : ℤ → Timeline → ℤ → Board
board_at grid timeline step = record { grid_size = grid; barriers = walls_by step timeline }

-- The two rules by which a wall captures, on the cell of a step.
abbrev pub is_captured_at : ℤ → Timeline → ℤ × Cell → Bool
is_captured_at grid timeline (step, cell) =
    let b = board_at grid timeline step in is_barrier b cell || is_surrounded b cell

neighbour_sealed-passable :
    (grid : ℤ) (walls : List Cell) (row col dr dc : ℤ)
    → neighbour_sealed grid walls (number row) (number col) (dr, dc)
      ≡ ok
          (not (is_passable (record { grid_size = grid; barriers = walls }) (row +ℤ dr, col +ℤ dc)))
unfolding neighbour_sealed is_passable in_bounds is_barrier
neighbour_sealed-passable grid walls row col dr dc = ground arith

all_sealed-surrounded :
    (grid : ℤ) (walls : List Cell) (row col : ℤ)
    → all_sealed grid walls (number row) (number col) neighbours
      ≡ ok (is_surrounded (record { grid_size = grid; barriers = walls }) (row, col))
unfolding all_sealed is_surrounded applied_to
all_sealed-surrounded grid walls row col =
    let at = neighbour_sealed-passable grid walls row col in
    rw (at (negsuc 0) (pos 0), at (pos 1) (pos 0), at (pos 0) (pos 1), at (pos 0) (negsuc 0))
      (ground arith)

-- The evidence at a captured cell.
abbrev pub evidence_at : ℤ → Timeline → ℤ × Cell → Evidence
evidence_at grid timeline (step, (row, col)) = record {
  step = step;
  row = number row;
  col = number col;
  rule =
      if is_barrier (board_at grid timeline step) (row, col)
      then barrier_on_the_thief
      else fully_surrounded;
  barriers = walls_by step timeline;
}

judge_spot-captured :
    (grid : ℤ) (timeline : Timeline) (step row col : ℤ)
    → judge_spot grid (walls_by step timeline) step (number row) (number col)
      ≡ ok (
          if is_captured_at grid timeline (step, (row, col))
          then some (evidence_at grid timeline (step, (row, col)))
          else none)
unfolding judge_spot is_barrier
judge_spot-captured grid timeline step row col =
    rw (all_sealed-surrounded grid (walls_by step timeline) row col) refl

-- The records show these positions, as pairs of integers, at these steps.
abbrev pub Shows : List Stepped → List (ℤ × Cell) → Type 0
Shows [] [] = Unit {0}
Shows ((step, m) ∷ es) ((at, (row, col)) ∷ ps) =
    (step ≡ at)
    × (or_null (member_get "position" m) ≡ array (item (number row) (item (number col) no_items)))
    × Shows es ps
Shows _ _ = ⊥

-- The first position at which a wall captures, with what stands before and after it.
pub record FirstCapture (grid : ℤ) (timeline : Timeline) (ps : List (ℤ × Cell)) (e : Evidence)
    : Type 0 where
  pub before : List (ℤ × Cell)
  pub at : ℤ × Cell
  pub after : List (ℤ × Cell)
  pub split : ps ≡ before ++ (at ∷ after)
  pub free : All (λ p. is_captured_at grid timeline p ≡ false) before
  pub captured : is_captured_at grid timeline at ≡ true
  pub shown : e ≡ evidence_at grid timeline at

module _ (grid : ℤ) (timeline : Timeline) where
  abbrev pub Judged : List (ℤ × Cell) → Result (Option Evidence) → Type 0
  Judged ps r =
      ((r ≡ ok none) × All (λ p. is_captured_at grid timeline p ≡ false) ps)
      ⊎ ((e : Evidence) × (r ≡ ok (some e)) × FirstCapture grid timeline ps e)

  step_Judged :
      (p : ℤ × Cell) (ps : List (ℤ × Cell)) (later : Result (Option Evidence))
      → Judged ps later
      → Judged (p ∷ ps) (
          or_later
            (if is_captured_at grid timeline p then some (evidence_at grid timeline p) else none)
            later)
  step_Judged p ps later judged = elim (Bool-cases (is_captured_at grid timeline p)) [
    | inl captured ↦ rw captured (
        inr (
          evidence_at grid timeline p,
          refl,
          record {
            before = [];
            at = p;
            after = ps;
            split = refl;
            free = tt;
            captured = captured;
            shown = refl;
          },
        ))
    | inr free ↦ rw free (elim judged [
      | inl (e, each) ↦ inl (e, (refl, each))
      | inr (ev, e, first) ↦ inr (
        ev,
        e,
        record {
          before = p ∷ first.before;
          at = first.at;
          after = first.after;
          split = ap (λ xs. p ∷ xs) first.split;
          free = (free, first.free);
          captured = first.captured;
          shown = first.shown;
        },
      )
    ])
  ]

  first_capture-Judged :
      (es : List Stepped) (ps : List (ℤ × Cell))
      → Shows es ps
      → Judged ps (first_capture grid timeline es)
  unfolding first_capture
  first_capture-Judged [] [] shows = inl (refl, tt)
  first_capture-Judged [] (p ∷ ps) shows = absurd shows
  first_capture-Judged (e ∷ es) [] shows = absurd shows
  first_capture-Judged ((step, m) ∷ es) ((at, (row, col)) ∷ ps) (same, position, shows) =
      let p : ℤ × Cell = (at, (row, col)) in
      let later = first_capture grid timeline es in
      let here : first_capture grid timeline ((step, m) ∷ es)
          ≡ or_later
              (if is_captured_at grid timeline p then some (evidence_at grid timeline p) else none)
              later =
        ap (λ v. at_spot grid timeline step (spot_of v) later) position
        ∙ ap (λ n. at_spot grid timeline n (some (number row, number col)) later) same
        ∙ ap (λ r. r >>= λ found. or_later found later)
            (judge_spot-captured grid timeline at row col) in
      subst (Judged (p ∷ ps)) (sym here) (step_Judged p ps later (first_capture-Judged es ps shows))

  -- In a game that did not end in a capture, on records that show positions of integers, the check
  -- finds nothing exactly when no wall that stood at the step captured the rival at any of them, by the
  -- board's own two rules; else its evidence is the first such position in the order of the steps, with
  -- the rule and the walls that captured it. The walls that stand at a step are exactly the cells placed
  -- at that step or before.
  pub unconceded_capture-Judged :
      (rs : List LiveRecord) (es : List Stepped) (ps : List (ℤ × Cell)) (outcome : Option Outcome)
      → by_step rs ≡ ok es
      → Shows es ps
      → is_capture outcome ≡ false
      → Judged ps (unconceded_capture rs timeline grid outcome)
        × ((step : ℤ) (c : Cell)
            → (contains c (board_at grid timeline step).barriers ≡ true) ↔ IsWalled timeline step c)
  unfolding unconceded_capture
  unconceded_capture-Judged rs es ps outcome sorted shows goes_on =
      (rw (goes_on, sorted) (first_capture-Judged es ps shows), walls_by-IsWalled timeline)
