-- ===== src/Foreign/Dispute.antt =====
-- src/p2p_thief/wire/dispute.py, and the second tier of src/p2p_thief/wire/audit_foreign.py: the
-- capture that a rival's own reveal proves and that was never conceded. A coordinate that is a float
-- is read as its integer part.
use p2p_thief.Prelude.{
  Bool, true, false, not, ◌&&◌, ◌||◌, ◌==◌, List, [], ◌∷◌, Option, none, some, contains, ◌++◌,
}
use p2p_thief.Prelude.{Result, ok, err, ◌>>=◌, type_error, if◌then◌else◌, dict_get, text_equality}
use p2p_thief.Prelude.Int.{ℤ, pos, negsuc, ℤ_equality, leb_ℤ, ltb_ℤ, ◌+ℤ◌}
use p2p_thief.Primitives.{Cell, cell_equality, Outcome, capture}
use p2p_thief.Json.{
  Json, boolean, number, decimal, infinite, not_a_number, text, array, object, no_items, item,
  member_get, or_null,
}
use p2p_thief.Sealing.{OwnRecord}
use p2p_thief.Crypto.{Verdict, verified_ok, tampered}
use p2p_thief.Foreign.{LiveRecord}
use p2p_thief.Foreign.Steps.{Stepped, by_step, continuity_ok, movement_ok}

abbrev pub Timeline : Type 0
Timeline = List (ℤ × Cell)

abbrev pub neighbours : List (ℤ × ℤ)
neighbours = (negsuc 0, pos 0) ∷ (pos 1, pos 0) ∷ (pos 0, pos 1) ∷ (pos 0, negsuc 0) ∷ []

-- The placement in an own payload: an own step is an integer, and an own cell a pair of them.
abbrev pub placement : Json → Json → List (ℤ × Cell)
placement (number step) (object action) = elim (or_null (member_get "type" action)) [
  | text kind ↦ elim (or_null (member_get "cell" action)) [
    | array (item (number row) (item (number col) no_items)) ↦
        if kind == "barrier" then (step, (row, col)) ∷ [] else []
    | _ ↦ []
  ]
  | _ ↦ []
]
placement _ _ = []

unfoldable pub own_barrier_timeline : List OwnRecord → Timeline
own_barrier_timeline [] = []
own_barrier_timeline (r ∷ rs) =
    placement (or_null (dict_get "step" r.payload)) (or_null (dict_get "action" r.payload))
    ++ own_barrier_timeline rs

-- `{wall for placed, wall in timeline if placed <= step}`
abbrev pub walls_by : ℤ → Timeline → List Cell
walls_by step [] = []
walls_by step ((placed, wall) ∷ timeline) =
    let rest = walls_by step timeline in if leb_ℤ placed step then wall ∷ rest else rest

-- A coordinate in a sum: what is no number raises, and an infinite one is off every board, as is one that
-- is not a number.
abbrev pub coordinate : Json → Result ℤ
coordinate (number n) = ok n
coordinate (boolean b) = ok (if b then pos 1 else pos 0)
coordinate (decimal n f) = ok n
coordinate infinite = ok (negsuc 1)
coordinate not_a_number = ok (negsuc 1)
coordinate _ = err type_error

-- `0 <= spot + d < grid`
abbrev pub in_grid : ℤ → ℤ → Bool
in_grid grid n = leb_ℤ (pos 0) n && ltb_ℤ n grid

-- One neighbour: off the board, or walled. The second coordinate is read only if the first is inside.
unfoldable pub neighbour_sealed : ℤ → List Cell → Json → Json → ℤ × ℤ → Result Bool
neighbour_sealed grid walls row col (dr, dc) = do
  r ← coordinate row
  (if not (in_grid grid (r +ℤ dr)) then ok true else do
    c ← coordinate col
    ok (not (in_grid grid (c +ℤ dc)) || contains (r +ℤ dr, c +ℤ dc) walls))

-- `all(...)` over the neighbours, which stops at an open one.
unfoldable pub all_sealed : ℤ → List Cell → Json → Json → List (ℤ × ℤ) → Result Bool
all_sealed grid walls row col [] = ok true
all_sealed grid walls row col (d ∷ ds) =
    let rest = all_sealed grid walls row col ds in
    neighbour_sealed grid walls row col d >>= λ s. if s then rest else ok false

-- `spot in walls`, which hashes both coordinates.
abbrev pub is_hashable : Json → Bool
is_hashable (array v) = false
is_hashable (object v) = false
is_hashable _ = true

abbrev pub whole : Json → Option ℤ
whole (number n) = some n
whole (boolean b) = some (if b then pos 1 else pos 0)
whole (decimal n f) = if f == "0" then some n else none
whole _ = none

abbrev pub whole_cell : Option ℤ → Option ℤ → Option Cell
whole_cell (some r) (some c) = some (r, c)
whole_cell _ _ = none

abbrev pub spot_walled : List Cell → Json → Json → Result Bool
spot_walled walls row col =
    if is_hashable row && is_hashable col
    then ok (elim (whole_cell (whole row) (whole col)) [
      | none ↦ false
      | some spot ↦ contains spot walls
    ])
    else err type_error

pub data Rule : Type 0 where
  barrier_on_the_thief fully_surrounded : Rule

pub record Evidence : Type 0 where
  pub step : ℤ
  pub row : Json
  pub col : Json
  pub rule : Rule
  pub barriers : List Cell

-- The two coordinates of a position that is a list of two.
abbrev pub spot_of : Json → Option (Json × Json)
spot_of (array (item row (item col no_items))) = some (row, col)
spot_of _ = none

-- The body of the loop at a position: both tests, and the evidence. The set of the walls is the list of
-- those placed by then.
unfoldable pub judge_spot : ℤ → List Cell → ℤ → Json → Json → Result (Option Evidence)
judge_spot grid walls step row col = do
  sealed ← all_sealed grid walls row col neighbours
  walled ← spot_walled walls row col
  ok (
      if walled || sealed
      then some (record {
        step = step;
        row = row;
        col = col;
        rule = if walled then barrier_on_the_thief else fully_surrounded;
        barriers = walls;
      })
      else none)

-- One record: nothing to see, or its evidence before what the later records show.
abbrev pub or_later : Option Evidence → Result (Option Evidence) → Result (Option Evidence)
or_later none later = later
or_later (some e) later = ok (some e)

abbrev pub at_spot :
    ℤ → Timeline → ℤ → Option (Json × Json) → Result (Option Evidence) → Result (Option Evidence)
at_spot grid timeline step none later = later
at_spot grid timeline step (some (row, col)) later =
    judge_spot grid (walls_by step timeline) step row col >>= λ found. or_later found later

unfoldable pub first_capture : ℤ → Timeline → List Stepped → Result (Option Evidence)
first_capture grid timeline [] = ok none
first_capture grid timeline ((step, m) ∷ es) =
    at_spot grid timeline step (spot_of (or_null (member_get "position" m)))
      (first_capture grid timeline es)

abbrev pub is_capture : Option Outcome → Bool
is_capture (some capture) = true
is_capture _ = false

unfoldable pub unconceded_capture :
    List LiveRecord → Timeline → ℤ → Option Outcome → Result (Option Evidence)
unconceded_capture their_records timeline grid outcome =
    if is_capture outcome
    then ok none
    else (do es ← by_step their_records; first_capture grid timeline es)

-- The second tier: the verdict and the evidence, with no digest to compare.
unfoldable pub judge :
    List LiveRecord → ℤ → Timeline → Option Outcome → Result (Verdict × Option Evidence)
judge their_records grid timeline outcome = do
  counted ← continuity_ok their_records
  moved ← if counted then movement_ok their_records grid else ok false
  disputed ← unconceded_capture their_records timeline grid outcome
  ok (if moved then verified_ok else tampered, disputed)

unfoldable pub foreign_verdict :
    List LiveRecord → List OwnRecord → ℤ → Option Outcome → Result (Verdict × Option Evidence)
foreign_verdict their_records own_records grid outcome =
    judge their_records grid (own_barrier_timeline own_records) outcome
