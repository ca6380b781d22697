-- ===== src/OwnState.antt =====
-- src/p2p_thief/wire/own_state.py and wire/claims.py: what one peer of the hidden wire knows. It has its
-- own cell, the public barriers, its own scent and the clock; it has no cell of the rival.
pub mod Actions
pub mod Agreement
pub mod Game
use p2p_thief.Prelude.{
  ℕ, ◌+◌, ◌≡◌, Bool, true, false, not, ◌&&◌, ◌||◌, ◌==◌, if◌then◌else◌, List, [], ◌∷◌, ◌++◌, Option,
  none, some,
}
use p2p_thief.Prelude.{
  Result, ok, err, value_error, game_rule_error, rival_breach_error, raise_if, ◌>>=◌, ◌>>◌, length,
  replicate, get_or, suc, zero,
}
use p2p_thief.Prelude.Int.{ℤ, pos, negsuc, pos_part, leb_ℤ, ltb_ℤ}
use p2p_thief.Primitives.{
  Cell, cell_equality, Role, police, thief, rival, role_equality, Outcome, ongoing,
}
use p2p_thief.Board
use p2p_thief.Board.{
  Board, is_passable, in_bounds, is_barrier, add_barrier, apply_move, is_surrounded,
}
use p2p_thief.Rules.{RuleSet, validate_barrier_placement}
use p2p_thief.Scent
use p2p_thief.Scent.{ScentField, subscript}
use p2p_thief.Scent.Float.{Floats}
use p2p_thief.Protocol.{Action, move, barrier}

-- `grid[row][col] = value`, inside the grid.
abbrev pub put_at {ℓ} : {A : Type ℓ} → List A → ℕ → A → List A
put_at [] i a = []
put_at (x ∷ xs) zero a = a ∷ xs
put_at (x ∷ xs) (suc i) a = x ∷ put_at xs i a

module _ (F : Floats) where
  open F use {Float, zero_float}

  pub record ReceivedScent : Type 0 where
    pub grid_size : ℤ
    pub grid : List (List Float)

  abbrev pub blank_rows : ℤ → List (List Float)
  blank_rows grid_size = replicate (pos_part grid_size) (replicate (pos_part grid_size) zero_float)

  -- The body of the loop of `absorb`.
  unfoldable pub absorb_entry : ℤ → Cell → Float → List (List Float) → List (List Float)
  absorb_entry grid_size (row, col) value fresh =
      if leb_ℤ (pos 0) row && ltb_ℤ row grid_size && (leb_ℤ (pos 0) col && ltb_ℤ col grid_size)
      then put_at fresh (pos_part row)
          (put_at (get_or fresh (pos_part row) []) (pos_part col) value)
      else fresh

  -- The loop over the entries of the sparse grid, with their keys read as cells.
  unfoldable pub absorb_entries : ℤ → List (Cell × Float) → List (List Float) → List (List Float)
  absorb_entries grid_size [] fresh = fresh
  absorb_entries grid_size ((cell, value) ∷ entries) fresh =
      absorb_entries grid_size entries (absorb_entry grid_size cell value fresh)

  unfoldable pub absorb : ReceivedScent → List (Cell × Float) → ReceivedScent
  absorb s smell_grid = record s {
    grid = absorb_entries s.grid_size smell_grid (blank_rows s.grid_size);
  }

  pub record OwnState : Type 0 where
    pub role : Role
    pub board : Board
    pub rules : RuleSet
    pub cell : Cell
    pub own_scent : ScentField F
    pub rival_scent : ReceivedScent
    pub turns_completed : ℕ
    pub outcome : Outcome
    pub next_actor : Role
    pub boundary_cells : List Cell

  unfoldable pub new : Role → ℤ → Cell → RuleSet → Float → Float → ℕ → Result OwnState
  new role grid_size start rules center_intensity decay kernel_size = do
    board ← Board.new grid_size
    raise_if (not (is_passable board start)) value_error
    own_scent ← Scent.new F grid_size center_intensity decay kernel_size
    ok (record {
      role = role;
      board = board;
      rules = rules;
      cell = start;
      own_scent = own_scent;
      rival_scent = record { grid_size = grid_size; grid = blank_rows grid_size };
      turns_completed = 0;
      outcome = ongoing;
      next_actor = thief;
      boundary_cells = [];
    })

  -- The new state, and the cell of a barrier if one was placed.
  unfoldable pub apply_own_action : OwnState → Action → Result (OwnState × Option Cell)
  apply_own_action s (barrier target) = do
    raise_if (not (s.next_actor == s.role)) game_rule_error
    raise_if (not (s.role == police)) game_rule_error
    validate_barrier_placement s.board s.rules s.cell target
    board ← add_barrier s.board target
    ok (record s { board = board; next_actor = rival s.role }, some target)
  apply_own_action s (move m) = do
    raise_if (not (s.next_actor == s.role)) game_rule_error
    cell ← apply_move s.board s.cell m
    ok (record s { cell = cell; next_actor = rival s.role }, none)

  unfoldable pub note_rival_half_turn : OwnState → Result OwnState
  note_rival_half_turn s = do
    raise_if (s.next_actor == s.role) game_rule_error
    ok (record s { next_actor = s.role })

  unfoldable pub note_rival_barrier : OwnState → Cell → Result OwnState
  note_rival_barrier s target = do
    raise_if (not (in_bounds s.board target)) game_rule_error
    (if is_barrier s.board target then ok s else do
      raise_if (leb_ℤ s.rules.max_barriers (pos (length s.board.barriers))) rival_breach_error
      board ← add_barrier s.board target
      ok (record s { board = board }))

  unfoldable pub close_full_turn : OwnState → OwnState
  close_full_turn s = record s {
    own_scent = Scent.update F s.own_scent s.cell;
    boundary_cells = s.boundary_cells ++ (s.cell ∷ []);
    turns_completed = s.turns_completed + 1;
  }

  unfoldable pub survival_reached : OwnState → Bool
  survival_reached s =
      leb_ℤ s.rules.survival_threshold (pos s.turns_completed)
      || leb_ℤ s.rules.max_moves (pos s.turns_completed)

  unfoldable pub i_am_captured : OwnState → Bool
  i_am_captured s = is_barrier s.board s.cell || is_surrounded s.board s.cell

  pub record ClaimResponse : Type 0 where
    pub claim : Cell
    pub caught : Bool

  unfoldable pub answer_capture_claim : OwnState → Cell → ClaimResponse
  answer_capture_claim s claim_cell = record { claim = claim_cell; caught = claim_cell == s.cell }

  unfoldable pub concede_declaration : OwnState → ClaimResponse
  concede_declaration s = record { claim = s.cell; caught = true }

  -- The claim of a police half-turn; the belief's verdict on the cell is an argument, and `none` where
  -- there is no belief to ask.
  unfoldable pub capture_claim_for : Action → OwnState → Option Bool → Option Cell
  capture_claim_for (barrier c) s plausible = none
  capture_claim_for (move m) s none = some s.cell
  capture_claim_for (move m) s (some plausible) = if plausible then some s.cell else none

  -- What a half-turn of wire/hidden_turns.py makes of the own state: the action, and the boundary that
  -- the thief's step ticks.
  unfoldable pub own_turn : OwnState → Action → Result (OwnState × Option Cell)
  own_turn s action = do
    acted ← apply_own_action s action
    ok (
      if s.role == thief && not (i_am_captured acted.0) then close_full_turn acted.0 else acted.0,
      acted.1,
    )

  -- What the rival's message makes of it: its barrier, its scent, the token, and the boundary, unless
  -- the rival concedes.
  unfoldable pub absorb_turn : OwnState → Option Cell → List (Cell × Float) → Bool → Result OwnState
  absorb_turn s placed smell_grid conceded = do
    walled ← elim placed [ none ↦ ok s | some cell ↦ note_rival_barrier s cell ]
    passed ←
        note_rival_half_turn (record walled { rival_scent = absorb walled.rival_scent smell_grid })
    ok (if passed.role == police && not conceded then close_full_turn passed else passed)

  -- A half-turn of one side, as both sides see it. Only the thief's message can concede.
  unfoldable pub wire_turn :
      OwnState → OwnState → Role → Action → List (Cell × Float) → Result (OwnState × OwnState)
  wire_turn cop robber police action smell_grid = do
    acted ← own_turn cop action
    heard ← absorb_turn robber acted.1 smell_grid false
    ok (acted.0, heard)
  wire_turn cop robber thief action smell_grid = do
    acted ← own_turn robber action
    heard ← absorb_turn cop acted.1 smell_grid (i_am_captured acted.0)
    ok (heard, acted.0)

  abbrev pub wire_play :
      OwnState
      → OwnState
      → List (Role × Action × List (Cell × Float))
      → Result (OwnState × OwnState)
  wire_play cop robber [] = ok (cop, robber)
  wire_play cop robber ((who, action, smell_grid) ∷ turns) =
      wire_turn cop robber who action smell_grid >>= λ both. wire_play both.0 both.1 turns
