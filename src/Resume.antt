-- ===== src/Resume.antt =====
-- src/p2p_thief/wire/hidden_resume.py: the snapshot of one peer of the hidden wire, and its restoration in
-- a fresh runtime. The canonical digest of the own state is a parameter; the opponent's agreement, which is
-- passed through, is not part of the model's runtime.
pub mod Cells
pub mod Smell
pub mod Kept
pub mod Rearmed
use p2p_thief.Prelude.{ℕ, suc, ◌+◌, Bool, not, List, [], ◌∷◌, ◌++◌, Option, none, some, ◌==◌}
use p2p_thief.Prelude.{
  Result, ok, err, raise_if, resume_error, ◌>>=◌, ◌>>◌, if◌then◌else◌, text_equality,
}
use p2p_thief.Prelude.Int.{ℤ, pos}
use p2p_thief.Primitives.{Cell, Role, rival, role_equality}
use p2p_thief.Json.{Dict}
use p2p_thief.Board.{Board, add_barrier}
use p2p_thief.Scent
use p2p_thief.Scent.{ScentField}
use p2p_thief.Scent.Float.{Floats}
use p2p_thief.OwnState.{OwnState, ClaimResponse, absorb}
use p2p_thief.Crypto.{RivalRecord}
use p2p_thief.Sealing.{SealedExchange, OwnRecord, Key}
use p2p_thief.Hidden.{Runtime}
use p2p_thief.Endgame.{with_wall}
use Prim.Native.String.{String}

-- Python's `sorted` of cells, by insertion in their order.
unfoldable pub sorted_cells : List Cell → List Cell
sorted_cells [] = []
sorted_cells (c ∷ cs) = with_wall c (sorted_cells cs)

-- `SealedExchange.export_state`. A set of keys is the list of its members, whose order means nothing.
pub record Exported : Type 0 where
  pub own_records : List OwnRecord
  pub their_records : List RivalRecord
  pub consumed : List Key

unfoldable pub export_state : SealedExchange → Exported
export_state x = record {
  own_records = x.own_records;
  their_records = x.their_records;
  consumed = x.consumed;
}

unfoldable pub restore_state : SealedExchange → Exported → SealedExchange
restore_state x e = record x {
  own_records = e.own_records;
  their_records = e.their_records;
  consumed = e.consumed;
}

-- The loop over the barriers of a snapshot.
unfoldable pub restore_barriers : List Cell → Board → Result Board
restore_barriers [] board = ok board
restore_barriers (cell ∷ cells) board = add_barrier board cell >>= restore_barriers cells

module _ (F : Floats) where
  open F use {Float, zero_float, ltf}

  -- One row of `serialize_scent`.
  unfoldable pub serialize_row : ℕ → ℕ → List Float → List (Cell × Float)
  serialize_row row col [] = []
  serialize_row row col (v ∷ vs) =
      let rest = serialize_row row (col + 1) vs in
      if ltf zero_float v then ((pos row, pos col), v) ∷ rest else rest

  serialize_rows : ℕ → List (List Float) → List (Cell × Float)
  serialize_rows row [] = []
  serialize_rows row (vs ∷ rest) = serialize_row row 0 vs ++ serialize_rows (row + 1) rest

  -- `codec.serialize_scent`, of the rows of a square grid.
  unfoldable pub serialize_scent : List (List Float) → List (Cell × Float)
  unfolding serialize_rows
  serialize_scent grid = serialize_rows 0 grid

  -- `snapshot["own"]`
  pub record OwnBlock : Type 0 where
    pub cell : Cell
    pub barriers : List Cell
    pub boundary_cells : List Cell
    pub turns_completed : ℕ
    pub my_token : Bool
    pub rival_scent : List (Cell × Float)

  pub record Snapshot : Type 0 where
    pub turn : ℤ
    pub my_step : Option ℤ
    pub their_step : Option ℤ
    pub exported : Exported
    pub own : OwnBlock
    pub pending_claim_response : Option (ClaimResponse F)
    pub last_sent : Option Dict
    pub own_digest : String

  -- The loop over the boundary cells: each is one update of the own field.
  unfoldable pub replay_scent : ScentField F → List Cell → ScentField F
  replay_scent field [] = field
  replay_scent field (cell ∷ cells) = replay_scent (Scent.update F field cell) cells

  -- `digest_of` is the hash of the canonical JSON of the grid's size, the own cell and the barriers in order.
  module _ (digest_of : ℤ → Cell → List Cell → String) where
    -- `OwnState.digest`
    unfoldable pub digest : OwnState F → String
    digest s = digest_of s.board.grid_size s.cell (sorted_cells s.board.barriers)

    unfoldable pub build_own : OwnState F → OwnBlock
    build_own s = record {
      cell = s.cell;
      barriers = sorted_cells s.board.barriers;
      boundary_cells = s.boundary_cells;
      turns_completed = s.turns_completed;
      my_token = s.next_actor == s.role;
      rival_scent = serialize_scent s.rival_scent.grid;
    }

    unfoldable pub build_snapshot : Runtime F → ℤ → Snapshot
    build_snapshot rt step = record {
      turn = step;
      my_step = some rt.my_step;
      their_step = some rt.their_step;
      exported = export_state rt.exchange;
      own = build_own rt.own;
      pending_claim_response = rt.pending_claim_response;
      last_sent = rt.last_sent;
      own_digest = digest rt.own;
    }

    -- The own state of a fresh runtime, with the block of a snapshot put in.
    unfoldable pub rearm_own : OwnState F → OwnBlock → Result (OwnState F)
    rearm_own fresh block = do
      board ← restore_barriers block.barriers fresh.board
      ok (record fresh {
        cell = block.cell;
        board = board;
        own_scent = replay_scent fresh.own_scent block.boundary_cells;
        boundary_cells = fresh.boundary_cells ++ block.boundary_cells;
        turns_completed = block.turns_completed;
        next_actor = if block.my_token then fresh.role else rival fresh.role;
        rival_scent = absorb F fresh.rival_scent block.rival_scent;
      })

    require_step : Option ℤ → Result ℤ
    require_step none = err resume_error
    require_step (some step) = ok step

    -- The runtime, and the half-turn that play resumes after.
    unfoldable pub rearm : Runtime F → Snapshot → Result (Runtime F × ℤ)
    unfolding require_step
    rearm rt snapshot = do
      own ← rearm_own rt.own snapshot.own
      raise_if (not (digest own == snapshot.own_digest)) resume_error
      my_step ← require_step snapshot.my_step
      their_step ← require_step snapshot.their_step
      ok (
        record rt {
          own = own;
          my_step = my_step;
          their_step = their_step;
          exchange = restore_state rt.exchange snapshot.exported;
          last_sent = snapshot.last_sent;
          pending_claim_response = snapshot.pending_claim_response;
        },
        snapshot.turn,
      )
