-- ===== src/Tests/Hidden.antt =====
-- A run of the hidden wire.
use p2p_thief.Prelude.{List, [], ◌∷◌, Result, ◌≡◌, refl, ◌||◌, contains}
use p2p_thief.Prelude.Int.{pos, ◌+ℤ◌, ◌-ℤ◌}
use p2p_thief.Primitives.{Cell, Role, police, thief, north, applied_to, ongoing}
use p2p_thief.Board
use p2p_thief.Board.{in_bounds, is_barrier, is_passable, add_barrier, apply_move, is_surrounded}
use p2p_thief.Rules.{validate_barrier_placement}
use p2p_thief.Scent
use p2p_thief.Protocol.{Action, move, barrier}
use p2p_thief.Engine.Invariant.{is_caught}
use p2p_thief.OwnState
use p2p_thief.OwnState.{
  OwnState, apply_own_action, note_rival_barrier, note_rival_half_turn, close_full_turn,
  i_am_captured,
}
use p2p_thief.OwnState.{
  own_turn, absorb_turn, absorb, absorb_entries, absorb_entry, wire_turn, wire_play,
  answer_capture_claim,
}
use p2p_thief.OwnState.Actions.{Agrees}
use p2p_thief.OwnState.Game.{TurnEnds, wire_turn_fate, wire_play-new-Agrees}
use p2p_thief.Prelude.{Option, none, ok}
use p2p_thief.Reconstruct.{Revealed, Replayed, replay_action}
use p2p_thief.Reconstruct.Lived.{Matches}
use p2p_thief.Reconstruct.Turns.{true_outcome, replay_action-lived}
use p2p_thief.Prelude.{some}
use p2p_thief.Reconstruct.{AuditRecord, Entry, entries, verify_declared}
use p2p_thief.Reconstruct.Order.{IsOrdered, Gathers, entries-IsOrdered}
use p2p_thief.Tests.Samples.{millionths, small_rules, small_board, blank_field, result_or}

abbrev pub Turn : Type 0
Turn = Role × Action × List (Cell × millionths.Float)

-- The game with all that it calls open.
unfoldable pub wire_run :
    OwnState millionths
    → OwnState millionths
    → List Turn
    → Result (OwnState millionths × OwnState millionths)
unfolding wire_turn own_turn absorb_turn apply_own_action note_rival_barrier note_rival_half_turn
    close_full_turn i_am_captured validate_barrier_placement in_bounds is_barrier is_passable
    add_barrier apply_move is_surrounded contains applied_to ◌+ℤ◌ ◌-ℤ◌ OwnState.new Board.new
    Scent.new
wire_run c t turns = wire_play millionths c t turns

abbrev pub small_thief : OwnState millionths
small_thief = record {
  role = thief;
  board = small_board;
  rules = small_rules;
  cell = (pos 2, pos 2);
  own_scent = blank_field;
  rival_scent = record { grid_size = pos 3; grid = blank_field.grid };
  turns_completed = 0;
  outcome = ongoing;
  next_actor = thief;
  boundary_cells = [];
}

abbrev pub small_cop : OwnState millionths
small_cop = record small_thief { role = police; cell = (pos 0, pos 0) }

-- The thief steps, the cop walls a neighbour.
abbrev small_turns : List Turn
small_turns = (thief, move north, []) ∷ (police, barrier (pos 0, pos 1), []) ∷ []

abbrev after_turns : OwnState millionths × OwnState millionths
after_turns =
    result_or (small_cop, small_thief) (wire_play millionths small_cop small_thief small_turns)

small_Agrees : Agrees millionths small_cop small_thief
small_Agrees = record {
  cop_role = refl;
  thief_role = refl;
  board = refl;
  rules = refl;
  turns = refl;
  turn = refl;
}

wire_turn_fate_example :
    TurnEnds millionths
      (own_turn millionths small_thief (move north))
      (wire_turn millionths small_cop small_thief thief (move north) [])
wire_turn_fate_example =
    wire_turn_fate millionths small_cop small_thief thief (move north) [] small_Agrees

wire_play-new-Agrees_example :
    Agrees millionths after_turns.0 after_turns.1
    × ((i_am_captured millionths after_turns.1
          || (answer_capture_claim millionths after_turns.1 after_turns.0.cell).caught)
        ≡ is_caught after_turns.0.board after_turns.0.cell after_turns.1.cell)
unfolding wire_run
wire_play-new-Agrees_example =
    wire_play-new-Agrees millionths (pos 3) (pos 0, pos 0) (pos 2, pos 2) small_rules 900000 100000
      5 small_cop small_thief small_turns after_turns.0 after_turns.1 refl refl refl

-- The audit's replay at the start of the same game, and the thief's first step as its reveal.
abbrev small_replayed : Replayed
small_replayed = record {
  board = small_board;
  positions = record { of_police = (pos 0, pos 0); of_thief = (pos 2, pos 2) };
  turns = 0;
  outcome = ongoing;
  disputed = none;
  pending = none;
}

abbrev small_reveal : Revealed
small_reveal = record {
  step = pos 1;
  role = thief;
  sub_game = pos 1;
  action = move north;
  hint = "near";
}

abbrev pub stepped_thief : OwnState millionths × Option Cell
stepped_thief = result_or (small_thief, none) (own_turn millionths small_thief (move north))

replay_action-lived_example :
    (s' : Replayed) × (replay_action small_rules small_replayed (small_reveal, none) ≡ ok s')
    × Matches millionths s' small_cop stepped_thief.0
    × (s'.outcome ≡ true_outcome millionths thief small_cop stepped_thief.0 ongoing)
unfolding wire_run
replay_action-lived_example =
    replay_action-lived millionths small_replayed small_cop small_thief stepped_thief.0 thief
      stepped_thief.1 small_reveal none small_Agrees
      (record { board = refl; cop = refl; robber = refl; turns = refl }) refl refl refl

-- The cop's reveal of step 1 before the thief's.
abbrev cop_reveal : Revealed
cop_reveal = record small_reveal { role = police; action = barrier (pos 0, pos 1) }

abbrev small_records : List AuditRecord
small_records =
    record {
      payload = some cop_reveal;
      declared = some (record {
        barrier_placed = some (pos 0, pos 1);
        capture_claim = none;
        hint = some "near";
      });
    }
    ∷ record { payload = none; declared = none }
    ∷ record { payload = some small_reveal; declared = none }
    ∷ []

abbrev small_entries : List Entry
small_entries = (small_reveal, none) ∷ (cop_reveal, none) ∷ []

entries-IsOrdered_example : IsOrdered small_entries × Gathers small_records small_entries
unfolding entries verify_declared
entries-IsOrdered_example = entries-IsOrdered small_records small_entries refl
