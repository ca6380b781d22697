-- ===== src/Tests/Physics.antt =====
-- Runs of the board, the rules, the scent and the engine.
use p2p_thief.Prelude.{take, drop, ◌≢◌, game_rule_error}
use p2p_thief.Board
use p2p_thief.Board.{Board}
use p2p_thief.Rules
use p2p_thief.Scent
use p2p_thief.Scent.{value_at, update, updated, delta_at, update_rows, update_row}
use p2p_thief.Scent.Bounds.{update-IsInRange, IsInRange}
use p2p_thief.Prelude.{◌⊎◌}
use p2p_thief.Primitives.{GamePhase, committing, awaiting_reveal}
use p2p_thief.StateMachine.Table.{Allows, Refuses, Reaches, at, transition_decides, phase_fate}
use p2p_thief.Protocol.Lockstep.{replay-new-IsValid}
use p2p_thief.Protocol.Turn.{stay_accepted, apply_action-refused}
use p2p_thief.Prelude.{
  List, Result, ◌≡◌, refl, inr, true, arith, ok, err, contains, length, ◌+◌, ◌*◌, ◌≤◌,
}
use p2p_thief.Prelude.Int.{ℤ, pos, ◌+ℤ◌, ◌-ℤ◌}
use p2p_thief.Primitives.{Cell, Role, applied_to, survival, north, stay, police, thief}
use p2p_thief.Board.{in_bounds, is_barrier, is_passable, add_barrier, apply_move, is_surrounded}
use p2p_thief.Rules.{validate_barrier_placement, outcome_after_full_turn}
use p2p_thief.Engine
use p2p_thief.Engine.{GameEngine, require_turn, check_captures_mid_round, close_full_turn}
use p2p_thief.Engine.{police_move, police_place_barrier, thief_move}
use p2p_thief.Protocol.{Action, move, apply_action, replay}
use p2p_thief.Engine.Invariant.{IsValid}
use p2p_thief.Protocol.Clock.{length-replay-le, replay-is_barrier}
use p2p_thief.Tests.Samples.{
  millionths, small_rules, blank_field, small_game, small_actions, result_or,
}

-- The replay with all that it calls open.
run : GameEngine millionths → List (Role × Action) → Result (GameEngine millionths)
unfolding replay apply_action police_move police_place_barrier thief_move require_turn
    check_captures_mid_round close_full_turn validate_barrier_placement outcome_after_full_turn
    in_bounds is_barrier is_passable add_barrier apply_move is_surrounded contains applied_to ◌+ℤ◌
    ◌-ℤ◌
run e acts = replay millionths e acts

apart : ◌≢◌ {A = Cell} (pos 0, pos 0) (pos 2, pos 2)
apart e = cc

abbrev walled_game : GameEngine millionths
walled_game = result_or small_game (replay millionths small_game (take 2 small_actions))

-- The constructors with all that they call open.
fresh : ℤ → Result Board
unfolding Board.new Engine.new Scent.new Rules.post_init
fresh g = Board.new g

abbrev small_end : GameEngine millionths
small_end = result_or small_game (replay millionths small_game small_actions)

small_replay : (small_end.outcome ≡ survival) × (small_end.turns_completed ≡ 2)
unfolding run
small_replay = (refl, refl)

small_replay-ok : replay millionths small_game small_actions ≡ ok small_end
unfolding run
small_replay-ok = refl

small_game-IsValid : IsValid millionths small_game
unfolding run
small_game-IsValid = record {
  board_valid = record { wide = omega arith; inside = tt; distinct = tt };
  cop_inside = refl;
  thief_inside = refl;
  quota = omega arith;
  decided = refl;
}

length-replay-le_example : length small_actions + 0 ≤ 2 * 2
length-replay-le_example =
    length-replay-le millionths small_game small_actions small_end small_replay-ok
      small_game-IsValid refl

replay-new-IsValid_example : IsValid millionths small_end
unfolding run fresh
replay-new-IsValid_example =
    replay-new-IsValid millionths (pos 3) (pos 0, pos 0) (pos 2, pos 2) small_rules 900000 100000 5
      small_game small_end small_actions refl apart refl small_replay-ok

stay_accepted_example :
    (e : GameEngine millionths) × (apply_action millionths small_game police (move stay) ≡ ok e)
stay_accepted_example = stay_accepted millionths small_game refl

apply_action-refused_example :
    apply_action millionths small_game thief (move north) ≡ err game_rule_error
apply_action-refused_example =
    apply_action-refused millionths small_game thief (move north) (inr (λ h. cc))

replay-is_barrier_example : is_barrier small_end.board (pos 0, pos 1) ≡ true
unfolding run
replay-is_barrier_example =
    replay-is_barrier millionths walled_game (drop 2 small_actions) small_end (pos 0, pos 1) refl
      refl

update-IsInRange_example : IsInRange millionths 900000 900000
unfolding value_at updated delta_at run update update_rows update_row
update-IsInRange_example =
    update-IsInRange millionths blank_field (pos 1, pos 1) 1 1 900000 refl refl

transition_decides_example :
    Allows (record { state = committing }) awaiting_reveal
    ⊎ Refuses (record { state = committing }) awaiting_reveal
transition_decides_example = transition_decides committing awaiting_reveal

phase_fate_example : Reaches (at committing) (at GamePhase.technical_loss)
phase_fate_example = (phase_fate committing).0
