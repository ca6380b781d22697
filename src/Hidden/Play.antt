-- ===== src/Hidden/Play.antt =====
-- src/p2p_thief/wire/hidden_runtime.py: the loop of a game after the negotiation, and its failure path.
-- What is decided and drawn outside for each half-turn is a list.
use p2p_thief.Prelude.{
  Bool, true, false, ◌==◌, List, [], ◌∷◌, Error, game_rule_error, illegal_move_error,
  illegal_barrier_error, illegal_transition_error, rival_breach_error, deadline_expired_error,
  if◌then◌else◌,
}
use p2p_thief.Primitives.{role_equality, is_ongoing, Outcome, GamePhase}
use p2p_thief.StateMachine.{can_transition}
use p2p_thief.Scent.Float.{Floats}
use p2p_thief.Crypto.{Hashing}
use p2p_thief.Hidden.{Runtime, done, raised, Act, ◌>>=◌}
use p2p_thief.Hidden.Turns.{Texts, Outside, Decision, my_half_turn, their_half_turn}

-- What `except (DeadlineExpiredError, GameRuleError)` catches.
abbrev pub is_loss : Error → Bool
is_loss game_rule_error = true
is_loss illegal_move_error = true
is_loss illegal_barrier_error = true
is_loss illegal_transition_error = true
is_loss rival_breach_error = true
is_loss deadline_expired_error = true
is_loss _ = false

module _ (F : Floats) (H : Hashing) (T : Texts F) where
  unfoldable pub half_turn : Decision → Outside → Act F Unit
  half_turn d o rt =
      if rt.own.next_actor == rt.role then my_half_turn F H T d o rt else their_half_turn F H T o rt

  unfoldable pub play_loop : List (Decision × Outside) → Act F Unit
  play_loop [] rt = done tt rt
  play_loop ((d, o) ∷ turns) rt =
      if is_ongoing rt.own.outcome then (half_turn d o >>= λ _. play_loop turns) rt else done tt rt

  unfoldable pub lost : Runtime F → Runtime F
  lost rt = record rt {
    fsm =
        if can_transition rt.fsm GamePhase.technical_loss
        then record { state = GamePhase.technical_loss }
        else rt.fsm;
    own = record rt.own { outcome = Outcome.technical_loss };
  }

  unfoldable pub play : List (Decision × Outside) → Act F Unit
  play turns rt = elim (play_loop turns rt) [
    | done u r ↦ done u r
    | raised e r ↦ raised e (if is_loss e then lost r else r)
  ]
