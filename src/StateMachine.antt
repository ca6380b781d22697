-- ===== src/StateMachine.antt =====
-- src/p2p_thief/domain/state_machine.py: the strict turn state machine.
pub mod Table
use p2p_thief.Prelude.{◌≡◌, refl, Bool, true, false, not, ◌||◌, List, [], ◌∷◌, arith, any}
use p2p_thief.Prelude.{Result, ok, err, illegal_transition_error, ◌↔◌}
use p2p_thief.Prelude.{raise_if, ◌>>=◌, ◌>>◌, Equality, ◌==◌, contains}
use p2p_thief.Primitives.{GamePhase, waiting_for_opponent, computing_move, committing}
use p2p_thief.Primitives.{awaiting_reveal, verifying, technical_loss}

abbrev pub eqb_phase : GamePhase → GamePhase → Bool
eqb_phase waiting_for_opponent waiting_for_opponent = true
eqb_phase computing_move computing_move = true
eqb_phase committing committing = true
eqb_phase awaiting_reveal awaiting_reveal = true
eqb_phase verifying verifying = true
eqb_phase GamePhase.technical_loss GamePhase.technical_loss = true
eqb_phase _ _ = false

pub eqb_phase_iff : (a b : GamePhase) → (eqb_phase a b ≡ true) ↔ (a ≡ b)
eqb_phase_iff a b = (ground arith, ground arith)

instance abbrev pub phase_equality : Equality GamePhase
phase_equality = record { test = eqb_phase; test_iff = eqb_phase_iff }

-- `_TRANSITIONS`
abbrev pub transitions : GamePhase → List GamePhase
transitions waiting_for_opponent = computing_move ∷ []
transitions computing_move = committing ∷ GamePhase.technical_loss ∷ []
transitions committing = awaiting_reveal ∷ []
transitions awaiting_reveal = verifying ∷ GamePhase.technical_loss ∷ []
transitions verifying = waiting_for_opponent ∷ []
transitions GamePhase.technical_loss = []

-- The machine's one field.
pub record GamePhaseMachine : Type 0 where
  pub state : GamePhase

abbrev pub start : GamePhaseMachine
start = record { state = waiting_for_opponent }

abbrev is_empty : List GamePhase → Bool
is_empty [] = true
is_empty (p ∷ ps) = false

unfoldable pub is_terminal : GamePhaseMachine → Bool
is_terminal m = is_empty (transitions m.state)

unfoldable pub can_transition : GamePhaseMachine → GamePhase → Bool
unfolding contains
can_transition m target = contains target (transitions m.state)

unfoldable pub transition : GamePhaseMachine → GamePhase → Result GamePhaseMachine
unfolding can_transition
transition m target = do
  raise_if (not (can_transition m target)) illegal_transition_error
  ok (record m { state = target })
