-- ===== src/Protocol.antt =====
-- src/p2p_thief/domain/protocol.py: actions, and the single path that applies them.
pub mod Lockstep
pub mod Clock
pub mod Turn
use p2p_thief.Prelude.{◌≡◌, Result, ok, err, game_rule_error, raise_if, ◌>>=◌, ◌>>◌, not, ◌==◌}
use p2p_thief.Prelude.{List, [], ◌∷◌}
use p2p_thief.Primitives.{Cell, Move, Role, police, thief, role_equality}
use p2p_thief.Engine.{GameEngine, police_move, police_place_barrier, thief_move}
use p2p_thief.Scent.Float.{Floats}

-- The action dictionary: `move_action` builds the first kind and `barrier_action` the second.
pub data Action : Type 0 where
  move : Move → Action
  barrier : Cell → Action

module _ (F : Floats) where
  unfoldable pub apply_action : GameEngine F → Role → Action → Result (GameEngine F)
  apply_action engine actor (barrier cell) = do
    raise_if (not (actor == police)) game_rule_error
    police_place_barrier F engine cell
  apply_action engine police (move m) = police_move F engine m
  apply_action engine thief (move m) = thief_move F engine m

  -- The replay of report/lookup.py: every sealed action, in order, on one engine.
  unfoldable pub replay : GameEngine F → List (Role × Action) → Result (GameEngine F)
  replay engine [] = ok engine
  replay engine ((actor, action) ∷ rest) = apply_action engine actor action >>= λ e. replay e rest
