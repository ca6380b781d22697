-- ===== src/Protocol/Turn.antt =====
-- Whose turn it is: who is refused, and that the player to move always has an action.
use p2p_thief.Prelude.{◌≡◌, refl, ◌≢◌, ◌⊎◌, ok, err, game_rule_error, arith, if◌then◌else◌}
use p2p_thief.Prelude.{==_refl}
use p2p_thief.Primitives.{Role, police, thief, role_equality, ongoing, is_ongoing}
use p2p_thief.Primitives.{stay, applied_to}
use p2p_thief.Board.{apply_move}
use p2p_thief.Scent.Float.{Floats}
use p2p_thief.Engine.{GameEngine, put, require_turn, check_captures_mid_round, close_full_turn}
use p2p_thief.Engine.{police_move, police_place_barrier, thief_move}
use p2p_thief.Protocol.{Action, move, barrier, apply_action}

module _ (F : Floats) where
  require_turn-granted :
      (e : GameEngine F) (r : Role)
      → e.outcome ≡ ongoing
      → e.next_actor ≡ r
      → require_turn F e r ≡ ok tt
  unfolding require_turn
  require_turn-granted e r on turn = rw (on, turn, ==_refl r)

  require_turn-refused :
      (e : GameEngine F) (r : Role)
      → (e.outcome ≢ ongoing) ⊎ (e.next_actor ≢ r)
      → require_turn F e r ≡ err game_rule_error
  unfolding require_turn
  require_turn-refused e r out = ground arith

  -- While the game is on, the player to move can move: to stay is accepted.
  pub stay_accepted :
      (e : GameEngine F)
      → e.outcome ≡ ongoing
      → (e' : GameEngine F) × (apply_action F e e.next_actor (move stay) ≡ ok e')
  unfolding apply_action police_move thief_move apply_move
  stay_accepted e on = go e.next_actor refl
    where
      go :
          (r : Role)
          → e.next_actor ≡ r
          → (e' : GameEngine F) × (apply_action F e r (move stay) ≡ ok e')
      go police turn = (
        check_captures_mid_round F (record e {
          positions = put e.positions police (applied_to stay e.positions.of_police);
          next_actor = thief;
        }),
        rw (require_turn-granted e police on turn),
      )
      go thief turn =
          let moved : GameEngine F = check_captures_mid_round F (record e {
            positions = put e.positions thief (applied_to stay e.positions.of_thief);
            next_actor = police;
          }) in
          (
            if is_ongoing moved.outcome then close_full_turn F moved else moved,
            rw (require_turn-granted e thief on turn),
          )

  -- The player who is not to move, and everybody once the game is over, is refused, whatever the
  -- action.
  pub apply_action-refused :
      (e : GameEngine F) (r : Role) (a : Action)
      → (e.outcome ≢ ongoing) ⊎ (e.next_actor ≢ r)
      → apply_action F e r a ≡ err game_rule_error
  unfolding apply_action police_move thief_move police_place_barrier
  apply_action-refused e police (move m) out = rw (require_turn-refused e police out)
  apply_action-refused e thief (move m) out = rw (require_turn-refused e thief out)
  apply_action-refused e police (barrier c) out = rw (require_turn-refused e police out)
  apply_action-refused e thief (barrier c) out = refl
