-- ===== src/Engine/Methods.antt =====
-- What a method that succeeds has checked, and the engine that it returns.
use p2p_thief.Prelude.{◌≡◌, sym, ◌==◌, if◌then◌else◌, arith}
use p2p_thief.Prelude.{ok, bind-eq-ok, then-eq-ok, ok_inj}
use p2p_thief.Primitives.{Cell, cell_equality, Move, Role, police, thief, role_equality}
use p2p_thief.Primitives.{ongoing, capture, is_ongoing}
use p2p_thief.Board.{Board, add_barrier, apply_move}
use p2p_thief.Rules.{validate_barrier_placement}
use p2p_thief.Scent.Float.{Floats}
use p2p_thief.Engine.{GameEngine, require_turn, check_captures_mid_round, close_full_turn}
use p2p_thief.Engine.{police_move, police_place_barrier, thief_move}

module _ (F : Floats) where
  pub require_turn-ok :
      (e : GameEngine F) (r : Role)
      → require_turn F e r ≡ ok tt
      → (e.outcome ≡ ongoing) × (e.next_actor ≡ r)
  unfolding require_turn
  require_turn-ok e r h = ground arith

  -- The mid-round check settles the outcome and nothing else.
  pub check_captures_mid_round-fields :
      (e : GameEngine F)
      → ((check_captures_mid_round F e).board ≡ e.board)
        × ((check_captures_mid_round F e).positions ≡ e.positions)
        × ((check_captures_mid_round F e).rules ≡ e.rules)
        × ((check_captures_mid_round F e).turns_completed ≡ e.turns_completed)
        × ((check_captures_mid_round F e).next_actor ≡ e.next_actor)
  unfolding check_captures_mid_round
  check_captures_mid_round-fields e = ground arith

  -- What a granted move of the cop is.
  pub police_move-ok :
      (e : GameEngine F) (m : Move) (e' : GameEngine F)
      → police_move F e m ≡ ok e'
      → (cell : Cell) × (e.outcome ≡ ongoing)
        × (e.next_actor ≡ police)
        × (apply_move e.board e.positions.of_police m ≡ ok cell)
        × (e'
            ≡ check_captures_mid_round F (record e {
              positions = record e.positions { of_police = cell };
              next_actor = thief;
            }))
  unfolding police_move
  police_move-ok e m e' h =
      let (t, rest) = then-eq-ok (require_turn F e police) _ h in
      let (cell, granted, made) = bind-eq-ok (apply_move e.board e.positions.of_police m) _ rest in
      let (on, turn) = require_turn-ok e police t in (cell, on, turn, granted, ground arith)

  -- What a granted placement is.
  pub police_place_barrier-ok :
      (e : GameEngine F) (target : Cell) (e' : GameEngine F)
      → police_place_barrier F e target ≡ ok e'
      → (e.outcome ≡ ongoing)
        × (e.next_actor ≡ police)
        × (validate_barrier_placement e.board e.rules e.positions.of_police target ≡ ok tt)
        × (board : Board) × (add_barrier e.board target ≡ ok board)
        × (e' ≡ (
            if target == e.positions.of_thief
            then record e { board = board; next_actor = thief; outcome = capture }
            else check_captures_mid_round F (record e { board = board; next_actor = thief })))
  unfolding police_place_barrier
  police_place_barrier-ok e target e' h =
      let (t, rest) = then-eq-ok (require_turn F e police) _ h in
      let (lawful, rest') =
        then-eq-ok (validate_barrier_placement e.board e.rules e.positions.of_police target) _
          rest in
      let (board, added, made) = bind-eq-ok (add_barrier e.board target) _ rest' in
      let (on, turn) = require_turn-ok e police t in
      (on, turn, lawful, board, added, sym (ok_inj made))

  -- What a granted move of the thief is.
  pub thief_move-ok :
      (e : GameEngine F) (m : Move) (e' : GameEngine F)
      → thief_move F e m ≡ ok e'
      → (cell : Cell) × (e.outcome ≡ ongoing)
        × (e.next_actor ≡ thief)
        × (apply_move e.board e.positions.of_thief m ≡ ok cell)
        × (let moved = check_captures_mid_round F (record e {
          positions = record e.positions { of_thief = cell };
          next_actor = police;
        }) in
            e' ≡ (if is_ongoing moved.outcome then close_full_turn F moved else moved))
  unfolding thief_move
  thief_move-ok e m e' h =
      let (t, rest) = then-eq-ok (require_turn F e thief) _ h in
      let (cell, granted, made) = bind-eq-ok (apply_move e.board e.positions.of_thief m) _ rest in
      let (on, turn) = require_turn-ok e thief t in (cell, on, turn, granted, sym (ok_inj made))
