-- ===== src/Reconstruct/Applied.antt =====
-- The replay of one own action of either side.
use p2p_thief.Prelude.{◌≡◌, refl, sym, ap, not, ◌==◌, Option, arith}
use p2p_thief.Prelude.{ok, raise_if, bind-eq-ok, then-eq-ok, ok_inj}
use p2p_thief.Primitives.{Cell, cell_equality, police, thief, rival, role_equality}
use p2p_thief.Board.{add_barrier, apply_move}
use p2p_thief.Rules.{validate_barrier_placement}
use p2p_thief.Engine.{PerRole}
use p2p_thief.Protocol.{Action, move, barrier}
use p2p_thief.Scent.Float.{Floats}
use p2p_thief.OwnState.{OwnState, apply_own_action}
use p2p_thief.Reconstruct.{apply_revealed}

module _ (F : Floats) where
  module _ (s s' : OwnState F) (placed : Option Cell) (positions : PerRole Cell) where
    -- The replay of an own action of the cop finds the own board and cell.
    pub police_applied :
        (a : Action)
        → s.role ≡ police
        → positions.of_police ≡ s.cell
        → apply_own_action F s a ≡ ok (s', placed)
        → apply_revealed s.board positions s.rules police a
          ≡ ok (s'.board, record positions { of_police = s'.cell })
    unfolding apply_revealed apply_own_action
    police_applied (move m) cop here acts =
        let (_, rest) = then-eq-ok (raise_if (not (s.next_actor == s.role)) _) _ acts in
        let (cell, granted, made) = bind-eq-ok (apply_move s.board s.cell m) _ rest in
        let same : record s { cell = cell; next_actor = rival s.role } ≡ s' =
          ap (λ r. r.0) (ok_inj made) in
        let moves : apply_move s.board positions.of_police m ≡ ok cell = rw here granted in
        rw (apply_revealed, moves, ← same) refl
    police_applied (barrier c) cop here acts =
        let (_, rest) = then-eq-ok (raise_if (not (s.next_actor == s.role)) _) _ acts in
        let (_, rest2) = then-eq-ok (raise_if (not (s.role == police)) _) _ rest in
        let (lawful, rest3) =
          then-eq-ok (validate_barrier_placement s.board s.rules s.cell c) _ rest2 in
        let (b, added, made) = bind-eq-ok (add_barrier s.board c) _ rest3 in
        let same : record s { board = b; next_actor = rival s.role } ≡ s' =
          ap (λ r. r.0) (ok_inj made) in
        let allowed : validate_barrier_placement s.board s.rules positions.of_police c ≡ ok tt =
          rw here lawful in
        rw (apply_revealed, allowed, added, ← same, ← here) refl

    pub thief_applied :
        (a : Action)
        → s.role ≡ thief
        → positions.of_thief ≡ s.cell
        → apply_own_action F s a ≡ ok (s', placed)
        → apply_revealed s.board positions s.rules thief a
          ≡ ok (s'.board, record positions { of_thief = s'.cell })
    unfolding apply_revealed apply_own_action
    thief_applied (move m) robber here acts =
        let (_, rest) = then-eq-ok (raise_if (not (s.next_actor == s.role)) _) _ acts in
        let (cell, granted, made) = bind-eq-ok (apply_move s.board s.cell m) _ rest in
        let same : record s { cell = cell; next_actor = rival s.role } ≡ s' =
          ap (λ r. r.0) (ok_inj made) in
        let moves : apply_move s.board positions.of_thief m ≡ ok cell = rw here granted in
        rw (apply_revealed, moves, ← same) refl
    thief_applied (barrier c) robber here acts =
        let (_, rest) = then-eq-ok (raise_if (not (s.next_actor == s.role)) _) _ acts in
        let (cop, _) = then-eq-ok (raise_if (not (s.role == police)) _) _ rest in
        absurd (ground (arith, robber))

  pub apply_own_action-clock :
      (s s' : OwnState F) (placed : Option Cell) (a : Action)
      → apply_own_action F s a ≡ ok (s', placed)
      → (s'.turns_completed ≡ s.turns_completed) × (s'.rules ≡ s.rules)
  unfolding apply_own_action
  apply_own_action-clock s s' placed (move m) acts =
      let (_, rest) = then-eq-ok (raise_if (not (s.next_actor == s.role)) _) _ acts in
      let (cell, _, made) = bind-eq-ok (apply_move s.board s.cell m) _ rest in
      let same : record s { cell = cell; next_actor = rival s.role } ≡ s' =
        ap (λ r. r.0) (ok_inj made) in
      (ap (λ q. q.turns_completed) (sym same), ap (λ q. q.rules) (sym same))
  apply_own_action-clock s s' placed (barrier c) acts =
      let (_, rest) = then-eq-ok (raise_if (not (s.next_actor == s.role)) _) _ acts in
      let (_, rest2) = then-eq-ok (raise_if (not (s.role == police)) _) _ rest in
      let (_, rest3) = then-eq-ok (validate_barrier_placement s.board s.rules s.cell c) _ rest2 in
      let (b, _, made) = bind-eq-ok (add_barrier s.board c) _ rest3 in
      let same : record s { board = b; next_actor = rival s.role } ≡ s' =
        ap (λ r. r.0) (ok_inj made) in
      (ap (λ q. q.turns_completed) (sym same), ap (λ q. q.rules) (sym same))
