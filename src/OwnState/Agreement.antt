-- ===== src/OwnState/Agreement.antt =====
-- The two peers of the hidden wire, each with its own state: an action that is legal for the one is
-- absorbed by the other, and their public parts stay the same.
use p2p_thief.Prelude.{
  ◌+◌, ◌≡◌, refl, sym, ap, ◌∙◌, Bool, true, false, not, ◌&&◌, ◌==◌, List, Option,
}
use p2p_thief.Prelude.{ok, arith}
use p2p_thief.Primitives.{Cell, cell_equality, police, thief, rival, role_equality}
use p2p_thief.Scent.Float.{Floats}
use p2p_thief.Protocol.{Action, move, barrier}
use p2p_thief.OwnState.{OwnState, close_full_turn, i_am_captured, own_turn, absorb_turn}
use p2p_thief.OwnState.Actions.{
  Agrees, apply_own_action-move, apply_own_action-barrier, absorbed, ticked, absorb_turn-none,
  absorb_turn-some, own_turn-ok,
}

module _ (F : Floats) where
  -- The thief hears every turn of the cop.
  module _ (c t : OwnState F) (agrees : Agrees F c t) (smell : List (Cell × F.Float))
      (c' : OwnState F) (placed : Option Cell) where
    police_away : c.next_actor ≡ c.role → (t.next_actor == t.role) ≡ false
    police_away mine =
        let e : t.next_actor ≡ police = agrees.turn ∙ mine ∙ agrees.cop_role in
        ground (arith, e, agrees.thief_role)

    -- The thief's role ticks no boundary on a message, and the cop's none on its own turn.
    no_tick_heard : (t.role == police && not false) ≡ false
    no_tick_heard = ground (arith, agrees.thief_role)

    no_tick_own : (b : Bool) → (c.role == thief && b) ≡ false
    no_tick_own b = ground (arith, agrees.cop_role)

    passed : t.role ≡ rival c.role
    passed = agrees.thief_role ∙ sym (ap rival agrees.cop_role)

    police_moves :
        (m : _)
        → own_turn F c (move m) ≡ ok (c', placed)
        → (t' : OwnState F) × (absorb_turn F t placed smell false ≡ ok t') × Agrees F c' t'
    police_moves m h =
        let (acted, acts, made) = own_turn-ok F c (move m) c' placed h in
        let (mine, unplaced, cell, e) = apply_own_action-move F c m acted placed acts in
        let same : c' ≡ record c { cell = cell; next_actor = rival c.role } =
          made ∙ rw (no_tick_own (not (i_am_captured F acted))) e in
        (
          absorbed F t smell,
          rw unplaced (absorb_turn-none F t smell false (police_away mine) ∙ rw no_tick_heard refl),
          rw same (record {
            cop_role = agrees.cop_role;
            thief_role = agrees.thief_role;
            board = agrees.board;
            rules = agrees.rules;
            turns = agrees.turns;
            turn = passed;
          }),
        )

    police_walls :
        (target : Cell)
        → own_turn F c (barrier target) ≡ ok (c', placed)
        → (t' : OwnState F) × (absorb_turn F t placed smell false ≡ ok t') × Agrees F c' t'
    police_walls target h =
        let (acted, acts, made) = own_turn-ok F c (barrier target) c' placed h in
        let (mine, _, walled, lawful, b, added, e) =
          apply_own_action-barrier F c target acted placed acts in
        let same : c' ≡ record c { board = b; next_actor = rival c.role } =
          made ∙ rw (no_tick_own (not (i_am_captured F acted))) e in
        (
          absorbed F (record t { board = b }) smell,
          rw walled (
              absorb_turn-some F t smell false c.cell target b (police_away mine)
                (rw (agrees.board, agrees.rules) lawful) (rw agrees.board added)
              ∙ rw no_tick_heard refl),
          rw same (record {
            cop_role = agrees.cop_role;
            thief_role = agrees.thief_role;
            board = refl;
            rules = agrees.rules;
            turns = agrees.turns;
            turn = passed;
          }),
        )

    pub police_turn :
        (a : Action)
        → own_turn F c a ≡ ok (c', placed)
        → (t' : OwnState F) × (absorb_turn F t placed smell false ≡ ok t') × Agrees F c' t'
    police_turn (move m) h = police_moves m h
    police_turn (barrier target) h = police_walls target h

  -- Ticking a boundary or not, on both sides.
  ticked-Agrees :
      (c t : OwnState F) (b : Bool) → Agrees F c t → Agrees F (ticked F c b) (ticked F t b)
  unfolding close_full_turn
  ticked-Agrees c t false agrees = agrees
  ticked-Agrees c t true agrees = record {
    cop_role = agrees.cop_role;
    thief_role = agrees.thief_role;
    board = agrees.board;
    rules = agrees.rules;
    turns = ap (λ n. n + 1) agrees.turns;
    turn = agrees.turn;
  }

  ticked-i_am_captured :
      (s : OwnState F) (b : Bool) → i_am_captured F (ticked F s b) ≡ i_am_captured F s
  unfolding close_full_turn i_am_captured
  ticked-i_am_captured s false = refl
  ticked-i_am_captured s true = refl

  -- The cop hears every turn of the thief.
  module _ (c t : OwnState F) (agrees : Agrees F c t) (smell : List (Cell × F.Float))
      (t' : OwnState F) (placed : Option Cell) where
    thief_away : t.next_actor ≡ t.role → (c.next_actor == c.role) ≡ false
    thief_away mine =
        let e : c.next_actor ≡ thief = sym agrees.turn ∙ mine ∙ agrees.thief_role in
        ground (arith, e, agrees.cop_role)

    heard_tick : (b : Bool) → (c.role == police && not b) ≡ not b
    heard_tick b = ground (arith, agrees.cop_role)

    own_tick : (b : Bool) → (t.role == thief && not b) ≡ not b
    own_tick b = ground (arith, agrees.thief_role)

    thief_moves :
        (m : _)
        → own_turn F t (move m) ≡ ok (t', placed)
        → (c' : OwnState F) × (absorb_turn F c placed smell (i_am_captured F t') ≡ ok c')
          × Agrees F c' t'
    thief_moves m h =
        let (acted, acts, made) = own_turn-ok F t (move m) t' placed h in
        let (mine, unplaced, cell, e) = apply_own_action-move F t m acted placed acts in
        let ticks : Bool = not (i_am_captured F acted) in
        let same : t' ≡ ticked F acted ticks =
          made ∙ ap (ticked F acted) (own_tick (i_am_captured F acted)) in
        let conceded : i_am_captured F t' ≡ i_am_captured F acted =
          ap (i_am_captured F) same ∙ ticked-i_am_captured acted ticks in
        let agreed : Agrees F (absorbed F c smell) acted = rw e (record {
          cop_role = agrees.cop_role;
          thief_role = agrees.thief_role;
          board = agrees.board;
          rules = agrees.rules;
          turns = agrees.turns;
          turn = ap rival agrees.thief_role ∙ sym agrees.cop_role;
        }) in
        (
          ticked F (absorbed F c smell) ticks,
          rw (unplaced, conceded)
              (absorb_turn-none F c smell (i_am_captured F acted) (thief_away mine)
                ∙ ap (λ b. ok (ticked F (absorbed F c smell) b))
                    (heard_tick (i_am_captured F acted))),
          rw same (ticked-Agrees (absorbed F c smell) acted ticks agreed),
        )

    pub thief_turn :
        (a : Action)
        → own_turn F t a ≡ ok (t', placed)
        → (c' : OwnState F) × (absorb_turn F c placed smell (i_am_captured F t') ≡ ok c')
          × Agrees F c' t'
    thief_turn (move m) h = thief_moves m h
    thief_turn (barrier target) h =
        let (acted, acts, made) = own_turn-ok F t (barrier target) t' placed h in
        let (_, cop, _, _, _, _, _) = apply_own_action-barrier F t target acted placed acts in
        absurd (police_thief (sym cop ∙ agrees.thief_role))
      where
        police_thief : police ≡ thief → ⊥
        police_thief e = cc
