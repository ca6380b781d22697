-- ===== src/OwnState/Actions.antt =====
-- What the operations of one peer do when they succeed, and what it means that two peers agree.
use p2p_thief.Prelude.{
  ◌≡◌, refl, Bool, false, not, ◌&&◌, ◌==◌, if◌then◌else◌, List, Option, none, some,
}
use p2p_thief.Prelude.{ok, raise_if, bind-eq-ok, then-eq-ok, arith, length}
use p2p_thief.Prelude.Int.{pos, leb_ℤ}
use p2p_thief.Primitives.{Cell, cell_equality, police, thief, rival, role_equality}
use p2p_thief.Board.{Board, add_barrier, apply_move}
use p2p_thief.Rules.{validate_barrier_placement}
use p2p_thief.Rules.Laws.{validate_barrier_placement-ok}
use p2p_thief.Scent.Float.{Floats}
use p2p_thief.Protocol.{Action, move, barrier}
use p2p_thief.OwnState.{
  OwnState, apply_own_action, note_rival_barrier, note_rival_half_turn, close_full_turn,
  i_am_captured, own_turn, absorb_turn, absorb,
}

module _ (F : Floats) where
  -- The public parts of the cop's state and of the thief's.
  pub record Agrees (c t : OwnState F) : Type 0 where
    pub cop_role : c.role ≡ police
    pub thief_role : t.role ≡ thief
    pub board : t.board ≡ c.board
    pub rules : t.rules ≡ c.rules
    pub turns : t.turns_completed ≡ c.turns_completed
    pub turn : t.next_actor ≡ c.next_actor

  -- What a granted action of the own side is.
  pub apply_own_action-move :
      (s : OwnState F) (m : _) (s' : OwnState F) (placed : Option Cell)
      → apply_own_action F s (move m) ≡ ok (s', placed)
      → (s.next_actor ≡ s.role)
        × (placed ≡ none)
        × (cell : Cell) × (s' ≡ record s { cell = cell; next_actor = rival s.role })
  unfolding apply_own_action
  apply_own_action-move s m s' placed h =
      let (t, rest) = then-eq-ok (raise_if (not (s.next_actor == s.role)) _) _ h in
      let (cell, _, made) = bind-eq-ok (apply_move s.board s.cell m) _ rest in
      (ground (arith, role_equality.test_iff s.next_actor s.role), ground arith, cell, ground arith)

  pub apply_own_action-barrier :
      (s : OwnState F) (c : Cell) (s' : OwnState F) (placed : Option Cell)
      → apply_own_action F s (barrier c) ≡ ok (s', placed)
      → (s.next_actor ≡ s.role)
        × (s.role ≡ police)
        × (placed ≡ some c)
        × (validate_barrier_placement s.board s.rules s.cell c ≡ ok tt)
        × (b : Board) × (add_barrier s.board c ≡ ok b)
        × (s' ≡ record s { board = b; next_actor = rival s.role })
  unfolding apply_own_action
  apply_own_action-barrier s c s' placed h =
      let (t, rest) = then-eq-ok (raise_if (not (s.next_actor == s.role)) _) _ h in
      let (r, rest2) = then-eq-ok (raise_if (not (s.role == police)) _) _ rest in
      let (lawful, rest3) =
        then-eq-ok (validate_barrier_placement s.board s.rules s.cell c) _ rest2 in
      let (b, added, made) = bind-eq-ok (add_barrier s.board c) _ rest3 in
      (
        ground (arith, role_equality.test_iff s.next_actor s.role),
        ground (arith, role_equality.test_iff s.role police),
        ground arith,
        lawful,
        b,
        added,
        ground arith,
      )

  -- A barrier that is lawful for the rival's cell, wherever that is, is absorbed.
  note_rival_barrier-ok :
      (s : OwnState F) (cop c : Cell) (b : Board)
      → validate_barrier_placement s.board s.rules cop c ≡ ok tt
      → add_barrier s.board c ≡ ok b
      → note_rival_barrier F s c ≡ ok (record s { board = b })
  unfolding note_rival_barrier
  note_rival_barrier-ok s cop c b lawful added =
      let (room, _, inside, free) = validate_barrier_placement-ok s.board s.rules cop c lawful in
      let fits : leb_ℤ s.rules.max_barriers (pos (length s.board.barriers)) ≡ false =
        ground arith in
      rw (inside, free, fits, added) refl

  -- A state that a message of the rival has reached at its turn.
  abbrev pub absorbed : OwnState F → List (Cell × F.Float) → OwnState F
  absorbed s smell = record s { next_actor = s.role; rival_scent = absorb F s.rival_scent smell }

  abbrev pub ticked : OwnState F → Bool → OwnState F
  ticked s ticks = if ticks then close_full_turn F s else s

  module _ (s : OwnState F) (smell : List (Cell × F.Float)) (conceded : Bool) where
    pub absorb_turn-none :
        (s.next_actor == s.role) ≡ false
        → absorb_turn F s none smell conceded
          ≡ ok (ticked (absorbed s smell) (s.role == police && not conceded))
    unfolding absorb_turn note_rival_half_turn
    absorb_turn-none away = rw away refl

    pub absorb_turn-some :
        (cop c : Cell) (b : Board)
        → (s.next_actor == s.role) ≡ false
        → validate_barrier_placement s.board s.rules cop c ≡ ok tt
        → add_barrier s.board c ≡ ok b
        → absorb_turn F s (some c) smell conceded
          ≡ ok (ticked (absorbed (record s { board = b }) smell) (s.role == police && not conceded))
    unfolding absorb_turn note_rival_half_turn
    absorb_turn-some cop c b away lawful added =
        rw (note_rival_barrier-ok s cop c b lawful added, away) refl

  pub own_turn-ok :
      (s : OwnState F) (a : Action) (s' : OwnState F) (placed : Option Cell)
      → own_turn F s a ≡ ok (s', placed)
      → (acted : OwnState F) × (apply_own_action F s a ≡ ok (acted, placed))
        × (s' ≡ ticked acted (s.role == thief && not (i_am_captured F acted)))
  unfolding own_turn
  own_turn-ok s a s' placed h =
      let (r, acts, made) = bind-eq-ok (apply_own_action F s a) _ h in
      (r.0, ground arith, ground arith)
