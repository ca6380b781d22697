-- ===== src/Engine/Invariant.antt =====
-- What holds of the engine after every action: its outcome is the verdict of its state.
use p2p_thief.Prelude.{ℕ, ◌≡◌, refl, sym, ◌∙◌, inl, inr, Bool, true, false}
use p2p_thief.Prelude.{◌||◌, ◌==◌, ==_comm, if◌then◌else◌, Bool-cases, arith, length}
use p2p_thief.Prelude.{List, ◌∷◌, ok, contains}
use p2p_thief.Prelude.Int.{pos, leb_ℤ, ◌≤ℤ◌}
use p2p_thief.Primitives.{Cell, cell_equality, Move, police}
use p2p_thief.Primitives.{Outcome, ongoing, capture, survival, is_ongoing}
use p2p_thief.Board.{Board, in_bounds, is_barrier, is_surrounded}
use p2p_thief.Board.Laws
use p2p_thief.Board.Laws.{apply_move-in_bounds, apply_move-is_barrier, add_barrier-ok}
use p2p_thief.Board.Laws.{add_barrier-IsValid}
use p2p_thief.Rules.{RuleSet, outcome_after_full_turn}
use p2p_thief.Rules.Laws.{validate_barrier_placement-ok}
use p2p_thief.Scent.Float.{Floats}
use p2p_thief.Engine.{GameEngine, check_captures_mid_round, close_full_turn}
use p2p_thief.Engine.{police_move, police_place_barrier, thief_move}
use p2p_thief.Engine.Methods.{
  check_captures_mid_round-fields, police_move-ok, police_place_barrier-ok, thief_move-ok,
}

-- The three capture families of the rulebook, read off a state.
abbrev pub is_caught : Board → Cell → Cell → Bool
is_caught board cop robber = cop == robber || is_surrounded board robber || is_barrier board robber

abbrev pub is_time_up : RuleSet → ℕ → Bool
is_time_up rules turns =
    leb_ℤ rules.survival_threshold (pos turns) || leb_ℤ rules.max_moves (pos turns)

abbrev pub verdict_of : Bool → Bool → Outcome
verdict_of caught up = if caught then capture else if up then survival else ongoing

-- The outcome that the rulebook assigns to a state.
abbrev pub verdict : Board → RuleSet → Cell → Cell → ℕ → Outcome
verdict board rules cop robber turns =
    verdict_of (is_caught board cop robber) (is_time_up rules turns)

verdict_of-ongoing :
    (caught up : Bool) → verdict_of caught up ≡ ongoing → (caught ≡ false) × (up ≡ false)
verdict_of-ongoing caught up h = ground arith

module _ (F : Floats) where
  pub record IsValid (e : GameEngine F) : Type 0 where
    pub board_valid : Laws.IsValid e.board
    pub cop_inside : in_bounds e.board e.positions.of_police ≡ true
    pub thief_inside : in_bounds e.board e.positions.of_thief ≡ true
    pub quota : pos (length e.board.barriers) ≤ℤ e.rules.max_barriers
    pub decided :
        e.outcome
        ≡ verdict e.board e.rules e.positions.of_police e.positions.of_thief e.turns_completed

  -- Nobody is caught and the clock runs, as long as the game is on.
  pub ongoing-clear :
      (e : GameEngine F)
      → IsValid e
      → e.outcome ≡ ongoing
      → (is_caught e.board e.positions.of_police e.positions.of_thief ≡ false)
        × (is_time_up e.rules e.turns_completed ≡ false)
  ongoing-clear e v h =
      verdict_of-ongoing (is_caught e.board e.positions.of_police e.positions.of_thief)
        (is_time_up e.rules e.turns_completed) (sym v.decided ∙ h)

  check_captures_mid_round-decided :
      (e : GameEngine F)
      → e.outcome ≡ ongoing
      → is_barrier e.board e.positions.of_thief ≡ false
      → is_time_up e.rules e.turns_completed ≡ false
      → (check_captures_mid_round F e).outcome
        ≡ verdict e.board e.rules e.positions.of_police e.positions.of_thief e.turns_completed
  unfolding check_captures_mid_round
  check_captures_mid_round-decided e on free early = ground arith

  check_captures_mid_round-IsValid :
      (e : GameEngine F)
      → Laws.IsValid e.board
      → in_bounds e.board e.positions.of_police ≡ true
      → in_bounds e.board e.positions.of_thief ≡ true
      → pos (length e.board.barriers) ≤ℤ e.rules.max_barriers
      → e.outcome ≡ ongoing
      → is_barrier e.board e.positions.of_thief ≡ false
      → is_time_up e.rules e.turns_completed ≡ false
      → IsValid (check_captures_mid_round F e)
  check_captures_mid_round-IsValid e board cop robber quota on free early =
      let (b, p, r, t, _) = check_captures_mid_round-fields F e in
      record {
        board_valid = rw b board;
        cop_inside = rw (b, p) cop;
        thief_inside = rw (b, p) robber;
        quota = rw (b, r) quota;
        decided = rw (b, p, r, t) (check_captures_mid_round-decided e on free early);
      }

  pub police_move-IsValid :
      (e : GameEngine F) (m : Move) (e' : GameEngine F)
      → police_move F e m ≡ ok e'
      → IsValid e
      → IsValid e'
  police_move-IsValid e m e' h v =
      let (cell, on, turn, granted, made) = police_move-ok F e m e' h in
      let (clear, early) = ongoing-clear e v on in
      rw made (
        check_captures_mid_round-IsValid _ v.board_valid
          (apply_move-in_bounds e.board e.positions.of_police m cell granted v.cop_inside)
          v.thief_inside v.quota on (ground (arith, clear)) early)

  -- A barrier on the thief's cell ends the game by capture, whatever else holds.
  walled-decided :
      (board : Board) (rules : RuleSet) (cop robber : Cell) (turns : ℕ)
      → is_barrier board robber ≡ true
      → capture ≡ verdict board rules cop robber turns
  walled-decided board rules cop robber turns wall = ground arith

  is_barrier-grown :
      (b : Board) (c d : Cell)
      → is_barrier (record b { barriers = c ∷ b.barriers }) d ≡ (d == c || is_barrier b d)
  unfolding is_barrier contains
  is_barrier-grown b c d = refl

  in_bounds-grown :
      (b : Board) (cs : List Cell) (d : Cell)
      → in_bounds (record b { barriers = cs }) d ≡ in_bounds b d
  unfolding in_bounds
  in_bounds-grown b cs d = refl

  pub police_place_barrier-IsValid :
      (e : GameEngine F) (c : Cell) (e' : GameEngine F)
      → police_place_barrier F e c ≡ ok e'
      → IsValid e
      → IsValid e'
  police_place_barrier-IsValid e c e' h v =
      let (on, turn, lawful, board, added, made) = police_place_barrier-ok F e c e' h in
      let (clear, early) = ongoing-clear e v on in
      let (grown, on_grid, free) = add_barrier-ok e.board c board added in
      let fits = validate_barrier_placement-ok e.board e.rules e.positions.of_police c lawful in
      let board_valid = add_barrier-IsValid e.board c board added v.board_valid in
      let cop : in_bounds board e.positions.of_police ≡ true =
        rw (grown, in_bounds-grown) v.cop_inside in
      let robber : in_bounds board e.positions.of_thief ≡ true =
        rw (grown, in_bounds-grown) v.thief_inside in
      let walls : is_barrier board e.positions.of_thief
          ≡ (e.positions.of_thief == c || is_barrier e.board e.positions.of_thief) =
        rw (grown, is_barrier-grown) in
      let order = ==_comm e.positions.of_thief c in
      let quota : pos (length board.barriers) ≤ℤ e.rules.max_barriers =
        rw grown (omega (arith, fits.0)) in
      elim (Bool-cases (c == e.positions.of_thief)) [
        | inl hit ↦
            rw (made, hit)
              (record {
                board_valid = board_valid;
                cop_inside = cop;
                thief_inside = robber;
                quota = quota;
                decided =
                    walled-decided board e.rules e.positions.of_police e.positions.of_thief
                      e.turns_completed (rw (walls, order, hit));
              })
        | inr missed ↦
            rw (made, missed)
              (check_captures_mid_round-IsValid _ board_valid cop robber quota on
                (rw (walls, order, missed) (ground (arith, clear))) early)
      ]

  close_full_turn-IsValid :
      (e : GameEngine F) → IsValid e → e.outcome ≡ ongoing → IsValid (close_full_turn F e)
  unfolding close_full_turn outcome_after_full_turn
  close_full_turn-IsValid e v on =
      let (clear, early) = ongoing-clear e v on in
      record {
        board_valid = v.board_valid;
        cop_inside = v.cop_inside;
        thief_inside = v.thief_inside;
        quota = v.quota;
        decided = ground (arith, clear);
      }

  pub thief_move-IsValid :
      (e : GameEngine F) (m : Move) (e' : GameEngine F)
      → thief_move F e m ≡ ok e'
      → IsValid e
      → IsValid e'
  thief_move-IsValid e m e' h v =
      let (cell, on, turn, granted, made) = thief_move-ok F e m e' h in
      let (clear, early) = ongoing-clear e v on in
      let moved : GameEngine F =
        check_captures_mid_round F
          (record e { positions = record e.positions { of_thief = cell }; next_actor = police }) in
      let valid : IsValid moved =
        check_captures_mid_round-IsValid _ v.board_valid v.cop_inside
          (apply_move-in_bounds e.board e.positions.of_thief m cell granted v.thief_inside) v.quota
          on
          (apply_move-is_barrier e.board e.positions.of_thief m cell granted
            (ground (arith, clear)))
          early in
      elim (Bool-cases (is_ongoing moved.outcome)) [
        | inl going ↦ rw (made, going) (close_full_turn-IsValid moved valid (ground arith))
        | inr over ↦ rw (made, over) valid
      ]
