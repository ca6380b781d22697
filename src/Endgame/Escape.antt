-- ===== src/Endgame/Escape.antt =====
-- A move that the search of strategy/endgame.py certifies, played on the engine of domain/engine.py.
use p2p_thief.Prelude.{ℕ, zero, suc, ◌+◌, ◌≡◌, ◌⊎◌, inl, inr, refl, sym, ap, subst, ◌∙◌}
use p2p_thief.Prelude.{Bool, true, false, not, ◌&&◌, ◌||◌, arith, Bool-cases, &&-true, leb}
use p2p_thief.Prelude.{List, ◌∷◌, length, all, ◌==◌, ==_comm, if◌then◌else◌, if_false, ok}
use p2p_thief.Prelude.Int.{ℤ, pos, ◌-ℤ◌, ltb_ℤ, leb_ℤ, ◌<ℤ◌, -ℤ_parts, int_laws}
use p2p_thief.Primitives.{Cell, cell_equality, Move, applied_to, police, thief, role_equality}
use p2p_thief.Primitives.{ongoing, survival, capture}
use p2p_thief.Board
use p2p_thief.Board.{Board, in_bounds, is_barrier, apply_move, add_barrier}
use p2p_thief.Board.Laws.{add_barrier-ok}
use p2p_thief.Rules.{outcome_after_full_turn}
use p2p_thief.Rules.Laws.{validate_barrier_placement-ok}
use p2p_thief.Scent.Float.{Floats}
use p2p_thief.Engine.{GameEngine, require_turn, check_captures_mid_round, close_full_turn}
use p2p_thief.Engine.{police_move, police_place_barrier, thief_move}
use p2p_thief.Engine.Methods.{police_move-ok, police_place_barrier-ok}
use p2p_thief.Endgame.{
  is_passable, is_surrounded, with_wall, all_moves, move_equality, is_stay, wall_cells,
}
use p2p_thief.Endgame.Plain.{view_of, move_answered, wall_answered, move_lasts, lasts}
use p2p_thief.Endgame.Certified.{contains-all_moves}
use p2p_thief.Endgame.Reach.{
  all-contains, any-some, near-contains, SameCells, SameCells-wall, is_surrounded-same,
  apply_move-grants, apply_move-granted,
}

wall-free :
    (b board : Board) (extra : List Cell) (c : Cell)
    → SameCells b (view_of board extra)
    → in_bounds b c ≡ true
    → is_barrier b c ≡ false
    → not (in_bounds board c && is_passable (view_of board extra) c) ≡ false
unfolding is_passable Board.is_passable
wall-free b board extra c same inside clear = ground (arith, same c)

less_wall :
    (quota most : ℤ) (placed : ℕ)
    → quota ≡ most -ℤ pos placed
    → quota -ℤ pos 1 ≡ most -ℤ pos (suc placed)
less_wall quota most placed h = rw h (omega int_laws)

not-true : (b : Bool) → not b ≡ true → b ≡ false
not-true b h = ground arith

module _ (F : Floats) where
  -- Whatever the engine lets the cop do.
  pub data Reply (e e' : GameEngine F) : Type 0 where
    moved : (m : Move) → police_move F e m ≡ ok e' → Reply e e'
    walled : (c : Cell) → police_place_barrier F e c ≡ ok e' → Reply e e'

  -- The engine takes the thief's move, and the game ends by survival, or it goes on and the thief has
  -- such a move after every reply of the cop.
  pub data Outlasts : GameEngine F → Move → Type 0 where
    reached :
        {e : GameEngine F} {m : Move} (e' : GameEngine F)
        → thief_move F e m ≡ ok e'
        → e'.outcome ≡ survival
        → Outlasts e m
    goes_on :
        {e : GameEngine F} {m : Move} (e' : GameEngine F)
        → thief_move F e m ≡ ok e'
        → e'.outcome ≡ ongoing
        → (answer : (e'' : GameEngine F) → Reply e' e'' → Move)
        → ((e'' : GameEngine F) (r : Reply e' e'') → Outlasts e'' (answer e'' r))
        → Outlasts e m

  -- The engine after a move of the thief that is no capture.
  abbrev after_thief : GameEngine F → Move → GameEngine F
  after_thief e m = close_full_turn F (record e {
    positions = record e.positions { of_thief = applied_to m e.positions.of_thief };
    next_actor = police;
  })

  thief_move-lands :
      (e : GameEngine F) (m : Move)
      → e.outcome ≡ ongoing
      → e.next_actor ≡ thief
      → (not (is_stay m) && not (Board.is_passable e.board (applied_to m e.positions.of_thief)))
        ≡ false
      → (e.positions.of_police == applied_to m e.positions.of_thief) ≡ false
      → Board.is_surrounded e.board (applied_to m e.positions.of_thief) ≡ false
      → thief_move F e m ≡ ok (after_thief e m)
  unfolding thief_move require_turn check_captures_mid_round
  thief_move-lands e m on turn legal apart airy =
      rw (on, turn, apply_move-grants e.board e.positions.of_thief m legal, apart, airy) (refl)

  module _ (e : GameEngine F) (m : Move)
      (apart : (e.positions.of_police == applied_to m e.positions.of_thief) ≡ false)
      (airy : Board.is_surrounded e.board (applied_to m e.positions.of_thief) ≡ false) where
    after_thief-outcome :
        ((after_thief e m).outcome ≡ survival) ⊎ ((after_thief e m).outcome ≡ ongoing)
    unfolding close_full_turn outcome_after_full_turn
    after_thief-outcome =
        rw (apart, airy)
          (elim (Bool-cases (
            leb_ℤ e.rules.survival_threshold (pos (e.turns_completed + 1))
            || leb_ℤ e.rules.max_moves (pos (e.turns_completed + 1)))) [
              | inl up ↦ inl (rw up)
              | inr early ↦ inr (rw early)
            ])

    after_thief-survival :
        e.rules.survival_threshold ≡ pos (e.turns_completed + 1)
        → (after_thief e m).outcome ≡ survival
    unfolding close_full_turn outcome_after_full_turn
    after_thief-survival last = rw (apart, airy) (ground arith)

  -- The engine stands where a node of the search does, with `n` turns to go.
  pub record Faces (board : Board) (extra : List Cell) (quota : ℤ) (n : ℕ) (e : GameEngine F)
      : Type 0 where
    pub cells : SameCells e.board (view_of board extra)
    pub left : quota ≡ e.rules.max_barriers -ℤ pos (length e.board.barriers)
    pub clock : e.rules.survival_threshold ≡ pos (e.turns_completed + n)

  -- The search one turn deeper, from the states that the engine may reach.
  abbrev pub Deeper : Board → ℕ → Type 0
  Deeper board n =
      (m : Move) (extra : List Cell) (quota : ℤ) (e : GameEngine F)
      → e.outcome ≡ ongoing
      → e.next_actor ≡ thief
      → Faces board extra quota (suc n) e
      → move_lasts board (lasts board n) (suc n) m e.positions.of_thief e.positions.of_police extra
          quota
        ≡ true
      → Outlasts e m

  quiet :
      (e : GameEngine F)
      → (e.positions.of_police == e.positions.of_thief) ≡ false
      → Board.is_surrounded e.board e.positions.of_thief ≡ false
      → check_captures_mid_round F e ≡ e
  unfolding check_captures_mid_round
  quiet e apart airy = rw (apart, airy) (refl)

  missed-lasts :
      (blocked hit rest : Bool)
      → (blocked || not hit && rest) ≡ true
      → blocked ≡ false
      → (hit ≡ false) × (rest ≡ true)
  missed-lasts blocked hit rest h free = ground arith

  module _ (board : Board) (extra : List Cell) (quota : ℤ) (n : ℕ) (deeper : Deeper board n)
      (e : GameEngine F) (faces : Faces board extra quota (suc n) e) (on : e.outcome ≡ ongoing)
      (unmet : (e.positions.of_police == e.positions.of_thief) ≡ false)
      (airy : Board.is_surrounded e.board e.positions.of_thief ≡ false) where
    answer_move :
        (m : Move) (e'' : GameEngine F)
        → police_move F e m ≡ ok e''
        → move_answered board
            (lasts board (suc n))
            e.positions.of_thief
            e.positions.of_police
            extra
            quota
            m
          ≡ true
        → (m' : Move) × Outlasts e'' m'
    unfolding lasts
    answer_move m e'' granted answered =
        let target = applied_to m e.positions.of_police in
        let (cell, _, _, done, made) = police_move-ok F e m e'' granted in
        let (there, legal) = apply_move-granted e.board e.positions.of_police m cell done in
        let free : (not (is_stay m) && not (is_passable (view_of board extra) target)) ≡ false =
          ap (λ p. not (is_stay m) && not p) (sym (faces.cells target)) ∙ legal in
        let (apart, lasting) = missed-lasts _ _ _ answered free in
        let (m', good) =
          any-some
            (λ m'.
              move_lasts board (lasts board n) (suc n) m' e.positions.of_thief target extra quota)
            all_moves lasting in
        let now : GameEngine F = record e {
          positions = record e.positions { of_police = target };
          next_actor = thief;
        } in
        let placed = λ (at : Cell).
          check_captures_mid_round F
            (record e { positions = record e.positions { of_police = at }; next_actor = thief }) in
        let same : e'' ≡ now = made ∙ ap placed there ∙ quiet now apart airy in
        (
          m',
          subst (λ x. Outlasts x m') (sym same)
              (deeper m' extra quota now on refl
                (record { cells = faces.cells; left = faces.left; clock = faces.clock }) good),
        )

    answer_wall :
        (c : Cell) (e'' : GameEngine F)
        → police_place_barrier F e c ≡ ok e''
        → all
            (wall_answered board
              (lasts board (suc n))
              e.positions.of_thief
              e.positions.of_police
              extra
              quota)
            (wall_cells e.positions.of_police)
          ≡ true
        → (m' : Move) × Outlasts e'' m'
    unfolding lasts
    answer_wall c e'' granted answered =
        let (_, _, lawful, grown, added, made) = police_place_barrier-ok F e c e'' granted in
        let (_, near, inside, clear) =
          validate_barrier_placement-ok e.board e.rules e.positions.of_police c lawful in
        let (shape, _, _) = add_barrier-ok e.board c grown added in
        let (apart, rest) =
          missed-lasts _ (c == e.positions.of_thief) _
            (all-contains
              (wall_answered board (lasts board (suc n)) e.positions.of_thief e.positions.of_police
                extra quota)
              (wall_cells e.positions.of_police) c answered
              (near-contains e.positions.of_police c near))
            (wall-free e.board board extra c faces.cells inside clear) in
        let (open_side, lasting) = &&-true _ _ rest in
        let (m', good) =
          any-some
            (λ m'.
              move_lasts board (lasts board n) (suc n) m' e.positions.of_thief e.positions.of_police
                (with_wall c extra) (quota -ℤ pos 1))
            all_moves lasting in
        let now : GameEngine F = record e {
          board = record e.board { barriers = c ∷ e.board.barriers };
          next_actor = thief;
        } in
        let placed = λ (b : Board).
          if c == e.positions.of_thief
          then record e { board = b; next_actor = thief; outcome = capture }
          else check_captures_mid_round F (record e { board = b; next_actor = thief }) in
        let cells : SameCells now.board (view_of board (with_wall c extra)) =
          SameCells-wall e.board board c extra faces.cells in
        let still : Board.is_surrounded now.board e.positions.of_thief ≡ false =
          is_surrounded-same now.board (view_of board (with_wall c extra)) e.positions.of_thief
            cells
          ∙ not-true _ open_side in
        let same : e'' ≡ now =
          made
          ∙ ap placed shape
          ∙ if_false (c == e.positions.of_thief) _ _ apart
          ∙ quiet now unmet still in
        (
          m',
          subst (λ x. Outlasts x m') (sym same)
              (deeper m' (with_wall c extra) (quota -ℤ pos 1) now on refl
                (record {
                  cells = cells;
                  left = less_wall quota e.rules.max_barriers (length e.board.barriers) faces.left;
                  clock = faces.clock;
                })
                good),
        )

  -- What the recursion's verdict says, read off its conjunctions.
  passed :
      (illegal hit enclosed last moves spent walls : Bool)
      → (not illegal && (not (hit || enclosed) && (last || moves && (spent || walls)))) ≡ true
      → (illegal ≡ false)
        × (hit ≡ false)
        × (enclosed ≡ false)
        × ((last ≡ true) ⊎ ((moves ≡ true) × (spent ≡ false → walls ≡ true)))
  passed true hit enclosed last moves spent walls h = cc
  passed false true enclosed last moves spent walls h = cc
  passed false false true last moves spent walls h = cc
  passed false false false true moves spent walls h = (refl, refl, refl, inl refl)
  passed false false false false moves spent walls h =
      (refl, refl, refl, inr (ground arith, λ left. ground arith))

  -- Walls are left when the law lets the cop place one.
  wall_left :
      (quota most : ℤ) (placed : ℕ)
      → quota ≡ most -ℤ pos placed
      → pos placed <ℤ most
      → not (ltb_ℤ (pos 0) quota) ≡ false
  wall_left quota most placed h fits = ground (arith, -ℤ_parts most (pos placed), h)

  module _ (board : Board) (extra : List Cell) (quota : ℤ) (n : ℕ) (deeper : Deeper board n)
      (e : GameEngine F) (faces : Faces board extra quota (suc n) e) (on : e.outcome ≡ ongoing)
      (unmet : (e.positions.of_police == e.positions.of_thief) ≡ false)
      (airy : Board.is_surrounded e.board e.positions.of_thief ≡ false)
      (moves : all
          (move_answered board
            (lasts board (suc n))
            e.positions.of_thief
            e.positions.of_police
            extra
            quota)
          all_moves
        ≡ true)
      (walls : not (ltb_ℤ (pos 0) quota) ≡ false
        → all
            (wall_answered board
              (lasts board (suc n))
              e.positions.of_thief
              e.positions.of_police
              extra
              quota)
            (wall_cells e.positions.of_police)
          ≡ true) where
    -- The thief's next move after a reply of the cop.
    answer : (e'' : GameEngine F) → Reply e e'' → (m' : Move) × Outlasts e'' m'
    answer e'' (moved m granted) =
        answer_move board extra quota n deeper e faces on unmet airy m e'' granted (
          all-contains
            (move_answered board (lasts board (suc n)) e.positions.of_thief e.positions.of_police
              extra quota)
            all_moves m moves (contains-all_moves m))
    answer e'' (walled c granted) =
        let (_, _, lawful, _, _, _) = police_place_barrier-ok F e c e'' granted in
        let (fits, _, _, _) =
          validate_barrier_placement-ok e.board e.rules e.positions.of_police c lawful in
        answer_wall board extra quota n deeper e faces on unmet airy c e'' granted
          (walls (wall_left quota e.rules.max_barriers (length e.board.barriers) faces.left fits))

  module _ (board : Board) (n : ℕ) (m : Move) (extra : List Cell) (quota : ℤ) (e : GameEngine F)
      (on : e.outcome ≡ ongoing) (turn : e.next_actor ≡ thief)
      (faces : Faces board extra quota (suc n) e)
      (h : move_lasts board
          (lasts board n)
          (suc n)
          m
          e.positions.of_thief
          e.positions.of_police
          extra
          quota
        ≡ true) where
    -- What the engine makes of the move, and what the verdict says of the cop's replies.
    landing :
        (thief_move F e m ≡ ok (after_thief e m))
        × ((e.positions.of_police == applied_to m e.positions.of_thief) ≡ false)
        × (Board.is_surrounded e.board (applied_to m e.positions.of_thief) ≡ false)
        × ((leb (suc n) 1 ≡ true)
            ⊎ ((all
                    (move_answered board
                      (lasts board n)
                      (applied_to m e.positions.of_thief)
                      e.positions.of_police
                      extra
                      quota)
                    all_moves
                  ≡ true)
                × (not (ltb_ℤ (pos 0) quota) ≡ false
                    → all
                        (wall_answered board
                          (lasts board n)
                          (applied_to m e.positions.of_thief)
                          e.positions.of_police
                          extra
                          quota)
                        (wall_cells e.positions.of_police)
                      ≡ true)))
    unfolding move_lasts
    landing =
        let landed = applied_to m e.positions.of_thief in
        let (legal, hit, enclosed, rest) =
          passed (not (is_stay m) && not (is_passable (view_of board extra) landed))
            (landed == e.positions.of_police) (is_surrounded (view_of board extra) landed)
            (leb (suc n) 1)
            (all (move_answered board (lasts board n) landed e.positions.of_police extra quota)
              all_moves)
            (not (ltb_ℤ (pos 0) quota))
            (all (wall_answered board (lasts board n) landed e.positions.of_police extra quota)
              (wall_cells e.positions.of_police))
            h in
        let legal' : (not (is_stay m) && not (Board.is_passable e.board landed)) ≡ false =
          ap (λ p. not (is_stay m) && not p) (faces.cells landed) ∙ legal in
        let apart = ==_comm e.positions.of_police landed ∙ hit in
        let airy = is_surrounded-same e.board (view_of board extra) landed faces.cells ∙ enclosed in
        (thief_move-lands e m on turn legal' apart airy, apart, airy, rest)

    -- The engine after the thief's move, when more turns remain.
    after_thief-Faces : Faces board extra quota n (after_thief e m)
    unfolding close_full_turn
    after_thief-Faces = record {
      cells = faces.cells;
      left = faces.left;
      clock = faces.clock ∙ ap pos (omega arith);
    }

  -- A move that the recursion passes, with the number of turns to go that the clock leaves.
  pub move_lasts-Outlasts : (board : Board) (n : ℕ) → Deeper board n
  unfolding close_full_turn
  move_lasts-Outlasts board zero m extra quota e on turn faces h =
      let (lands, apart, airy, _) = landing board 0 m extra quota e on turn faces h in
      reached (after_thief e m) lands (after_thief-survival e m apart airy faces.clock)
  move_lasts-Outlasts board (suc n) m extra quota e on turn faces h =
      let (lands, apart, airy, rest) = landing board (suc n) m extra quota e on turn faces h in
      elim (after_thief-outcome e m apart airy) [
        | inl survived ↦ reached (after_thief e m) lands survived
        | inr going ↦ elim rest [
          | inl last ↦ absurd (ground arith)
          | inr (moves, walls) ↦
              let next =
                answer board extra quota n (move_lasts-Outlasts board n) (after_thief e m)
                  (after_thief-Faces board (suc n) m extra quota e on turn faces h) going apart airy
                  moves walls in
              goes_on (after_thief e m) lands going (λ e'' r. (next e'' r).0)
                (λ e'' r. (next e'' r).1)
        ]
      ]
