-- ===== src/Protocol/Clock.antt =====
-- The clock of a game: how long a replay can be, and that an action is always at hand.
use p2p_thief.Prelude.{ℕ, ◌+◌, ◌*◌, ◌≤◌, ◌<◌, ◌≡◌, refl, inl, inr, true, false}
use p2p_thief.Prelude.{List, [], ◌∷◌, ok, bind-eq-ok, ok_inj, arith, length, if◌then◌else◌}
use p2p_thief.Prelude.{Bool-cases, min, ap, ◌==◌, contains-cons}
use p2p_thief.Prelude.Int.{pos_part}
use p2p_thief.Primitives.{
  Cell, cell_equality, Move, Role, police, thief, role_equality, Outcome, ongoing, is_ongoing,
}
use p2p_thief.Board.{Board, is_barrier}
use p2p_thief.Board.Laws.{add_barrier-ok}
use p2p_thief.Rules.{RuleSet}
use p2p_thief.Scent.Float.{Floats}
use p2p_thief.Engine.{GameEngine, check_captures_mid_round, close_full_turn}
use p2p_thief.Engine.{police_move, police_place_barrier, thief_move}
use p2p_thief.Engine.Methods.{
  check_captures_mid_round-fields, police_move-ok, police_place_barrier-ok, thief_move-ok,
}
use p2p_thief.Engine.Invariant.{IsValid, ongoing-clear, is_time_up}
use p2p_thief.Protocol.{Action, move, barrier, apply_action, replay}
use p2p_thief.Protocol.Lockstep.{apply_action-barrier, apply_action-IsValid}

module _ (F : Floats) where
  -- Half-turns played: two for each full turn, and one when the cop has opened the next.
  abbrev pub half_turns : GameEngine F → ℕ
  half_turns e = 2 * e.turns_completed + (if e.next_actor == thief then 1 else 0)

  -- What one accepted action does to the clock, the rules and the walls.
  pub record Ticks (e e' : GameEngine F) (r : Role) : Type 0 where
    pub was_on : e.outcome ≡ ongoing
    pub actor : e.next_actor ≡ r
    pub rules : e'.rules ≡ e.rules
    pub walls : (c : Cell) → is_barrier e.board c ≡ true → is_barrier e'.board c ≡ true
    pub tick : e'.outcome ≡ ongoing → half_turns e' ≡ half_turns e + 1

  police_move-Ticks :
      (e : GameEngine F) (m : Move) (e' : GameEngine F)
      → police_move F e m ≡ ok e'
      → Ticks e e' police
  police_move-Ticks e m e' h =
      let (cell, on, turn, granted, made) = police_move-ok F e m e' h in
      let (b, _, r, t, next) =
        check_captures_mid_round-fields F
          (record e { positions = record e.positions { of_police = cell }; next_actor = thief }) in
      record {
        was_on = on;
        actor = turn;
        rules = rw made r;
        walls = λ c w. rw (made, b) w;
        tick = λ going. rw (made, t, next, turn) (omega arith);
      }

  placed-Ticks :
      (e : GameEngine F) (board : Board) (e' : GameEngine F)
      → e.outcome ≡ ongoing
      → e.next_actor ≡ police
      → ((c : Cell) → is_barrier e.board c ≡ true → is_barrier board c ≡ true)
      → (e'.board ≡ board)
        × (e'.rules ≡ e.rules)
        × (e'.turns_completed ≡ e.turns_completed)
        × (e'.next_actor ≡ thief)
      → Ticks e e' police
  placed-Ticks e board e' on turn kept (b, r, t, next) = record {
    was_on = on;
    actor = turn;
    rules = r;
    walls = λ c w. rw b (kept c w);
    tick = λ going. rw (t, next, turn) (omega arith);
  }

  police_place_barrier-Ticks :
      (e : GameEngine F) (target : Cell) (e' : GameEngine F)
      → police_place_barrier F e target ≡ ok e'
      → Ticks e e' police
  unfolding is_barrier
  police_place_barrier-Ticks e target e' h =
      let (on, turn, _, board, added, made) = police_place_barrier-ok F e target e' h in
      let grown = (add_barrier-ok e.board target board added).0 in
      let (b, _, r, t, next) =
        check_captures_mid_round-fields F (record e { board = board; next_actor = thief }) in
      placed-Ticks e board e' on turn (λ c w. rw grown (contains-cons c target e.board.barriers w))
        (elim (Bool-cases (target == e.positions.of_thief)) [
          | inl hit ↦ rw (made, hit) (refl, refl, refl, refl)
          | inr missed ↦ rw (made, missed) (b, r, t, next)
        ])

  not_over : (e : GameEngine F) → e.outcome ≡ ongoing → is_ongoing e.outcome ≡ false → ⊥
  not_over e on over = ground arith

  thief_move-Ticks :
      (e : GameEngine F) (m : Move) (e' : GameEngine F)
      → thief_move F e m ≡ ok e'
      → Ticks e e' thief
  unfolding close_full_turn
  thief_move-Ticks e m e' h =
      let (cell, on, turn, granted, made) = thief_move-ok F e m e' h in
      let moved : GameEngine F =
        check_captures_mid_round F
          (record e { positions = record e.positions { of_thief = cell }; next_actor = police }) in
      let (b, _, r, t, next) =
        check_captures_mid_round-fields F
          (record e { positions = record e.positions { of_thief = cell }; next_actor = police }) in
      elim (Bool-cases (is_ongoing moved.outcome)) [
        | inl going ↦ record {
          was_on = on;
          actor = turn;
          rules = rw (made, going) r;
          walls = λ c w. rw (made, going, b) w;
          tick = λ _. rw (made, going, t, next, turn) (omega arith);
        }
        | inr over ↦ record {
          was_on = on;
          actor = turn;
          rules = rw (made, over) r;
          walls = λ c w. rw (made, over, b) w;
          tick = λ up. absurd (not_over moved (rw (made, over) at up) over);
        }
      ]

  pub apply_action-Ticks :
      (e : GameEngine F) (r : Role) (a : Action) (e' : GameEngine F)
      → apply_action F e r a ≡ ok e'
      → Ticks e e' r
  unfolding apply_action
  apply_action-Ticks e r (barrier c) e' h =
      let (cop, placed) = apply_action-barrier F e r c e' h in
      rw cop (police_place_barrier-Ticks e c e' placed)
  apply_action-Ticks e police (move m) e' h = police_move-Ticks e m e' h
  apply_action-Ticks e thief (move m) e' h = thief_move-Ticks e m e' h

  -- The last full turn, by whichever of the two limits comes first.
  abbrev pub last_turn : RuleSet → ℕ
  last_turn rules = min (pos_part rules.survival_threshold) (pos_part rules.max_moves)

  half_turns-lt :
      (e : GameEngine F)
      → is_time_up e.rules e.turns_completed ≡ false
      → half_turns e < 2 * last_turn e.rules
  half_turns-lt e early = ground arith

  is_ongoing→ : (o : Outcome) → is_ongoing o ≡ true → o ≡ ongoing
  is_ongoing→ o h = ground arith

  -- After the end no action is accepted.
  replay-over :
      (e : GameEngine F) (acts : List (Role × Action)) (e' : GameEngine F)
      → replay F e acts ≡ ok e'
      → is_ongoing e.outcome ≡ false
      → length acts ≡ 0
  unfolding replay
  replay-over e [] e' h over = refl
  replay-over e ((r, a) ∷ acts) e' h over =
      let (next, step, rest) = bind-eq-ok (apply_action F e r a) _ h in
      absurd (not_over e (apply_action-Ticks e r a next step).was_on over)

  -- An accepted replay of a game that is on has at most two actions for each full turn that is left,
  -- whichever of the two limits comes first.
  pub length-replay-le :
      (e : GameEngine F) (acts : List (Role × Action)) (e' : GameEngine F)
      → replay F e acts ≡ ok e'
      → IsValid F e
      → e.outcome ≡ ongoing
      → length acts + half_turns e ≤ 2 * last_turn e.rules
  unfolding replay
  length-replay-le e [] e' h v on = omega (arith, half_turns-lt e (ongoing-clear F e v on).1)
  length-replay-le e ((r, a) ∷ acts) e' h v on =
      let (next, step, rest) = bind-eq-ok (apply_action F e r a) _ h in
      let t = apply_action-Ticks e r a next step in
      let room = half_turns-lt e (ongoing-clear F e v on).1 in
      elim (Bool-cases (is_ongoing next.outcome)) [
        | inl going ↦
            let on' = is_ongoing→ next.outcome going in
            let later =
              length-replay-le next acts e' rest (apply_action-IsValid F e r a next step v) on' in
            let same : last_turn next.rules ≡ last_turn e.rules = ap last_turn t.rules in
            omega (arith, later, same, t.tick on')
        | inr over ↦ omega (arith, replay-over next acts e' rest over, room)
      ]

  -- A wall that stands is never taken down, by any replay.
  pub replay-is_barrier :
      (e : GameEngine F) (acts : List (Role × Action)) (e' : GameEngine F) (c : Cell)
      → replay F e acts ≡ ok e'
      → is_barrier e.board c ≡ true
      → is_barrier e'.board c ≡ true
  unfolding replay
  replay-is_barrier e [] e' c h w = rw (← ok_inj h) w
  replay-is_barrier e ((r, a) ∷ acts) e' c h w =
      let (next, step, rest) = bind-eq-ok (apply_action F e r a) _ h in
      replay-is_barrier next acts e' c rest ((apply_action-Ticks e r a next step).walls c w)
