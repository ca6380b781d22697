-- ===== src/Reconstruct/Lived.antt =====
-- The replay against the game that two honest peers of the hidden wire have lived.
use p2p_thief.Prelude.{
  ◌≡◌, refl, sym, ap, ◌∙◌, Bool, true, false, not, ◌&&◌, ◌==◌, if◌then◌else◌, Option, arith,
}
use p2p_thief.Prelude.{ok}
use p2p_thief.Prelude.Int.{ℤ}
use p2p_thief.Primitives.{Cell, cell_equality, police, thief, role_equality, capture, survival}
use p2p_thief.Board.{is_barrier, is_surrounded}
use p2p_thief.Rules.{RuleSet}
use p2p_thief.Engine.{PerRole}
use p2p_thief.Engine.Invariant.{is_caught}
use p2p_thief.Scent.Float.{Floats}
use p2p_thief.OwnState.{
  OwnState, apply_own_action, own_turn, i_am_captured, survival_reached, close_full_turn,
}
use p2p_thief.OwnState.Actions.{Agrees, own_turn-ok, ticked}
use p2p_thief.Reconstruct.{
  Revealed, Replayed, apply_revealed, replay_action, judge_police, judge_thief, is_false_claim,
}
use p2p_thief.Reconstruct.Applied.{police_applied, thief_applied, apply_own_action-clock}

module _ (F : Floats) where
  -- A replay that stands where two peers stand.
  pub record Matches (s : Replayed) (c t : OwnState F) : Type 0 where
    pub board : s.board ≡ c.board
    pub cop : s.positions.of_police ≡ c.cell
    pub robber : s.positions.of_thief ≡ t.cell
    pub turns : s.turns ≡ t.turns_completed

  judge_police-fields :
      (s : Replayed) (step : ℤ)
      → ((judge_police s step).board ≡ s.board)
        × ((judge_police s step).positions ≡ s.positions)
        × ((judge_police s step).turns ≡ s.turns)
        × ((judge_police s step).outcome ≡ (
            if is_caught s.board s.positions.of_police s.positions.of_thief
            then capture
            else s.outcome))
  judge_police-fields s step = ground arith

  -- The replay of the cop's half-turn.
  pub police_lived :
      (s : Replayed) (c t c' : OwnState F) (placed : Option Cell) (p : Revealed)
      (claim : Option Cell)
      → c.role ≡ police
      → Matches s c t
      → p.role ≡ police
      → own_turn F c p.action ≡ ok (c', placed)
      → is_false_claim claim c'.cell ≡ false
      → (s' : Replayed) × (replay_action c.rules s (p, claim) ≡ ok s')
        × Matches s' c' t
        × (s'.outcome ≡ (if is_caught c'.board c'.cell t.cell then capture else s.outcome))
  unfolding replay_action
  police_lived s c t c' placed p claim cop here by_cop turned honest =
      let (acted, acts, made) = own_turn-ok F c p.action c' placed turned in
      let idle : (c.role == thief && not (i_am_captured F acted)) ≡ false = ground (arith, cop) in
      let same : acted ≡ c' = sym (made ∙ ap (ticked F acted) idle) in
      let acts' : apply_own_action F c p.action ≡ ok (c', placed) =
        acts ∙ ap (λ q. ok (q, placed)) same in
      let positions : PerRole Cell = record s.positions { of_police = c'.cell } in
      let applied : apply_revealed s.board s.positions c.rules p.role p.action
          ≡ ok (c'.board, positions) =
        rw (by_cop, here.board)
          (police_applied F c c' placed s.positions p.action cop here.cop acts') in
      let moved : Replayed = record s { board = c'.board; positions = positions } in
      let (b, q, n, o) = judge_police-fields moved p.step in
      (
        judge_police moved p.step,
        rw (replay_action, applied, by_cop, honest) refl,
        record {
          board = b;
          cop = ap (λ q. q.of_police) q;
          robber = ap (λ q. q.of_thief) q ∙ here.robber;
          turns = n ∙ here.turns;
        },
        o ∙ rw here.robber refl,
      )

  judge_thief-fields :
      (rules : RuleSet) (s : Replayed)
      → ((judge_thief rules s).board ≡ s.board) × ((judge_thief rules s).positions ≡ s.positions)
  judge_thief-fields rules s = ground arith

  -- The verdict on the thief's action against the thief's own state after its boundary.
  judge_thief-lived :
      (s : Replayed) (acted : OwnState F)
      → s.board ≡ acted.board
      → s.positions.of_thief ≡ acted.cell
      → s.turns ≡ acted.turns_completed
      → (let t' = ticked F acted (not (i_am_captured F acted)) in
          ((judge_thief acted.rules s).turns ≡ t'.turns_completed)
          × ((judge_thief acted.rules s).outcome ≡ (
              if i_am_captured F t'
              then capture
              else if survival_reached F t'
              then survival
              else s.outcome)))
  unfolding i_am_captured survival_reached close_full_turn
  judge_thief-lived s acted board cell turns =
      let walled : is_barrier s.board s.positions.of_thief ≡ is_barrier acted.board acted.cell =
        rw (board, cell) refl in
      let boxed : is_surrounded s.board s.positions.of_thief
          ≡ is_surrounded acted.board acted.cell =
        rw (board, cell) refl in
      verdicts (is_surrounded acted.board acted.cell) (is_barrier acted.board acted.cell) boxed
        walled refl refl
    where
      verdicts :
          (surr bar : Bool)
          → is_surrounded s.board s.positions.of_thief ≡ surr
          → is_barrier s.board s.positions.of_thief ≡ bar
          → is_surrounded acted.board acted.cell ≡ surr
          → is_barrier acted.board acted.cell ≡ bar
          → (let t' = ticked F acted (not (i_am_captured F acted)) in
              ((judge_thief acted.rules s).turns ≡ t'.turns_completed)
              × ((judge_thief acted.rules s).outcome ≡ (
                  if i_am_captured F t'
                  then capture
                  else if survival_reached F t'
                  then survival
                  else s.outcome)))
      verdicts true true a b c d = rw (a, c, d) (turns, rw d refl)
      verdicts true false a b c d = rw (a, c, d) (turns, rw (d, c) refl)
      verdicts false true a b c d = rw (a, b, c, d) (turns, rw d refl)
      verdicts false false a b c d = rw (a, b, c, d) (ground (arith, c, d, turns))

  -- The replay of the thief's half-turn.
  pub thief_lived :
      (s : Replayed) (c t t' : OwnState F) (placed : Option Cell) (p : Revealed)
      (claim : Option Cell)
      → Agrees F c t
      → Matches s c t
      → p.role ≡ thief
      → own_turn F t p.action ≡ ok (t', placed)
      → t'.board ≡ t.board
      → (s' : Replayed) × (replay_action t.rules s (p, claim) ≡ ok s')
        × Matches s' c t'
        × (s'.outcome ≡ (
            if i_am_captured F t'
            then capture
            else if survival_reached F t'
            then survival
            else s.outcome))
  unfolding replay_action close_full_turn
  thief_lived s c t t' placed p claim agrees here by_thief turned kept =
      let (acted, acts, made) = own_turn-ok F t p.action t' placed turned in
      let ticks : Bool = not (i_am_captured F acted) in
      let alive : (t.role == thief && ticks) ≡ ticks = ground (arith, agrees.thief_role) in
      let same : t' ≡ ticked F acted ticks = made ∙ ap (ticked F acted) alive in
      let (clock, rules) = apply_own_action-clock F t acted placed p.action acts in
      let positions : PerRole Cell = record s.positions { of_thief = acted.cell } in
      let applied : apply_revealed s.board s.positions t.rules p.role p.action
          ≡ ok (acted.board, positions) =
        rw (by_thief, here.board, ← agrees.board)
          (thief_applied F t acted placed s.positions p.action agrees.thief_role here.robber
            acts) in
      let moved : Replayed = record s { board = acted.board; positions = positions } in
      let (turns, outcome) = judge_thief-lived moved acted refl refl (here.turns ∙ sym clock) in
      let (b, q) = judge_thief-fields acted.rules moved in
      (
        judge_thief acted.rules moved,
        rw (replay_action, applied, by_thief, rules) refl,
        record {
          board =
              b
              ∙ sym (ticked-board acted ticks)
              ∙ ap (λ x. x.board) (sym same)
              ∙ kept
              ∙ agrees.board;
          cop = ap (λ x. x.of_police) q ∙ here.cop;
          robber =
              ap (λ x. x.of_thief) q ∙ sym (ticked-cell acted ticks) ∙ ap (λ x. x.cell) (sym same);
          turns = turns ∙ ap (λ x. x.turns_completed) (sym same);
        },
        rw same outcome,
      )
    where
      ticked-board : (x : OwnState F) (b : Bool) → (ticked F x b).board ≡ x.board
      ticked-board x true = refl
      ticked-board x false = refl

      ticked-cell : (x : OwnState F) (b : Bool) → (ticked F x b).cell ≡ x.cell
      ticked-cell x true = refl
      ticked-cell x false = refl
