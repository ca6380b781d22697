-- ===== src/Reconstruct/Turns.antt =====
-- One half-turn of either side, lived and replayed.
use p2p_thief.Prelude.{
  ◌≡◌, refl, ap, ◌∙◌, Bool, true, false, not, ◌&&◌, ◌==◌, if◌then◌else◌, Option, arith,
}
use p2p_thief.Prelude.{ok}
use p2p_thief.Primitives.{Cell, Role, police, thief, role_equality, Outcome, capture, survival}
use p2p_thief.Engine.Invariant.{is_caught}
use p2p_thief.Protocol.{Action, move, barrier}
use p2p_thief.Scent.Float.{Floats}
use p2p_thief.OwnState.{OwnState, own_turn, i_am_captured, survival_reached, close_full_turn}
use p2p_thief.OwnState.Actions.{
  Agrees, own_turn-ok, ticked, apply_own_action-move, apply_own_action-barrier,
}
use p2p_thief.OwnState.Game.{mover}
use p2p_thief.Reconstruct.{Revealed, Replayed, replay_action, is_false_claim}
use p2p_thief.Reconstruct.Lived.{Matches, police_lived, thief_lived}

module _ (F : Floats) where
  -- The two states after a half-turn that left its mover at `x`.
  abbrev pub after_turn : OwnState F → OwnState F → Role → OwnState F → OwnState F × OwnState F
  after_turn c t police x = (x, t)
  after_turn c t thief x = (c, x)

  -- The outcome after it: of the cop's action by the rulebook on the true positions, which no peer may
  -- have seen, and of the thief's by the thief's own state.
  abbrev pub true_outcome : Role → OwnState F → OwnState F → Outcome → Outcome
  true_outcome police c t before = if is_caught c.board c.cell t.cell then capture else before
  true_outcome thief c t before =
      if i_am_captured F t then capture else if survival_reached F t then survival else before

  thief_keeps_board :
      (t t' : OwnState F) (a : Action) (placed : Option Cell)
      → t.role ≡ thief
      → own_turn F t a ≡ ok (t', placed)
      → t'.board ≡ t.board
  unfolding close_full_turn
  thief_keeps_board t t' a placed robber turned =
      let (acted, acts, made) = own_turn-ok F t a t' placed turned in
      ap (λ x. x.board) made
      ∙ unticked acted (t.role == thief && not (i_am_captured F acted))
      ∙ acted_board a acted acts
    where
      unticked : (x : OwnState F) (b : Bool) → (ticked F x b).board ≡ x.board
      unticked x true = refl
      unticked x false = refl

      acted_board :
          (a : Action) (acted : OwnState F)
          → p2p_thief.OwnState.apply_own_action F t a ≡ ok (acted, placed)
          → acted.board ≡ t.board
      acted_board (move m) acted acts =
          let (_, _, _, e) = apply_own_action-move F t m acted placed acts in ap (λ x. x.board) e
      acted_board (barrier c) acted acts =
          let (_, cop, _, _, _, _, _) = apply_own_action-barrier F t c acted placed acts in
          absurd (ground (arith, cop, robber))

  -- A half-turn that a peer has played is replayed by the audit without an error, on the same board,
  -- the same positions and the same clock, provided that a claim the cop made named its own cell. After
  -- the cop's action the outcome is a capture when the rulebook has one on the true positions, whether
  -- the cop claimed it or not, and is else as before; after the thief's it is what the thief's own state
  -- says, a capture, the survival, or as before.
  pub replay_action-lived :
      (s : Replayed) (c t x : OwnState F) (who : Role) (placed : Option Cell) (p : Revealed)
      (claim : Option Cell)
      → Agrees F c t
      → Matches F s c t
      → p.role ≡ who
      → own_turn F (mover F c t who) p.action ≡ ok (x, placed)
      → is_false_claim claim (after_turn c t who x).0.cell ≡ false
      → (s' : Replayed) × (replay_action c.rules s (p, claim) ≡ ok s')
        × Matches F s' (after_turn c t who x).0 (after_turn c t who x).1
        × (s'.outcome
            ≡ true_outcome who (after_turn c t who x).0 (after_turn c t who x).1 s.outcome)
  replay_action-lived s c t x police placed p claim agrees here by turned honest =
      police_lived F s c t x placed p claim agrees.cop_role here by turned honest
  replay_action-lived s c t x thief placed p claim agrees here by turned honest =
      let (s', replayed, matched, outcome) =
        thief_lived F s c t x placed p claim agrees here by turned
          (thief_keeps_board t x p.action placed agrees.thief_role turned) in
      (s', rw (← agrees.rules) replayed, matched, outcome)
