-- ===== src/OwnState/Game.antt =====
-- A game between two honest peers of the hidden wire: neither ever finds a breach in the other's
-- messages, they agree on all that is public, and together they know whether the thief is caught.
use p2p_thief.Prelude.{ℕ, ◌≡◌, refl, sym, subst, ◌∙◌, not, ◌||◌, List, [], ◌∷◌, Option}
use p2p_thief.Prelude.{Result, ok, err, bind-eq-ok, then-eq-ok, ok_inj, arith, raise_if}
use p2p_thief.Prelude.Int.{ℤ}
use p2p_thief.Primitives.{Cell, cell_equality, Role, police, thief}
use p2p_thief.Board
use p2p_thief.Board.{Board, is_barrier, is_surrounded, is_passable}
use p2p_thief.Rules.{RuleSet}
use p2p_thief.Scent
use p2p_thief.Scent.Float.{Floats}
use p2p_thief.Protocol.{Action}
use p2p_thief.Engine.Invariant.{is_caught}
use p2p_thief.OwnState.{
  OwnState, new, own_turn, wire_turn, wire_play, i_am_captured, answer_capture_claim,
}
use p2p_thief.OwnState.Agreement.{police_turn, thief_turn}
use p2p_thief.OwnState.Actions.{Agrees}

module _ (F : Floats) where
  abbrev pub mover : OwnState F → OwnState F → Role → OwnState F
  mover c t police = c
  mover c t thief = t

  -- How a half-turn ends.
  abbrev pub TurnEnds :
      Result (OwnState F × Option Cell) → Result (OwnState F × OwnState F) → Type 0
  TurnEnds (err e) both = both ≡ err e
  TurnEnds (ok acted) both = (c : OwnState F) × (t : OwnState F) × (both ≡ ok (c, t)) × Agrees F c t

  -- A half-turn of either side fails only as the mover's own action does; a message of a peer whose
  -- action was legal is absorbed by the other peer without an error, and they agree again.
  pub wire_turn_fate :
      (c t : OwnState F) (who : Role) (a : Action) (smell : List (Cell × F.Float))
      → Agrees F c t
      → TurnEnds (own_turn F (mover c t who) a) (wire_turn F c t who a smell)
  unfolding wire_turn
  wire_turn_fate c t police a smell agrees = go (own_turn F c a) refl
    where
      go :
          (r : Result (OwnState F × Option Cell))
          → own_turn F c a ≡ r
          → TurnEnds r (wire_turn F c t police a smell)
      go (err e) h = rw (wire_turn, h) refl
      go (ok (c', placed)) h =
          let (t', heard, agreed) = police_turn F c t agrees smell c' placed a h in
          (c', t', rw (wire_turn, h, heard) refl, agreed)
  wire_turn_fate c t thief a smell agrees = go (own_turn F t a) refl
    where
      go :
          (r : Result (OwnState F × Option Cell))
          → own_turn F t a ≡ r
          → TurnEnds r (wire_turn F c t thief a smell)
      go (err e) h = rw (wire_turn, h) refl
      go (ok (t', placed)) h =
          let (c', heard, agreed) = thief_turn F c t agrees smell t' placed a h in
          (c', t', rw (wire_turn, h, heard) refl, agreed)

  -- What the thief knows of itself and what it answers to a claim of the cop's cell, together, are
  -- the rulebook's three capture families on the true positions.
  pub captured_iff_caught :
      (c t : OwnState F)
      → Agrees F c t
      → (i_am_captured F t || (answer_capture_claim F t c.cell).caught)
        ≡ is_caught c.board c.cell t.cell
  unfolding i_am_captured answer_capture_claim
  captured_iff_caught c t agrees = rw agrees.board (ground arith)

  new-Agrees :
      (g : ℤ) (cop robber : Cell) (rules : RuleSet) (center decay : F.Float) (k : ℕ)
      (c t : OwnState F)
      → new F police g cop rules center decay k ≡ ok c
      → new F thief g robber rules center decay k ≡ ok t
      → Agrees F c t
  unfolding new
  new-Agrees g cop robber rules center decay k c t hc ht =
      let (b, made, rest) = bind-eq-ok (Board.new g) _ hc in
      let (b2, made2, rest2) = bind-eq-ok (Board.new g) _ ht in
      let (_, restc) = then-eq-ok (raise_if (not (is_passable b cop)) _) _ rest in
      let (_, restt) = then-eq-ok (raise_if (not (is_passable b2 robber)) _) _ rest2 in
      let (s, _, ec) = bind-eq-ok (Scent.new F g center decay k) _ restc in
      let (s2, _, et) = bind-eq-ok (Scent.new F g center decay k) _ restt in
      let boards : b2 ≡ b = ok_inj (sym made2 ∙ made) in
      rw (← ok_inj ec, ← ok_inj et)
        (record {
          cop_role = refl;
          thief_role = refl;
          board = boards;
          rules = refl;
          turns = refl;
          turn = refl;
        })

  wire_play-Agrees :
      (turns : List (Role × Action × List (Cell × F.Float))) (c t c' t' : OwnState F)
      → Agrees F c t
      → wire_play F c t turns ≡ ok (c', t')
      → Agrees F c' t'
  wire_play-Agrees [] c t c' t' agrees h = subst (λ both. Agrees F both.0 both.1) (ok_inj h) agrees
  wire_play-Agrees ((who, a, smell) ∷ turns) c t c' t' agrees h =
      let (both, turned, rest) = bind-eq-ok (wire_turn F c t who a smell) _ h in
      wire_play-Agrees turns both.0 both.1 c' t'
        (after (own_turn F (mover c t who) a) both (wire_turn_fate c t who a smell agrees) turned)
        rest
    where
      after :
          (r : Result (OwnState F × Option Cell)) (both : OwnState F × OwnState F)
          → TurnEnds r (wire_turn F c t who a smell)
          → wire_turn F c t who a smell ≡ ok both
          → Agrees F both.0 both.1
      after (err e) both ends turned = absurd (apart (sym ends ∙ turned))
        where
          apart : err e ≡ ok both → ⊥
          apart q = cc
      after (ok _) both (c2, t2, e, agreed) turned =
          subst (λ b. Agrees F b.0 b.1) (ok_inj (sym e ∙ turned)) agreed

  -- Two peers that start from the same terms and play any sequence of legal half-turns have the same
  -- barriers, the same clock and the same player to move, and what the thief knows of itself
  -- together with its answer to a claim of the cop's cell is the rulebook's verdict of capture on
  -- the two true positions.
  pub wire_play-new-Agrees :
      (g : ℤ) (cop robber : Cell) (rules : RuleSet) (center decay : F.Float) (k : ℕ)
      (c t : OwnState F) (turns : List (Role × Action × List (Cell × F.Float))) (c' t' : OwnState F)
      → new F police g cop rules center decay k ≡ ok c
      → new F thief g robber rules center decay k ≡ ok t
      → wire_play F c t turns ≡ ok (c', t')
      → Agrees F c' t'
        × ((i_am_captured F t' || (answer_capture_claim F t' c'.cell).caught)
            ≡ is_caught c'.board c'.cell t'.cell)
  wire_play-new-Agrees g cop robber rules center decay k c t turns c' t' hc ht h =
      let start = new-Agrees g cop robber rules center decay k c t hc ht in
      let agreed = wire_play-Agrees turns c t c' t' start h in
      (agreed, captured_iff_caught c' t' agreed)
