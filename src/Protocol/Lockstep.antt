-- ===== src/Protocol/Lockstep.antt =====
-- Whatever actions two peers replay, the engine stays well formed and its outcome is the verdict of
-- the state.
use p2p_thief.Prelude.{ℕ, ◌≡◌, ◌≢◌, List, [], ◌∷◌, ok, bind-eq-ok, arith, subst, ok_inj}
use p2p_thief.Prelude.Int.{ℤ}
use p2p_thief.Primitives.{Cell, Role, police, thief, role_equality}
use p2p_thief.Rules
use p2p_thief.Rules.{RuleSet}
use p2p_thief.Scent.Float.{Floats}
use p2p_thief.Engine
use p2p_thief.Engine.{GameEngine, police_place_barrier}
use p2p_thief.Engine.Invariant.{IsValid, police_move-IsValid, police_place_barrier-IsValid}
use p2p_thief.Engine.Invariant.{thief_move-IsValid}
use p2p_thief.Engine.Start.{new-IsValid}
use p2p_thief.Protocol.{Action, move, barrier, apply_action, replay}

module _ (F : Floats) where
  -- A barrier is the police's to place.
  pub apply_action-barrier :
      (e : GameEngine F) (r : Role) (c : Cell) (e' : GameEngine F)
      → apply_action F e r (barrier c) ≡ ok e'
      → (r ≡ police) × (police_place_barrier F e c ≡ ok e')
  unfolding apply_action
  apply_action-barrier e r c e' h = ground arith

  pub apply_action-IsValid :
      (e : GameEngine F) (r : Role) (a : Action) (e' : GameEngine F)
      → apply_action F e r a ≡ ok e'
      → IsValid F e
      → IsValid F e'
  unfolding apply_action
  apply_action-IsValid e r (barrier c) e' h v =
      police_place_barrier-IsValid F e c e' (apply_action-barrier e r c e' h).1 v
  apply_action-IsValid e police (move m) e' h v = police_move-IsValid F e m e' h v
  apply_action-IsValid e thief (move m) e' h v = thief_move-IsValid F e m e' h v

  pub replay-IsValid :
      (e : GameEngine F) (acts : List (Role × Action)) (e' : GameEngine F)
      → replay F e acts ≡ ok e'
      → IsValid F e
      → IsValid F e'
  unfolding replay
  replay-IsValid e [] e' h v = subst (IsValid F) (ok_inj h) v
  replay-IsValid e ((r, a) ∷ acts) e' h v =
      let (next, step, rest) = bind-eq-ok (apply_action F e r a) _ h in
      replay-IsValid next acts e' rest (apply_action-IsValid e r a next step v)

  -- A game that starts under valid rules, with the two agents on different cells, keeps the invariant
  -- through any actions that the engine accepts: the barriers are distinct cells of the grid and
  -- within the quota, both agents stand on the grid, and the outcome is capture exactly when the cop
  -- stands on the thief, the thief is walled in, or a barrier stands on the thief's cell; otherwise
  -- survival exactly when a turn limit is reached; and ongoing in every other state.
  pub replay-new-IsValid :
      (g : ℤ) (cop robber : Cell) (rules : RuleSet) (center decay : F.Float) (side : ℕ)
      (e e' : GameEngine F) (acts : List (Role × Action))
      → Rules.post_init rules ≡ ok rules
      → cop ≢ robber
      → Engine.new F g cop robber rules center decay side ≡ ok e
      → replay F e acts ≡ ok e'
      → IsValid F e'
  replay-new-IsValid g cop robber rules center decay side e e' acts legal apart made h =
      replay-IsValid e acts e' h
        (new-IsValid F g cop robber rules center decay side e legal apart made)
