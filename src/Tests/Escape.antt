-- ===== src/Tests/Escape.antt =====
-- Runs of the endgame search.
use p2p_thief.Prelude.{ℕ, ◌≡◌, ◌↔◌, refl, List, [], ◌∷◌, true, false, Option, some, contains, arith}
use p2p_thief.Prelude.Int.{pos, ◌+ℤ◌, ◌-ℤ◌}
use p2p_thief.Primitives.{Move, thief, north, applied_to}
use p2p_thief.Board.{in_bounds, is_barrier}
use p2p_thief.Board
use p2p_thief.Engine.{GameEngine}
use p2p_thief.Protocol.{Action, move}
use p2p_thief.Endgame.{
  SurvivalCertificate, support_cells, certified_move, lock, is_passable, is_surrounded, with_wall,
  recall, tick, moves_met, walls_met, move_met, some_move, remembered, survives, move_survives,
  common, first_ranked, chosen, safe_moves, certify,
}
use p2p_thief.Endgame.Escape.{Outlasts}
use p2p_thief.Endgame.Lock.{lock-Outlasts, lock_iff, IsInScope}
use p2p_thief.Endgame.Certified.{PassesAll, survives_cop}
use p2p_thief.Endgame.Plain.{cost}
use p2p_thief.Tests.Samples.{millionths, small_game}

-- Two turns to go on a board of 3 by 3: the cop in a corner, the thief two steps away.
abbrev two_to_go : GameEngine millionths
two_to_go = record small_game {
  positions = record { of_police = (pos 0, pos 0); of_thief = (pos 2, pos 2) };
  next_actor = thief;
}

abbrev sharp_belief : List (List ℕ)
sharp_belief = (900000 ∷ 0 ∷ 0 ∷ []) ∷ (40000 ∷ 0 ∷ 0 ∷ []) ∷ (0 ∷ 0 ∷ 0 ∷ []) ∷ []

abbrev certificate : SurvivalCertificate millionths
certificate = record {
  settings = record {
    enabled = true;
    max_support_cells = pos 3;
    support_mass_threshold = 50000;
    max_horizon_turns = pos 5;
    node_cap = pos 20000;
  };
  certified = 0;
}

locked : SurvivalCertificate millionths × Option Action
unfolding lock certified_move support_cells is_passable is_surrounded with_wall recall tick
    moves_met walls_met move_met some_move remembered survives move_survives common first_ranked
    chosen safe_moves certify in_bounds is_barrier Board.is_passable contains applied_to ◌+ℤ◌ ◌-ℤ◌
locked = lock millionths (λ _. false) certificate two_to_go (some sharp_belief)

locked_north : locked ≡ (record certificate { certified = 1 }, some (move north))
unfolding locked
locked_north = refl

lock-Outlasts_example : Outlasts millionths two_to_go north
unfolding locked contains support_cells
lock-Outlasts_example =
    lock-Outlasts millionths (λ _. false) certificate two_to_go sharp_belief
      (record certificate { certified = 1 }) north refl refl refl locked_north

lock_iff_example :
    ((c' : SurvivalCertificate millionths) × (m : Move) × (lock millionths
          (λ _. false)
          certificate
          two_to_go
          (some sharp_belief)
        ≡ (c', some (move m))))
    ↔ (IsInScope millionths (λ _. false) certificate two_to_go sharp_belief
        × (m : Move) × PassesAll
            (survives_cop millionths two_to_go 2 (pos 2))
            ((pos 0, pos 0) ∷ [])
            m)
unfolding support_cells cost ◌-ℤ◌
lock_iff_example =
    lock_iff millionths (λ _. false) certificate two_to_go sharp_belief (λ _. refl) (omega arith)
