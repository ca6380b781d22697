-- ===== src/Tests/Samples.antt =====
-- Concrete values for the tests: a fixed-point float, and a small game.
use p2p_thief.Prelude.{
  ℕ, ◌+◌, ◌-◌, ◌*◌, ◌/◌, ◌≡◌, true, false, arith, ltb, eqb, List, [], ◌∷◌, replicate,
}
use p2p_thief.Prelude.{Result, ok, err}
use Prim.Native.Nat.{◌^◌}
use p2p_thief.Prelude.Int.{pos}
use p2p_thief.Primitives.{north, stay, Role, police, thief, ongoing}
use p2p_thief.Board.{Board}
use p2p_thief.Rules.{RuleSet}
use p2p_thief.Scent.Float.{Floats}
use p2p_thief.Scent.{ScentField}
use p2p_thief.Engine.{GameEngine}
use p2p_thief.Protocol.{Action, move, barrier}

pub ltb_irrefl : (a : ℕ) → ltb a a ≡ false
ltb_irrefl a = ground arith

pub ltb_asym : (a b : ℕ) → ltb a b ≡ true → ltb b a ≡ false
ltb_asym a b h = ground arith

-- Numbers in units of a millionth, without sign.
abbrev pub millionths : Floats
millionths = record {
  Float = ℕ;
  zero_float = 0;
  lit = λ m e. m * 1000000 / 10 ^ e;
  add = λ a b. a + b;
  sub = λ a b. a - b;
  mul = λ a b. a * b / 1000000;
  div = λ a b. a * 1000000 / b;
  ltf = ltb;
  eqf = eqb;
  ltf_irrefl = ltb_irrefl;
  ltf_asym = ltb_asym;
}

abbrev pub small_rules : RuleSet
small_rules = record { max_barriers = pos 2; max_moves = pos 4; survival_threshold = pos 2 }

abbrev pub small_board : Board
small_board = record { grid_size = pos 3; barriers = [] }

abbrev pub blank_field : ScentField millionths
blank_field = record {
  grid_size = pos 3;
  center_intensity = 900000;
  decay = 100000;
  grid = replicate 3 (replicate 3 0);
}

-- A 3 by 3 game at its start.
abbrev pub small_game : GameEngine millionths
small_game = record {
  board = small_board;
  positions = record { of_police = (pos 0, pos 0); of_thief = (pos 2, pos 2) };
  rules = small_rules;
  scent = record { of_police = blank_field; of_thief = blank_field };
  turns_completed = 0;
  outcome = ongoing;
  next_actor = police;
}

-- The cop walls a neighbour, the thief steps, the cop walls another, the thief stays: survival.
abbrev pub small_actions : List (Role × Action)
small_actions =
    (police, barrier (pos 0, pos 1))
    ∷ (thief, move north)
    ∷ (police, barrier (pos 1, pos 0))
    ∷ (thief, move stay)
    ∷ []

abbrev pub result_or {ℓ} : {A : Type ℓ} → A → Result A → A
result_or d (ok a) = a
result_or d (err e) = d
