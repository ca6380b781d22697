-- ===== src/Engine.antt =====
-- src/p2p_thief/domain/engine.py: the turn loop of the physics, the cop first.
-- A method returns the new engine; what it also returns is a field of that engine.
pub mod Methods
pub mod Invariant
pub mod Start
use p2p_thief.Prelude.{ℕ, ◌+◌, ◌≡◌, Bool, not, ◌&&◌, ◌||◌, ◌==◌, if◌then◌else◌}
use p2p_thief.Prelude.{Result, ok, value_error, game_rule_error, raise_if, ◌>>=◌, ◌>>◌}
use p2p_thief.Prelude.Int.{ℤ}
use p2p_thief.Primitives.{Cell, cell_equality, Move, Role, police, thief, role_equality}
use p2p_thief.Primitives.{Outcome, ongoing, capture, is_ongoing}
use p2p_thief.Board
use p2p_thief.Board.{Board, is_passable, add_barrier, apply_move, is_surrounded}
use p2p_thief.Rules.{RuleSet, validate_barrier_placement, outcome_after_full_turn}
use p2p_thief.Scent
use p2p_thief.Scent.{ScentField}
use p2p_thief.Scent.Float.{Floats}

-- A dictionary with a key for each role.
pub record PerRole {ℓ} (A : Type ℓ) : Type ℓ where
  pub of_police : A
  pub of_thief : A

abbrev pub get {ℓ} : {A : Type ℓ} → PerRole A → Role → A
get d police = d.of_police
get d thief = d.of_thief

abbrev pub put {ℓ} : {A : Type ℓ} → PerRole A → Role → A → PerRole A
put d police a = record d { of_police = a }
put d thief a = record d { of_thief = a }

module _ (F : Floats) where
  open F use {Float}

  pub record GameEngine : Type 0 where
    pub board : Board
    pub positions : PerRole Cell
    pub rules : RuleSet
    pub scent : PerRole (ScentField F)
    pub turns_completed : ℕ
    pub outcome : Outcome
    pub next_actor : Role

  unfoldable pub new : ℤ → Cell → Cell → RuleSet → Float → Float → ℕ → Result GameEngine
  new grid_size cop_start thief_start rules center_intensity decay kernel_size = do
    board ← Board.new grid_size
    raise_if (not (is_passable board cop_start) || not (is_passable board thief_start)) value_error
    police_scent ← Scent.new F grid_size center_intensity decay kernel_size
    thief_scent ← Scent.new F grid_size center_intensity decay kernel_size
    ok (record {
      board = board;
      positions = record { of_police = cop_start; of_thief = thief_start };
      rules = rules;
      scent = record { of_police = police_scent; of_thief = thief_scent };
      turns_completed = 0;
      outcome = ongoing;
      next_actor = police;
    })

  unfoldable pub require_turn : GameEngine → Role → Result (Unit {0})
  require_turn e role = do
    raise_if (not (is_ongoing e.outcome)) game_rule_error
    raise_if (not (e.next_actor == role)) game_rule_error

  unfoldable pub check_captures_mid_round : GameEngine → GameEngine
  check_captures_mid_round e =
      if e.positions.of_police == e.positions.of_thief || is_surrounded e.board e.positions.of_thief
      then record e { outcome = capture }
      else e

  unfoldable pub police_move : GameEngine → Move → Result GameEngine
  police_move e move = do
    require_turn e police
    cell ← apply_move e.board (get e.positions police) move
    ok (
        check_captures_mid_round
          (record e { positions = put e.positions police cell; next_actor = thief }))

  unfoldable pub police_place_barrier : GameEngine → Cell → Result GameEngine
  police_place_barrier e target = do
    require_turn e police
    validate_barrier_placement e.board e.rules (get e.positions police) target
    board ← add_barrier e.board target
    let placed = record e { board = board; next_actor = thief }
    ok (
        if target == get e.positions thief
        then record placed { outcome = capture }
        else check_captures_mid_round placed)

  unfoldable pub close_full_turn : GameEngine → GameEngine
  close_full_turn e = record e {
    scent = record {
      of_police = Scent.update F e.scent.of_police e.positions.of_police;
      of_thief = Scent.update F e.scent.of_thief e.positions.of_thief;
    };
    turns_completed = e.turns_completed + 1;
    outcome =
        outcome_after_full_turn e.board e.rules e.positions.of_police e.positions.of_thief
          (e.turns_completed + 1);
  }

  unfoldable pub thief_move : GameEngine → Move → Result GameEngine
  thief_move e move = do
    require_turn e thief
    cell ← apply_move e.board (get e.positions thief) move
    let moved =
        check_captures_mid_round
          (record e { positions = put e.positions thief cell; next_actor = police })
    ok (if is_ongoing moved.outcome then close_full_turn moved else moved)
