-- ===== src/Endgame.antt =====
-- src/p2p_thief/strategy/endgame.py: the search that proves a thief's move to survive out the clock.
-- A frozenset of cells is the list of its cells in order, so that equal sets are equal lists.
pub mod Plain
pub mod Memo
pub mod Certified
pub mod Reach
pub mod Escape
pub mod Lock
use p2p_thief.Prelude.{
  ℕ, zero, suc, ◌+◌, ◌-◌, ◌%◌, ◌≡◌, ◌↔◌, Bool, true, false, not, ◌&&◌, ◌||◌, arith,
}
use p2p_thief.Prelude.{List, [], ◌∷◌, ◌++◌, map, length, all, contains, Option, none, some}
use p2p_thief.Prelude.{Equality, ◌==◌, ltb, leb, eqb, if◌then◌else◌}
use p2p_thief.Prelude.Int.{ℤ, pos, pos_part, ◌-ℤ◌, leb_ℤ, ltb_ℤ, eqb_ℤ}
use p2p_thief.Primitives.{Cell, cell_equality, Move, north, south, east, west, stay, applied_to}
use p2p_thief.Board
use p2p_thief.Board.{Board, in_bounds, orthogonal_moves}
use p2p_thief.Scent.Float.{Floats, gef}
use p2p_thief.Engine.{GameEngine}
use p2p_thief.Protocol.{Action, move}

-- `_View`: the board with hypothetical barriers.
pub record View : Type 0 where
  pub board : Board
  pub extra : List Cell

unfoldable pub is_passable : View → Cell → Bool
is_passable v cell = not (contains cell v.extra) && Board.is_passable v.board cell

unfoldable pub is_surrounded : View → Cell → Bool
is_surrounded v cell = all (λ m. not (is_passable v (applied_to m cell))) orthogonal_moves

-- The order of the cells in a set.
abbrev pub precedes : Cell → Cell → Bool
precedes (row, col) (row', col') = ltb_ℤ row row' || eqb_ℤ row row' && ltb_ℤ col col'

-- `extra | {wall}`, for a wall that is not in the set.
unfoldable pub with_wall : Cell → List Cell → List Cell
with_wall wall [] = wall ∷ []
with_wall wall (c ∷ cs) =
    let rest = with_wall wall cs in if precedes wall c then wall ∷ c ∷ cs else c ∷ rest

-- `(thief, cop, extra, remaining)`
pub record Key : Type 0 where
  pub thief : Cell
  pub cop : Cell
  pub extra : List Cell
  pub remaining : ℕ

abbrev pub eqb_cells : List Cell → List Cell → Bool
eqb_cells [] [] = true
eqb_cells (c ∷ cs) (d ∷ ds) = c == d && eqb_cells cs ds
eqb_cells _ _ = false

abbrev pub eqb_key : Key → Key → Bool
eqb_key a b =
    a.thief == b.thief
    && a.cop == b.cop
    && (eqb_cells a.extra b.extra && eqb a.remaining b.remaining)

-- `self._memo` and `self._nodes`.
pub record Search : Type 0 where
  pub memo : List (Key × Bool)
  pub nodes : ℕ

-- A step of the search, where `none` is a raise of `_BudgetError`.
abbrev pub Step : Type 0 → Type 0
Step A = Search → Option (A × Search)

abbrev pub pure : {A : Type 0} → A → Step A
pure a s = some (a, s)

infixl 5 ◌>>=◌ ◌>>◌
abbrev pub ◌>>=◌ : {A B : Type 0} → Step A → (A → Step B) → Step B
◌>>=◌ m f s = elim (m s) [ none ↦ none | some (a, s') ↦ f a s' ]

abbrev pub ◌>>◌ : {B : Type 0} → Step (Unit {0}) → Step B → Step B
m >> k = m >>= λ _. k

-- `self._memo.get(key)`
unfoldable pub recall : Key → List (Key × Bool) → Option Bool
recall key [] = none
recall key ((k, b) ∷ memo) = if eqb_key key k then some b else recall key memo

-- `(Move.STAY, *ORTHOGONAL)`
abbrev pub all_moves : List Move
all_moves = stay ∷ orthogonal_moves

abbrev pub is_stay : Move → Bool
is_stay stay = true
is_stay _ = false

-- `(cop, *(m.applied_to(cop) for m in ORTHOGONAL))`
abbrev pub wall_cells : Cell → List Cell
wall_cells cop = cop ∷ map (λ m. applied_to m cop) orthogonal_moves

-- The search calls itself with these: the thief, the cop, the walls, the quota.
abbrev pub Deeper : Type 0
Deeper = Cell → Cell → List Cell → ℤ → Step Bool

-- `late n` tells whether the clock has passed the deadline when the n-th state is counted.
module _ (node_cap : ℤ) (late : ℕ → Bool) where
  unfoldable pub tick : Step (Unit {0})
  tick s =
      let nodes = s.nodes + 1 in
      if ltb_ℤ node_cap (pos nodes) || eqb (nodes % 64) 0 && late nodes
      then none
      else some (tt, record s { nodes = nodes })

module _ (board : Board) where
  -- The loop over the cop's moves.
  unfoldable pub moves_met : Deeper → Cell → Cell → List Cell → ℤ → List Move → Step Bool
  moves_met deeper landed cop extra quota [] = pure true
  moves_met deeper landed cop extra quota (m ∷ ms) =
      let rest = moves_met deeper landed cop extra quota ms in
      let target = applied_to m cop in
      if not (is_stay m) && not (is_passable (record { board = board; extra = extra }) target)
      then rest
      else if target == landed
      then pure false
      else (deeper landed target extra quota >>= λ survived. if survived then rest else pure false)

  -- The loop over the cells that the cop may wall.
  unfoldable pub walls_met : Deeper → Cell → Cell → List Cell → ℤ → List Cell → Step Bool
  walls_met deeper landed cop extra quota [] = pure true
  walls_met deeper landed cop extra quota (wall ∷ walls) =
      let rest = walls_met deeper landed cop extra quota walls in
      let walled = with_wall wall extra in
      if not (in_bounds board wall && is_passable (record { board = board; extra = extra }) wall)
      then rest
      else if wall == landed
      then pure false
      else if is_surrounded (record { board = board; extra = walled }) landed
      then pure false
      else (deeper landed cop walled (quota -ℤ pos 1) >>= λ survived.
          if survived then rest else pure false)

-- `any(...)` over the thief's moves.
unfoldable pub some_move : (Move → Step Bool) → List Move → Step Bool
some_move test [] = pure false
some_move test (m ∷ ms) =
    let rest = some_move test ms in test m >>= λ survived. if survived then pure true else rest

-- `_survives` around the search for the value of a key.
unfoldable pub remembered : Key → Step Bool → Step Bool
remembered key value s = elim (recall key s.memo) [
  | some cached ↦ some (cached, s)
  | none ↦ elim (value s) [
    | none ↦ none
    | some (cached, s') ↦ some (cached, record s' { memo = (key, cached) ∷ s'.memo })
  ]
]

module _ (node_cap : ℤ) (late : ℕ → Bool) (board : Board) where
  -- What `_move_survives` does with a move, where `deeper` is `_survives` with one turn less.
  unfoldable pub move_met : Deeper → ℕ → Move → Deeper
  move_met deeper remaining m thief cop extra quota =
      let view : View = record { board = board; extra = extra } in
      let landed = applied_to m thief in
      tick node_cap late
      >> (if not (is_stay m) && not (is_passable view landed)
          then pure false
          else if landed == cop || is_surrounded view landed
          then pure false
          else if leb remaining 1
          then pure true
          else (moves_met board deeper landed cop extra quota all_moves >>= λ met.
              if not met
              then pure false
              else if ltb_ℤ (pos 0) quota
              then walls_met board deeper landed cop extra quota (wall_cells cop)
              else pure true))

  -- `_survives`, with the turns that remain. It is called where one turn remains at least.
  unfoldable pub survives : ℕ → Deeper
  survives zero thief cop extra quota = pure true
  survives (suc n) thief cop extra quota =
      remembered (record { thief = thief; cop = cop; extra = extra; remaining = suc n })
        (some_move (λ m. move_met (survives n) (suc n) m thief cop extra quota) all_moves)

  -- `_move_survives`
  unfoldable pub move_survives : ℕ → Move → Deeper
  move_survives remaining = move_met (survives (remaining - 1)) remaining

abbrev pub eqb_move : Move → Move → Bool
eqb_move north north = true
eqb_move south south = true
eqb_move east east = true
eqb_move west west = true
eqb_move stay stay = true
eqb_move _ _ = false

pub eqb_move_iff : (a b : Move) → (eqb_move a b ≡ true) ↔ (a ≡ b)
eqb_move_iff a b = (ground arith, ground arith)

instance abbrev pub move_equality : Equality Move
move_equality = record { test = eqb_move; test_iff = eqb_move_iff }

-- `certified & safe`
unfoldable pub common {ℓ} : {A : Type ℓ} ⦃e : Equality A⦄ → List A → List A → List A
common [] safe = []
common (m ∷ ms) safe = let rest = common ms safe in if contains m safe then m ∷ rest else rest

abbrev pub is_empty : List Move → Bool
is_empty [] = true
is_empty _ = false

-- `_MOVE_RANK`
abbrev pub rank : Move → ℕ
rank north = 0
rank south = 1
rank east = 2
rank west = 3
rank stay = 4

-- `min(certified, key=_MOVE_RANK.__getitem__)`, of a set that is not empty.
unfoldable pub first_ranked : Move → List Move → Move
first_ranked best [] = best
first_ranked best (m ∷ ms) = first_ranked (if ltb (rank m) (rank best) then m else best) ms

-- `safe if certified is None else certified & safe`
abbrev pub narrowed : Option (List Move) → List Move → List Move
narrowed none safe = safe
narrowed (some certified) safe = common certified safe

-- The move that `lock` returns, when neither the budget nor the loop ended it.
unfoldable pub chosen : Option (Option (Option (List Move)) × Search) → Option Move
chosen (some (some (some (m ∷ ms)), _)) = some (first_ranked m ms)
chosen _ = none

module _ (F : Floats) where
  open F use {Float}

  -- The table of `certificate_settings`.
  pub record Settings : Type 0 where
    pub enabled : Bool
    pub max_support_cells : ℤ
    pub support_mass_threshold : Float
    pub max_horizon_turns : ℤ
    pub node_cap : ℤ

  row_support : Float → ℕ → ℕ → List Float → List Cell
  row_support threshold row col [] = []
  row_support threshold row col (mass ∷ masses) =
      let rest = row_support threshold row (col + 1) masses in
      if gef F mass threshold then (pos row, pos col) ∷ rest else rest

  rows_support : Float → ℕ → List (List Float) → List Cell
  rows_support threshold row [] = []
  rows_support threshold row (masses ∷ values) =
      row_support threshold row 0 masses ++ rows_support threshold (row + 1) values

  unfoldable pub support_cells : List (List Float) → Float → List Cell
  unfolding row_support rows_support
  support_cells values threshold = rows_support threshold 0 values

  pub record SurvivalCertificate : Type 0 where
    pub settings : Settings
    pub certified : ℕ

  module _ (node_cap : ℤ) (late : ℕ → Bool) (engine : GameEngine F) where
    -- The set comprehension of `lock`: the moves that survive the cop on one cell.
    unfoldable pub safe_moves : ℕ → Cell → ℤ → List Move → Step (List Move)
    safe_moves remaining cop quota [] = pure []
    safe_moves remaining cop quota (m ∷ ms) = do
      survived ←
          move_survives node_cap late engine.board remaining m engine.positions.of_thief cop []
            quota
      others ← safe_moves remaining cop quota ms
      pure (if survived then m ∷ others else others)

    -- The loop of `lock` over the support; `none` in the result is its early `return None`.
    unfoldable pub certify :
        ℕ → ℤ → Option (List Move) → List Cell → Step (Option (Option (List Move)))
    certify remaining quota certified [] = pure (some certified)
    certify remaining quota certified (cop ∷ support) = do
      safe ← safe_moves remaining cop quota all_moves
      let kept = narrowed certified safe
      let rest = certify remaining quota (some kept) support
      if is_empty kept then pure none else rest

    -- The search over the support, from an empty memo; a raise of `_BudgetError` certifies no move.
    unfoldable pub certified_move : ℕ → ℤ → List Cell → Option Move
    certified_move remaining quota support =
        chosen (certify remaining quota none support (record { memo = []; nodes = 0 }))

  unfoldable pub lock :
      (ℕ → Bool)
      → SurvivalCertificate
      → GameEngine F
      → Option (List (List Float))
      → SurvivalCertificate × Option Action
  lock late c engine none = (c, none)
  lock late c engine (some values) =
      let support = support_cells values c.settings.support_mass_threshold in
      let remaining = engine.rules.survival_threshold -ℤ pos engine.turns_completed in
      let quota = engine.rules.max_barriers -ℤ pos (length engine.board.barriers) in
      if not c.settings.enabled
      then (c, none)
      else if not
          (leb 1 (length support) && leb_ℤ (pos (length support)) c.settings.max_support_cells)
      then (c, none)
      else if not (leb_ℤ (pos 1) remaining && leb_ℤ remaining c.settings.max_horizon_turns)
      then (c, none)
      else elim (certified_move c.settings.node_cap late engine (pos_part remaining) quota
          support) [
            | none ↦ (c, none)
            | some m ↦ (record c { certified = c.certified + 1 }, some (move m))
          ]

  -- `CertifiedThiefBrain.decide`, where `doctrine` is the decision of the brain that it extends.
  unfoldable pub decide :
      (GameEngine F → Option (List (List Float)) → Action)
      → (ℕ → Bool)
      → SurvivalCertificate
      → GameEngine F
      → Option (List (List Float))
      → SurvivalCertificate × Action
  decide doctrine late c engine none = (c, doctrine engine none)
  decide doctrine late c engine (some values) =
      let (c', locked) = lock late c engine (some values) in
      elim locked [ none ↦ (c', doctrine engine (some values)) | some action ↦ (c', action) ]
