-- ===== src/Reconstruct.antt =====
-- src/p2p_thief/wire/audit.py and wire/declared.py: the replay of both sides' revealed actions at the
-- end of a hidden game. A revealed payload is read as the fields that the replay uses; the digest of the
-- end state is a hash of the returned state.
pub mod Applied
pub mod Lived
pub mod Order
pub mod Turns
use p2p_thief.Prelude.{
  ℕ, ◌+◌, ◌≡◌, Bool, true, false, not, ◌&&◌, ◌||◌, ◌==◌, if◌then◌else◌, List, [], ◌∷◌, ◌++◌, Option,
  none, some, text_equality,
}
use p2p_thief.Prelude.{Result, ok, err, game_rule_error, raise_if, ◌>>=◌, ◌>>◌}
use p2p_thief.Prelude.Int.{ℤ, pos, ℤ_equality, ltb_ℤ, leb_ℤ}
use p2p_thief.Primitives.{
  Cell, cell_equality, Role, police, thief, role_equality, Outcome, ongoing, capture, survival,
  is_ongoing, stay,
}
use p2p_thief.Board
use p2p_thief.Board.{Board, is_barrier, add_barrier, apply_move, is_surrounded}
use p2p_thief.Rules.{RuleSet, validate_barrier_placement}
use p2p_thief.Engine.{PerRole, get, put}
use p2p_thief.Protocol.{Action, move, barrier}
use Prim.Native.String.{String}

pub record Revealed : Type 0 where
  pub step : ℤ
  pub role : Role
  pub sub_game : ℤ
  pub action : Action
  pub hint : String

pub record Declared : Type 0 where
  pub barrier_placed : Option Cell
  pub capture_claim : Option Cell
  pub hint : Option String

-- A record whose payload is missing or typed replays nothing, and has no payload here.
pub record AuditRecord : Type 0 where
  pub payload : Option Revealed
  pub declared : Option Declared

abbrev pub sealed_barrier : Revealed → Option Cell
sealed_barrier p = elim p.action [ barrier c ↦ some c | move m ↦ none ]

abbrev pub same_cell : Option Cell → Option Cell → Bool
same_cell none none = true
same_cell (some a) (some b) = a == b
same_cell _ _ = false

-- `verify_declared`: the capture claim of the declared block, if the record has one.
unfoldable pub verify_declared : Revealed → Option Declared → Result (Option Cell)
verify_declared payload none = ok none
verify_declared payload (some d) = do
  raise_if (not (same_cell d.barrier_placed (sealed_barrier payload))) game_rule_error
  raise_if (elim d.hint [ none ↦ false | some h ↦ not (h == payload.hint) ]) game_rule_error
  ok d.capture_claim

-- The key of the sort: the step, and the thief first.
abbrev pub is_before : Revealed → Revealed → Bool
is_before a b =
    ltb_ℤ a.step b.step || (a.step == b.step && (a.role == thief || not (b.role == thief)))

abbrev pub Entry : Type 0
Entry = Revealed × Option Cell

abbrev pub insert_entry : Entry → List Entry → List Entry
insert_entry e [] = e ∷ []
insert_entry e (f ∷ es) = if is_before e.0 f.0 then e ∷ f ∷ es else f ∷ insert_entry e es

-- The entries of the records, sorted; equal keys keep their order.
unfoldable pub entries : List AuditRecord → Result (List Entry)
entries [] = ok []
entries (r ∷ rs) = elim r.payload [
  | none ↦ entries rs
  | some p ↦ do
    claim ← verify_declared p r.declared
    rest ← entries rs
    ok (insert_entry (p, claim) rest)
]

-- `_apply`: the board and the positions after an action.
unfoldable pub apply_revealed :
    Board → PerRole Cell → RuleSet → Role → Action → Result (Board × PerRole Cell)
apply_revealed board positions rules actor (barrier target) = do
  raise_if (not (actor == police)) game_rule_error
  validate_barrier_placement board rules positions.of_police target
  walled ← add_barrier board target
  ok (walled, positions)
apply_revealed board positions rules actor (move m) = do
  cell ← apply_move board (get positions actor) m
  ok (board, put positions actor cell)

pub record Evidence : Type 0 where
  pub step : ℤ
  pub cell : Cell

pub record Replayed : Type 0 where
  pub board : Board
  pub positions : PerRole Cell
  pub turns : ℕ
  pub outcome : Outcome
  pub disputed : Option Evidence
  pub pending : Option Evidence

-- The verdict on the cop's action.
abbrev pub judge_police : Replayed → ℤ → Replayed
judge_police s step =
    if is_barrier s.board s.positions.of_thief || is_surrounded s.board s.positions.of_thief
    then record s { outcome = capture; pending = none }
    else if s.positions.of_police == s.positions.of_thief
    then record s {
      outcome = capture;
      pending = some (record { step = step; cell = s.positions.of_police });
    }
    else s

-- The verdict on the thief's action, which ticks the clock.
abbrev pub judge_thief : RuleSet → Replayed → Replayed
judge_thief rules s =
    if is_surrounded s.board s.positions.of_thief || is_barrier s.board s.positions.of_thief
    then record s { outcome = capture }
    else if leb_ℤ rules.survival_threshold (pos (s.turns + 1))
        || leb_ℤ rules.max_moves (pos (s.turns + 1))
    then record s { turns = s.turns + 1; outcome = survival }
    else record s { turns = s.turns + 1 }

abbrev pub is_false_claim : Option Cell → Cell → Bool
is_false_claim none cell = false
is_false_claim (some claim) cell = not (cell == claim)

-- One action of a game that goes on.
unfoldable pub replay_action : RuleSet → Replayed → Entry → Result Replayed
replay_action rules s (p, claim) = do
  acted ← apply_revealed s.board s.positions rules p.role p.action
  let moved = record s { board = acted.0; positions = acted.1 }
  raise_if (p.role == police && is_false_claim claim moved.positions.of_police) game_rule_error
  ok (if p.role == police then judge_police moved p.step else judge_thief rules moved)

abbrev pub is_closure : Revealed → Bool
is_closure p = not (p.role == police) && elim p.action [ move stay ↦ true | _ ↦ false ]

-- The body of the loop.
unfoldable pub replay_entry : RuleSet → Option ℤ → Replayed → Entry → Result Replayed
replay_entry rules expected_sub_game s (p, claim) = do
  raise_if (elim expected_sub_game [ none ↦ false | some n ↦ not (p.sub_game == n) ])
      game_rule_error
  (if is_ongoing s.outcome
      then replay_action rules s (p, claim)
      else if is_closure p
      then ok (record s { pending = none })
      else elim s.pending [
        | none ↦ err game_rule_error
        | some evidence ↦
            replay_action rules
              (record s { disputed = some evidence; pending = none; outcome = ongoing }) (p, claim)
      ])

unfoldable pub replay_entries : RuleSet → Option ℤ → Replayed → List Entry → Result Replayed
replay_entries rules expected_sub_game s [] = ok s
replay_entries rules expected_sub_game s (e ∷ es) =
    replay_entry rules expected_sub_game s e >>= λ t. replay_entries rules expected_sub_game t es

unfoldable pub reconstruct :
    List AuditRecord → List AuditRecord → ℤ → Cell → Cell → RuleSet → Option ℤ → Result Replayed
reconstruct own_records their_records grid cop_start thief_start rules expected_sub_game = do
  board ← Board.new grid
  sorted ← entries (own_records ++ their_records)
  end ←
      replay_entries rules expected_sub_game
        (record {
          board = board;
          positions = record { of_police = cop_start; of_thief = thief_start };
          turns = 0;
          outcome = ongoing;
          disputed = none;
          pending = none;
        })
        sorted
  raise_if (is_ongoing end.outcome) game_rule_error
  ok end
