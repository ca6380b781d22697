-- ===== src/Hidden.antt =====
-- src/p2p_thief/wire/hidden_turns.py, wire/hidden_exchange.py and wire/hidden_runtime.py: the half-turns of
-- one peer of the hidden wire, over the whole state of its runtime, which a raise leaves as it then is.
-- What the brain, the deceiver and the talk chain return, the nonce, the time stamp, the digest and the
-- success of the push are arguments of a half-turn; the belief that is fed is not modelled.
pub mod Exchange
pub mod Turns
pub mod Mine
pub mod Spoken
pub mod Play
pub mod Duty
use p2p_thief.Prelude.{
  Bool, true, false, not, ◌&&◌, ◌||◌, ◌==◌, List, [], ◌∷◌, ◌++◌, Option, none, some, map,
}
use p2p_thief.Prelude.{
  Result, ok, err, Error, game_rule_error, deadline_expired_error, if◌then◌else◌, text_equality,
}
use p2p_thief.Prelude.Int.{ℤ, pos, ◌+ℤ◌, ℤ_equality, ltb_ℤ}
use p2p_thief.Primitives.{
  Cell, Move, north, south, east, west, stay, Role, police, thief, role_equality, Outcome, ongoing,
  capture, survival, is_ongoing, GamePhase, computing_move, committing, awaiting_reveal, verifying,
  waiting_for_opponent,
}
use p2p_thief.Json.{
  Json, Dict, Items, Members, null, boolean, number, decimal, infinite, not_a_number, text, array,
  object, no_items, item, no_members, member, field, or_null, member_get,
}
use p2p_thief.StateMachine.{GamePhaseMachine, transition, can_transition}
use p2p_thief.Scent.Float.{Floats}
use p2p_thief.Protocol.{Action, move, barrier}
use p2p_thief.OwnState.{
  OwnState, ClaimResponse, apply_own_action, note_rival_barrier, note_rival_half_turn,
  close_full_turn, survival_reached, i_am_captured, answer_capture_claim, concede_declaration,
  capture_claim_for, absorb,
}
use p2p_thief.Crypto.{Hashing, build_step_payload, commit_hash, RivalRecord}
use p2p_thief.Sealing.{
  SealedExchange, OwnRecord, Message, Wait, got, failed, expired, spent, next, role_value,
}
use p2p_thief.Codec.{build_turn_message, parse_turn_message, final_caught_hint, int_of, is_role}
use Prim.Native.String.{String}

-- The actions and the answers as they are sent.
abbrev pub move_name : Move → String
move_name north = "N"
move_name south = "S"
move_name east = "E"
move_name west = "W"
move_name stay = "STAY"

abbrev pub cell_json : Cell → Json
cell_json (row, col) = array (item (number row) (item (number col) no_items))

abbrev pub action_json : Action → Json
action_json (move m) =
    object (member "type" (text "move") (member "move" (text (move_name m)) no_members))
action_json (barrier c) =
    object (member "type" (text "barrier") (member "cell" (cell_json c) no_members))

abbrev pub some_json {ℓ} : {A : Type ℓ} → (A → Json) → Option A → Json
some_json write none = null
some_json write (some a) = write a

abbrev pub survival_claim : Json
survival_claim = object (member "type" (text "survival") no_members)

-- `bool(value)`
abbrev pub is_truthy : Json → Bool
is_truthy null = false
is_truthy (boolean b) = b
is_truthy (number n) = not (n == pos 0)
is_truthy (decimal n f) = not (n == pos 0 && f == "0")
is_truthy infinite = true
is_truthy not_a_number = true
is_truthy (text t) = not (t == "")
is_truthy (array no_items) = false
is_truthy (array (item v vs)) = true
is_truthy (object no_members) = false
is_truthy (object (member k v vs)) = true

-- The cell of a value that the codec has accepted as one.
abbrev pub int_value : Json → ℤ
int_value (number n) = n
int_value (boolean b) = if b then pos 1 else pos 0
int_value _ = pos 0

abbrev pub read_cell : Json → Option Cell
read_cell (array (item row (item col no_items))) = some (int_value row, int_value col)
read_cell _ = none

-- `(message["claim_response"] or {}).get("caught")`, as a truth value.
abbrev pub is_caught : Json → Bool
is_caught (object m) = is_truthy (or_null (member_get "caught" m))
is_caught _ = false

module _ (F : Floats) where
  abbrev pub response_json : ClaimResponse F → Json
  response_json r =
      object (member "claim" (cell_json r.claim) (member "caught" (boolean r.caught) no_members))

  pub record Runtime : Type 0 where
    pub role : Role
    pub own : OwnState F
    pub exchange : SealedExchange
    pub last_sent : Option Dict
    pub expected_turn : ℤ
    pub pending_claim_response : Option (ClaimResponse F)
    pub my_step : ℤ
    pub their_step : ℤ
    pub fsm : GamePhaseMachine
    -- What was pushed, the last first, and what the transport has still to deliver in time.
    pub sent : List Dict
    pub inbox : List Dict

  -- A method of the runtime: a value or an exception, and the runtime as it is then.
  pub data Ran (A : Type 0) : Type 0 where
    done : A → Runtime → Ran A
    raised : Error → Runtime → Ran A

  abbrev pub Act : Type 0 → Type 0
  Act A = Runtime → Ran A

module _ {F : Floats} where
  infixl 5 ◌>>=◌ ◌>>◌
  abbrev pub ◌>>=◌ : {A B : Type 0} → Act F A → (A → Act F B) → Act F B
  (act >>= after) rt = elim (act rt) [ done a r ↦ after a r | raised e r ↦ raised e r ]

  abbrev pub ◌>>◌ : {A B : Type 0} → Act F A → Act F B → Act F B
  (act >> after) rt = elim (act rt) [ done a r ↦ after r | raised e r ↦ raised e r ]

  abbrev pub gives : {A : Type 0} → A → Act F A
  gives a rt = done a rt

  abbrev pub reads : {A : Type 0} → (Runtime F → A) → Act F A
  reads f rt = done (f rt) rt

  abbrev pub sets : (Runtime F → Runtime F) → Act F Unit
  sets f rt = done tt (f rt)

  -- A call that returns or raises and leaves the runtime.
  abbrev pub calls : {A : Type 0} → Result A → Act F A
  calls (ok a) rt = done a rt
  calls (err e) rt = raised e rt

  -- A call that changes the own state, or raises before it does.
  abbrev pub changes_own : (OwnState F → Result (OwnState F)) → Act F Unit
  changes_own f rt = elim (f rt.own) [
    | ok s ↦ done tt (record rt { own = s })
    | err e ↦ raised e rt
  ]

  unfoldable pub enters : GamePhase → Act F Unit
  enters phase rt = elim (transition rt.fsm phase) [
    | ok m ↦ done tt (record rt { fsm = m })
    | err e ↦ raised e rt
  ]

  unfoldable pub applies : Action → Act F (Option Cell)
  applies action rt = elim (apply_own_action F rt.own action) [
    | ok (s, placed) ↦ done placed (record rt { own = s })
    | err e ↦ raised e rt
  ]

  unfoldable pub ends : Outcome → Act F Unit
  ends outcome rt = done tt (record rt { own = record rt.own { outcome = outcome } })
