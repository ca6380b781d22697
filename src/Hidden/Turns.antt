-- ===== src/Hidden/Turns.antt =====
-- src/p2p_thief/wire/hidden_turns.py: the handlers of the two half-turns and the closing message.
use p2p_thief.Prelude.{
  Bool, true, false, not, ◌&&◌, ◌||◌, ◌==◌, List, Option, none, some, ok, if◌then◌else◌,
  text_equality,
}
use p2p_thief.Prelude.Int.{ℤ, pos, ◌+ℤ◌}
use p2p_thief.Primitives.{
  Cell, stay, police, thief, role_equality, capture, survival, is_ongoing, computing_move,
  committing, awaiting_reveal, verifying, waiting_for_opponent,
}
use p2p_thief.Json.{Json, Members, null, text, object, field, no_members}
use p2p_thief.Scent.{ScentField}
use p2p_thief.Scent.Float.{Floats}
use p2p_thief.Protocol.{Action, move}
use p2p_thief.OwnState.{
  OwnState, ClaimResponse, note_rival_barrier, note_rival_half_turn, close_full_turn,
  survival_reached, i_am_captured, answer_capture_claim, concede_declaration, capture_claim_for,
  absorb,
}
use p2p_thief.Crypto.{Hashing}
use p2p_thief.Sealing.{role_value}
use p2p_thief.Codec.{build_turn_message, parse_turn_message, final_caught_hint}
use p2p_thief.Hidden.{
  done, Act, ◌>>=◌, ◌>>◌, gives, reads, sets, calls, changes_own, enters, applies, ends,
  action_json, cell_json, response_json, survival_claim, some_json, read_cell, is_caught,
}
use p2p_thief.Hidden.Exchange.{seal_step, send_message, receive_turn}
use Prim.Native.String.{String}

-- What the formatting of the scent's numbers and of the cells they stand at does, and the digest of
-- the own state.
pub record Texts (F : Floats) : Type 0 where
  pub int_of_text : String → Option ℤ
  pub write_scent : ScentField F → Members
  pub read_scent : Members → List (Cell × F.Float)
  pub digest : OwnState F → String

-- What is drawn and decided outside for one message: the push succeeds or misses its deadline.
pub record Outside : Type 0 where
  pub nonce : String
  pub timestamp : String
  pub delivered : Bool

pub record Decision : Type 0 where
  pub action : Action
  pub hint : String
  pub truth : Bool
  -- Whether the belief at the own cell reaches the threshold of a claim.
  pub plausible : Bool

module _ (F : Floats) (H : Hashing) (T : Texts F) where
  abbrev take_pending : Act F (Option (ClaimResponse F))
  take_pending rt = done rt.pending_claim_response (record rt { pending_claim_response = none })

  abbrev members_of : Json → Members
  members_of (object m) = m
  members_of _ = no_members

  -- The own half-turn from the applied action on.
  unfoldable pub speak : Decision → Outside → ℤ → Option Cell → Act F Unit
  speak d o step placed = do
    role ← reads (λ rt. rt.role)
    captured ← reads (λ rt. rt.role == thief && i_am_captured F rt.own)
    sets (λ rt. record rt {
      own = if rt.role == thief && not captured then close_full_turn F rt.own else rt.own;
    })
    wins ← reads (λ rt. rt.role == thief && not captured && survival_reached F rt.own)
    waiting ← take_pending
    response ← reads (λ rt. if captured then some (concede_declaration F rt.own) else waiting)
    own ← reads (λ rt. rt.own)
    commit ←
        seal_step F H T.int_of_text o.nonce (T.digest own) step (action_json d.action) d.hint
          d.truth
    send_message F H T.int_of_text o.delivered (
        build_turn_message step (role_value role) d.hint (T.write_scent own.own_scent) commit
          o.timestamp (some_json cell_json placed)
          (some_json cell_json
            (if role == police then capture_claim_for F d.action own (some d.plausible) else none))
          (some_json (response_json F) response) (if wins then survival_claim else null))
    enters awaiting_reveal
    enters verifying
    enters waiting_for_opponent
    sets (λ rt. record rt {
      own =
          if captured || wins
          then record rt.own { outcome = if captured then capture else survival }
          else rt.own;
    })

  unfoldable pub my_half_turn : Decision → Outside → Act F Unit
  my_half_turn d o = do
    sets (λ rt. record rt { my_step = rt.my_step +ℤ pos 1 })
    step ← reads (λ rt. rt.my_step)
    enters computing_move
    enters committing
    placed ← applies d.action
    speak d o step placed

  -- The closing message, which steps nowhere.
  unfoldable pub send_concede : Outside → Act F Unit
  send_concede o = do
    sets (λ rt. record rt { my_step = rt.my_step +ℤ pos 1 })
    step ← reads (λ rt. rt.my_step)
    role ← reads (λ rt. rt.role)
    response ← take_pending
    own ← reads (λ rt. rt.own)
    commit ←
        seal_step F H T.int_of_text o.nonce (T.digest own) step (action_json (move stay))
          final_caught_hint true
    send_message F H T.int_of_text o.delivered (
        build_turn_message step (role_value role) final_caught_hint (T.write_scent own.own_scent)
          commit o.timestamp null null (some_json (response_json F) response) null)

  abbrev is_set : Json → Bool
  is_set null = false
  is_set _ = true

  -- The end of the game that a message of the rival shows.
  unfoldable pub judge_message : Bool → Json → Act F Unit
  judge_message conceded win_claim rt =
      if conceded
      then ends capture rt
      else if is_set win_claim
      then ends survival rt
      else if rt.role == police && survival_reached F rt.own
      then ends survival rt
      else done tt rt

  -- The thief's duty to answer: the answer is computed from the own cell.
  unfoldable pub answer_claim : Option Cell → Act F Unit
  answer_claim none rt = done tt rt
  answer_claim (some claim) rt =
      done tt (record rt { pending_claim_response = some (answer_capture_claim F rt.own claim) })

  abbrev pub says_caught : Option (ClaimResponse F) → Bool
  says_caught none = false
  says_caught (some r) = r.caught

  unfoldable pub truth_duty : Option Cell → Outside → Act F Unit
  truth_duty claim o rt =
      if rt.role == thief && is_ongoing rt.own.outcome
      then (do
        answer_claim claim
        hit ← reads (λ r. says_caught r.pending_claim_response)
        caught ← reads (λ r. hit || i_am_captured F r.own)
        (if not caught then gives tt else do
          sets (λ r.
              if hit
              then r
              else record r { pending_claim_response = some (concede_declaration F r.own) })
          ends capture
          send_concede o))
          rt
      else done tt rt

  abbrev is_thief : Json → Bool
  is_thief (text t) = t == "thief"
  is_thief _ = false

  -- The message is the next of the rival's own steps.
  unfoldable pub their_half_turn : Outside → Act F Unit
  their_half_turn o = do
    sets (λ rt. record rt { their_step = rt.their_step +ℤ pos 1 })
    step ← reads (λ rt. rt.their_step)
    raw ← receive_turn F H T.int_of_text step
    message ← calls (parse_turn_message T.int_of_text raw)
    let placed = read_cell (field "barrier_placed" message)
    changes_own (λ s. elim placed [ none ↦ ok s | some cell ↦ note_rival_barrier F s cell ])
    changes_own (λ s. ok (record s {
      rival_scent = absorb F s.rival_scent (T.read_scent (members_of (field "smell_grid" message)));
    }))
    changes_own (note_rival_half_turn F)
    let conceded = is_caught (field "claim_response" message) && is_thief (field "sender" message)
    sets (λ rt.
        if rt.role == police && not conceded
        then record rt { own = close_full_turn F rt.own }
        else rt)
    judge_message conceded (field "win_claim" message)
    truth_duty (read_cell (field "capture_claim" message)) o
