-- ===== src/Hidden/Mine.antt =====
-- The own half-turn: what it sends, seals and makes of the own state.
use p2p_thief.Prelude.{
  Bool, true, not, ◌&&◌, ◌||◌, ◌≡◌, refl, ◌==◌, [], ◌∷◌, ◌++◌, Option, none, some, Result, ok, err,
  Error, if◌then◌else◌, text_equality, ap, ◌∙◌, has_key, contains,
}
use p2p_thief.Prelude.Int.{pos, ◌+ℤ◌}
use p2p_thief.Primitives.{Cell, police, thief, role_equality, committing, capture, survival}
use p2p_thief.Json.{Dict, null}
use p2p_thief.StateMachine.{start, transition, can_transition, phase_equality}
use p2p_thief.Scent.Float.{Floats}
use p2p_thief.OwnState.{
  OwnState, apply_own_action, i_am_captured, survival_reached, close_full_turn, concede_declaration,
  capture_claim_for,
}
use p2p_thief.Crypto.{Hashing, build_step_payload, commit_hash, material}
use p2p_thief.Sealing.{role_value}
use p2p_thief.Codec.{build_turn_message}
use p2p_thief.Hidden.{
  Runtime, Ran, done, raised, enters, applies, action_json, cell_json, response_json,
  survival_claim, some_json,
}
use p2p_thief.Hidden.Exchange.{seal_step, seal_record, send_message}
use p2p_thief.Hidden.Turns.{Texts, Outside, Decision, my_half_turn, speak}
use Prim.Native.String.{String}

module _ (F : Floats) (H : Hashing) (T : Texts F) (rt : Runtime F) (d : Decision)
    (o : Outside) where
  -- A runtime between two half-turns.
  abbrev pub idle : Runtime F
  idle = record rt { fsm = start }

  abbrev pub my_payload : OwnState F → Dict
  my_payload s =
      build_step_payload (rt.my_step +ℤ pos 1) (role_value rt.exchange.role) rt.exchange.sub_game
        (T.digest s) (action_json d.action) d.hint d.truth

  abbrev pub my_commit : OwnState F → String
  my_commit s = H.sha256_hex (material H (my_payload s) o.nonce)

  -- The runtime when the action is applied.
  abbrev pub opened : Runtime F
  opened = record rt { my_step = rt.my_step +ℤ pos 1; fsm = record { state = committing } }

  -- The rest of the half-turn, as a function of how the action ends.
  abbrev after_applies : Result (OwnState F × Option Cell) → Ran F Unit
  after_applies r =
      elim (elim r as (λ _. Ran F (Option Cell)) [
        | ok x ↦ done x.1 (record opened { own = x.0 })
        | err e ↦ raised e opened
      ]) [ done a q ↦ speak F H T d o (rt.my_step +ℤ pos 1) a q | raised e q ↦ raised e q ]

  -- An action that the own state refuses is raised: nothing is sealed or sent.
  pub my_half_turn-err :
      (e : Error)
      → apply_own_action F rt.own d.action ≡ err e
      → my_half_turn F H T d o idle ≡ raised e opened
  unfolding my_half_turn enters applies transition can_transition contains
  my_half_turn-err e refused = ap after_applies refused

  module _ (s : OwnState F) (placed : Option Cell) where
    abbrev pub is_walled : Bool
    is_walled = rt.role == thief && i_am_captured F s

    -- The own state with the boundary that the thief's step ticks.
    abbrev pub moved : OwnState F
    moved = if rt.role == thief && not is_walled then close_full_turn F s else s

    abbrev pub wins : Bool
    wins = rt.role == thief && not is_walled && survival_reached F moved

    abbrev pub judged : OwnState F
    judged =
        if is_walled || wins
        then record moved { outcome = if is_walled then capture else survival }
        else moved

    abbrev pub my_message : Dict
    my_message =
        build_turn_message (rt.my_step +ℤ pos 1) (role_value rt.role) d.hint
          (T.write_scent moved.own_scent) (my_commit moved) o.timestamp (some_json cell_json placed)
          (some_json cell_json (
            if rt.role == police
            then capture_claim_for F d.action moved (some d.plausible)
            else none))
          (some_json (response_json F)
            (if is_walled then some (concede_declaration F moved) else rt.pending_claim_response))
          (if wins then survival_claim else null)

    abbrev pub after_mine : Runtime F
    after_mine = record idle {
      own = judged;
      exchange = record rt.exchange {
        own_records =
            rt.exchange.own_records
            ++ (record { payload = my_payload moved; nonce = o.nonce; commit = my_commit moved }
                ∷ []);
      };
      last_sent = some my_message;
      pending_claim_response = none;
      my_step = rt.my_step +ℤ pos 1;
      sent = my_message ∷ rt.sent;
    }

    speak-done :
        o.delivered ≡ true
        → speak F H T d o (rt.my_step +ℤ pos 1) placed (record opened { own = s })
          ≡ done tt after_mine
    unfolding speak enters transition can_transition contains seal_step seal_record send_message
        commit_hash build_step_payload has_key
    speak-done delivered = rw delivered refl

    pub my_half_turn-done :
        apply_own_action F rt.own d.action ≡ ok (s, placed)
        → o.delivered ≡ true
        → my_half_turn F H T d o idle ≡ done tt after_mine
    unfolding my_half_turn enters applies transition can_transition contains
    my_half_turn-done acted delivered = ap after_applies acted ∙ speak-done delivered
