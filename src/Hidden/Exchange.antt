-- ===== src/Hidden/Exchange.antt =====
-- src/p2p_thief/wire/hidden_exchange.py, and the adapter of src/p2p_thief/wire/hidden_runtime.py that reads
-- raw turn messages for it.
use p2p_thief.Prelude.{Bool, false, not, ◌&&◌, ◌==◌, List, [], ◌∷◌, ◌++◌, Option, none, some, map}
use p2p_thief.Prelude.{
  ok, err, Error, game_rule_error, overflow_error, deadline_expired_error, if◌then◌else◌,
  text_equality, dict_get, without,
}
use p2p_thief.Prelude.Int.{ℤ, pos, negsuc, ℤ_equality}
use p2p_thief.Primitives.{Role}
use p2p_thief.Json.{Json, Dict, is_infinite, text, field, number}
use p2p_thief.Scent.Float.{Floats}
use p2p_thief.Crypto.{Hashing, build_step_payload, commit_hash}
use p2p_thief.Sealing.{Message, got, failed, expired, spent, next, role_value}
use p2p_thief.Codec.{int_of}
use p2p_thief.Hidden.{done, raised, Act, is_caught}
use Prim.Native.String.{String}

-- What the adapter makes of a raw message: an echo of the own role is dropped, the number is the step
-- or -1, and a message that concedes has the number that is expected.
abbrev pub or_minus_one : Option Json → Json
or_minus_one none = number (negsuc 0)
or_minus_one (some v) = v

abbrev pub int_or_minus_one : Option ℤ → ℤ
int_or_minus_one none = negsuc 0
int_or_minus_one (some n) = n

unfoldable pub step_number : (String → Option ℤ) → ℤ → Dict → ℤ
step_number int_of_text expected raw =
    if is_caught (field "claim_response" raw) && not (expected == pos 0)
    then expected
    else int_or_minus_one (int_of int_of_text (or_minus_one (dict_get "step" raw)))

-- `int` of an infinite float is not caught.
abbrev pub refused_step : Dict → Option Error
refused_step raw =
    if is_infinite (or_minus_one (dict_get "step" raw)) then some overflow_error else none

abbrev pub is_echo : Role → Dict → Bool
is_echo role raw = elim (field "sender" raw) [ text t ↦ t == role_value role | _ ↦ false ]

unfoldable pub adapted : (String → Option ℤ) → Role → ℤ → List Dict → List Message
adapted int_of_text role expected [] = []
adapted int_of_text role expected (raw ∷ raws) =
    let rest = adapted int_of_text role expected raws in
    if is_echo role raw
    then rest
    else record {
      unreadable = refused_step raw;
      kind = "turn";
      turn = step_number int_of_text expected raw;
      actor = none;
      commit = none;
      payload = some (without "kind" (without "turn" raw));
    }
      ∷ rest

abbrev pub content : Message → Dict
content m = elim m.payload [ none ↦ [] | some d ↦ d ]

module _ (F : Floats) (H : Hashing) (int_of_text : String → Option ℤ) where
  unfoldable pub seal_record : Dict → String → Act F String
  seal_record payload nonce rt = elim (commit_hash H payload nonce) [
    | err e ↦ raised e rt
    | ok commit ↦ done commit (record rt {
      exchange = record rt.exchange {
        own_records =
            rt.exchange.own_records
            ++ (record { payload = payload; nonce = nonce; commit = commit } ∷ []);
      };
    })
  ]

  unfoldable pub seal_step : String → String → ℤ → Json → String → Bool → Act F String
  seal_step nonce state_digest step action hint verdict rt =
      seal_record
        (build_step_payload step (role_value rt.exchange.role) rt.exchange.sub_game state_digest
          action hint verdict)
        nonce rt

  -- The push may miss its deadline; the message is remembered before it.
  unfoldable pub send_message : Bool → Dict → Act F Unit
  send_message delivered message rt =
      let remembered = record rt { last_sent = some message } in
      if delivered
      then done tt (record remembered { sent = message ∷ rt.sent })
      else raised deadline_expired_error remembered

  -- After the wait: the record of the live commit and its declarations.
  unfoldable pub store_commit : Dict → Act F Dict
  store_commit raw rt = elim (field "commit" raw) [
    | text commit ↦
        if commit == ""
        then raised game_rule_error rt
        else done raw (record rt {
          exchange = record rt.exchange {
            their_records =
                rt.exchange.their_records
                ++ (record {
                  payload = none;
                  commit = commit;
                  nonce = none;
                  declared = some (
                      ("barrier_placed", field "barrier_placed" raw)
                      ∷ ("capture_claim", field "capture_claim" raw)
                      ∷ ("hint", field "hint" raw)
                      ∷ []);
                }
                    ∷ []);
          };
        })
    | _ ↦ raised game_rule_error rt
  ]

  -- A wait that raises keeps its exchange as the wait began; its fuel is never spent.
  unfoldable pub receive_turn : ℤ → Act F Dict
  receive_turn step rt =
      let expecting = record rt { expected_turn = step } in
      elim (next rt.exchange "turn" step (adapted int_of_text rt.role step rt.inbox)) [
        | got m x rest ↦
            let read = record expecting { exchange = x; inbox = map content rest } in
            if is_echo x.role (content m)
            then raised game_rule_error read
            else store_commit (content m) read
        | failed e ↦ raised e expecting
        | expired x ↦ raised deadline_expired_error (record expecting { exchange = x; inbox = [] })
        | spent ↦ raised deadline_expired_error expecting
      ]
