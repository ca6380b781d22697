-- ===== src/Tests/Rival.antt =====
-- Runs of the turn messages and of the audit of a rival's reveals.
use p2p_thief.Prelude.{◌⊎◌, false}
use p2p_thief.Prelude.{
  true, ◌≡◌, ◌↔◌, refl, List, [], ◌∷◌, none, some, arith, ok, inl, inr, dict_get, Option,
}
use p2p_thief.Prelude.{text_equality}
use p2p_thief.Prelude.Int.{ℤ, pos}
use p2p_thief.Primitives.{police, ongoing}
use p2p_thief.Json.{
  Json, Dict, field, infinite, null, number, text, array, item, no_items, object, member,
  no_members,
}
use p2p_thief.Crypto.{verified_ok}
use p2p_thief.Codec.{parse_turn_message, build_turn_message, normalised, required_keys}
use p2p_thief.Codec.Accepts.{IsCell, IsKnown, HasKey}
use p2p_thief.Prelude.{dict_set, has_key, All, err, overflow_error}
use p2p_thief.Codec.Checked.{IsTurnMessage, Settles, parse_turn_message-Settles}
use p2p_thief.Codec.Built.{built, parse_turn_message-built}
use p2p_thief.Foreign.{JsonHashing, pipe_form, LiveRecord, verify_reveals}
use p2p_thief.Foreign.Clean.{IsClean}
use p2p_thief.Foreign.Reproven.{IsReproven, verify_reveals_iff}
use p2p_thief.Foreign.Steps.{step_of, by_step}
use p2p_thief.Foreign.Dispute.{unconceded_capture}
use p2p_thief.Foreign.Captures.{Judged, IsWalled, board_at, unconceded_capture-Judged}
use p2p_thief.Prelude.{contains}
use p2p_thief.Primitives.{cell_equality}
use p2p_thief.Foreign.Steps.{movement_ok}
use p2p_thief.Foreign.Moved.{IsOn, IsWalk, movement_ok_iff}
use p2p_thief.Primitives.{Cell}
use Prim.Native.String.{String}

abbrev no_numbers : String → Option ℤ
no_numbers t = none

abbrev small_cell : Json
small_cell = array (item (number (pos 0)) (item (number (pos 1)) no_items))

small_cell-IsCell : IsCell small_cell
unfolding IsCell
small_cell-IsCell = (number (pos 0), number (pos 1), refl, refl, refl)

abbrev small_message : Dict
small_message =
    built no_numbers (pos 1) police "near" "c" "noon" no_members small_cell null null null

parse_turn_message-built_example :
    (q : Dict) × (parse_turn_message no_numbers small_message ≡ ok q)
    × ((key : String) → dict_get key q ≡ dict_get key small_message)
parse_turn_message-built_example =
    parse_turn_message-built no_numbers (pos 1) police "near" "c" "noon" no_members small_cell null
      null null (omega arith) (inr small_cell-IsCell) (inl refl) (inl refl) (inl refl)

-- The step is 1e400.
abbrev endless_message : Dict
endless_message = dict_set "step" infinite small_message

parse_turn_message-Settles_example :
    Settles
      (parse_turn_message no_numbers endless_message)
      (λ q.
        (step : ℤ) × IsTurnMessage no_numbers endless_message step
        × (q ≡ normalised no_numbers endless_message step))
      (All (λ entry. IsKnown entry.0) endless_message
        × (All (HasKey endless_message) required_keys × (field "step" endless_message ≡ infinite)))
parse_turn_message-Settles_example = parse_turn_message-Settles no_numbers endless_message

endless : parse_turn_message no_numbers endless_message ≡ err overflow_error
unfolding parse_turn_message dict_set build_turn_message contains has_key dict_get
endless = refl

-- A hash that keeps the nonce.
abbrev json_text : Json → String
json_text (text t) = t
json_text _ = ""

abbrev plain_json_hashing : JsonHashing
plain_json_hashing = record {
  canonical = json_text;
  sha256_hex = λ s. s;
  str = json_text;
  stripped_lower = λ s. s;
}

abbrev small_payload : Json
small_payload = object (member "step" (number (pos 1)) (member "position" small_cell no_members))

abbrev small_reveal : Json
small_reveal = object (
    member "payload" small_payload
      (member "nonce" (text "n1") (member "commit" (text "|n1") no_members)))

abbrev live_record : LiveRecord
live_record = record { commit = "|n1"; declared = none; payload = none; nonce = none }

small_IsReproven : IsReproven plain_json_hashing pipe_form (live_record ∷ []) (small_reveal ∷ [])
unfolding IsClean
small_IsReproven = record {
  clean = (
    record {
      reveal = record { payload = small_payload; nonce = text "n1"; commit = text "|n1" };
      keys = refl;
      clean = ("|n1", refl, refl);
    },
    tt,
  );
  anchored = (inl (_, refl, refl), tt);
}

verify_reveals_iff_example :
    (after : List LiveRecord) × (verify_reveals plain_json_hashing
        (live_record ∷ [])
        (small_reveal ∷ [])
        pipe_form
      ≡ ok (verified_ok, after))
verify_reveals_iff_example =
    (verify_reveals_iff plain_json_hashing pipe_form (live_record ∷ []) (small_reveal ∷ [])).1
      small_IsReproven

-- The record after the merge, and the next step, which comes first.
abbrev merged_record : LiveRecord
merged_record = record live_record { payload = some small_payload; nonce = some (text "n1") }

abbrev next_record : LiveRecord
next_record = record live_record {
  payload =
      some (object (member "step" (number (pos 2)) (member "position" small_cell no_members)));
}

-- A wall on the cell of the rival at step 2.
unconceded_capture-Judged_example :
    Judged
      (pos 3)
      ((pos 2, (pos 0, pos 1)) ∷ [])
      ((pos 1, (pos 0, pos 1)) ∷ (pos 2, (pos 0, pos 1)) ∷ [])
      (unconceded_capture
        (next_record ∷ merged_record ∷ [])
        ((pos 2, (pos 0, pos 1)) ∷ [])
        (pos 3)
        (some ongoing))
    × ((step : ℤ) (c : Cell)
        → (contains c (board_at (pos 3) ((pos 2, (pos 0, pos 1)) ∷ []) step).barriers ≡ true)
          ↔ IsWalled ((pos 2, (pos 0, pos 1)) ∷ []) step c)
unfolding by_step step_of
unconceded_capture-Judged_example =
    unconceded_capture-Judged (pos 3) ((pos 2, (pos 0, pos 1)) ∷ [])
      (next_record ∷ merged_record ∷ []) _ ((pos 1, (pos 0, pos 1)) ∷ (pos 2, (pos 0, pos 1)) ∷ [])
      (some ongoing) refl (refl, refl, (refl, refl, tt)) refl

abbrev small_positions : List (ℤ × Cell)
small_positions = (pos 1, (pos 0, pos 1)) ∷ (pos 2, (pos 0, pos 1)) ∷ []

movement_ok_iff_example :
    ((movement_ok (next_record ∷ merged_record ∷ []) (pos 3) ≡ ok true)
      × IsOn (pos 3) small_positions
      × IsWalk small_positions)
    ⊎ ((movement_ok (next_record ∷ merged_record ∷ []) (pos 3) ≡ ok false)
        × (¬ (IsOn (pos 3) small_positions × IsWalk small_positions)))
unfolding by_step step_of
movement_ok_iff_example =
    movement_ok_iff (next_record ∷ merged_record ∷ []) (pos 3) _ small_positions refl
      (refl, refl, (refl, refl, tt))
