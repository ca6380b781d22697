-- ===== src/Tests/Wire.antt =====
-- Runs of the commitments and of the sealed exchange.
use p2p_thief.Prelude.{
  true, ◌≡◌, refl, List, [], ◌∷◌, none, some, arith, ok, dict_get, contains, has_key,
}
use p2p_thief.Prelude.{text_equality}
use p2p_thief.Prelude.Int.{ℤ, pos}
use p2p_thief.Primitives.{police, thief}
use p2p_thief.Json.{Dict, text}
use p2p_thief.Crypto.{
  Hashing, RivalRecord, verified_ok, audit_records, commit_hash, build_step_payload,
}
use p2p_thief.Crypto.Audit.{Opens, audit_records_iff}
use p2p_thief.Sealing.{Message, SealedExchange, got, next, is_conflict}
use p2p_thief.Sealing.Records.{
  commit_message, reveal_message, apply_revealed_verdicts, audit_theirs, own_verdicts, own_nonces,
}
use p2p_thief.Sealing.Receiver.{IsValid}
use p2p_thief.Sealing.Waiting.{Ends, next_fate}
use p2p_thief.Sealing.Delivery.{next_delivers}
use p2p_thief.Sealing.Honest.{HalfTurn}
use p2p_thief.Sealing.Relay.{relay, relay-verified}
use Prim.Native.String.{String}

-- A hash that keeps its whole input, of a text that keeps the action.
abbrev action_text : Dict → String
action_text p = elim (dict_get "action" p) [ some (text s) ↦ s | _ ↦ "" ]

abbrev plain_hashing : Hashing
plain_hashing = record { canonical = action_text; sha256_hex = λ s. s }

abbrev small_payload : Dict
small_payload = build_step_payload (pos 1) "police" (pos 1) "d" (text "NORTH") "near" true

abbrev small_record : RivalRecord
small_record = record {
  payload = some small_payload;
  commit = "NORTH|n1";
  nonce = none;
  declared = none;
}

small_record-Opens : Opens plain_hashing small_record "n1"
unfolding commit_hash build_step_payload has_key dict_get
small_record-Opens = record { payload = small_payload; revealed = refl; hashed = refl }

audit_records_iff_example :
    audit_records plain_hashing (small_record ∷ []) ("n1" ∷ []) ≡ verified_ok
audit_records_iff_example =
    (audit_records_iff plain_hashing (small_record ∷ []) ("n1" ∷ [])).0.1 (small_record-Opens, tt)

-- A rival that has already heard the commit of turn 1.
abbrev waiting_thief : SealedExchange
waiting_thief = record {
  role = thief;
  sub_game = pos 1;
  pending_cap = pos 8;
  own_records = [];
  their_records = [];
  consumed = ("commit", pos 1) ∷ [];
  pending = [];
}

abbrev late_commit : Message
late_commit = commit_message (pos 1) "police" "NORTH|n1"

abbrev early_commit : Message
early_commit = commit_message (pos 3) "police" "SOUTH|n3"

abbrev small_reveal : Message
small_reveal = reveal_message (pos 1) "police" small_payload

waiting_thief-IsValid : IsValid waiting_thief
unfolding dict_get
waiting_thief-IsValid = record {
  room = omega arith;
  floor = omega arith;
  keyed = λ k m e. cc;
  readable = λ k m e. cc;
}

abbrev small_stream : List Message
small_stream = late_commit ∷ early_commit ∷ small_reveal ∷ []

next_fate_example :
    Ends waiting_thief
      ("reveal", pos 1)
      small_stream
      (next waiting_thief "reveal" (pos 1) small_stream)
next_fate_example = next_fate waiting_thief "reveal" (pos 1) small_stream waiting_thief-IsValid

next_delivers_example :
    (y : SealedExchange) × (rest : List Message) × (next waiting_thief "reveal" (pos 1) small_stream
      ≡ got small_reveal y rest)
unfolding contains is_conflict dict_get
next_delivers_example =
    next_delivers waiting_thief "reveal" (pos 1) small_stream small_reveal waiting_thief-IsValid
      refl (omega arith) refl refl

abbrev fresh_police : SealedExchange
fresh_police = record {
  role = police;
  sub_game = pos 1;
  pending_cap = pos 8;
  own_records = [];
  their_records = [];
  consumed = [];
  pending = [];
}

abbrev fresh_thief : SealedExchange
fresh_thief = record fresh_police { role = thief }

abbrev half_turn : ℤ → String → String → HalfTurn
half_turn t n a = record {
  turn = t;
  nonce = n;
  digest = "d";
  action = text a;
  hint = "near";
  verdict = true;
}

abbrev small_match : List HalfTurn
small_match = half_turn (pos 1) "n1" "NORTH" ∷ half_turn (pos 3) "n3" "STAY" ∷ []

relay-verified_example :
    (t q z : SealedExchange) × (relay plain_hashing fresh_police fresh_thief small_match
      ≡ ok (t, q))
    × (apply_revealed_verdicts q (own_verdicts t) ≡ ok z)
    × ((audit_theirs plain_hashing z (own_nonces t)).1 ≡ verified_ok)
unfolding contains
relay-verified_example =
    relay-verified plain_hashing fresh_police fresh_thief small_match refl refl refl refl refl
