-- ===== src/Sealing/Records.antt =====
-- src/p2p_thief/peer/sealing.py: the half-turns of one peer and the audit of the other's records.
-- The nonce, which `secrets` draws, and the digest of the engine's state are arguments.
use p2p_thief.Prelude.{Bool, not, ◌||◌, List, [], ◌∷◌, ◌++◌, none, some, ◌==◌, map, all}
use p2p_thief.Prelude.{
  Result, ok, err, ◌>>=◌, game_rule_error, key_error, if◌then◌else◌, eqb, length,
}
use p2p_thief.Prelude.{has_key, dict_get, dict_set, without, text_equality}
use p2p_thief.Prelude.Int.{ℤ}
use p2p_thief.Json.{Json, Dict}
use p2p_thief.Crypto.{
  Hashing, RivalRecord, Verdict, build_step_payload, commit_hash, audit_records,
  required_record_fields,
}
use p2p_thief.Sealing.{
  Message, SealedExchange, OwnRecord, Wait, got, failed, expired, spent, next, role_value,
  same_text,
}
use Prim.Native.String.{String}

abbrev pub commit_message : ℤ → String → String → Message
commit_message turn_index actor sealed = record {
  kind = "commit";
  unreadable = none;
  turn = turn_index;
  actor = some actor;
  commit = some sealed;
  payload = none;
}

abbrev pub reveal_message : ℤ → String → Dict → Message
reveal_message turn_index actor public = record {
  kind = "reveal";
  unreadable = none;
  turn = turn_index;
  actor = some actor;
  commit = none;
  payload = some public;
}

-- The two messages in the order they are sent, and the exchange after.
unfoldable pub send_sealed :
    Hashing
    → SealedExchange
    → ℤ
    → String
    → String
    → Json
    → String
    → Bool
    → Result (List Message × SealedExchange)
send_sealed H x turn_index nonce state_digest action hint verdict =
    let actor = role_value x.role in
    let payload = build_step_payload turn_index actor x.sub_game state_digest action hint verdict in
    do
      sealed ← commit_hash H payload nonce
      ok (
        commit_message turn_index actor sealed
            ∷ reveal_message turn_index actor (without "verdict" payload)
            ∷ [],
        record x {
          own_records =
              x.own_records ++ (record { payload = payload; nonce = nonce; commit = sealed } ∷ []);
        },
      )

-- The fields the reveal must have: all but the verdict.
abbrev pub is_complete : Dict → Bool
is_complete payload = all (λ f. f == "verdict" || has_key f payload) required_record_fields

-- What follows the second wait of `receive_sealed`.
unfoldable pub store_reveal : Message → Message → SealedExchange → List Message → Wait Dict
store_reveal commit_msg reveal_msg z rest =
    let payload : Dict = elim reveal_msg.payload [ some p ↦ p | none ↦ [] ] in
    if not (is_complete payload) then failed game_rule_error else elim commit_msg.commit [
      | none ↦ failed key_error
      | some c ↦
          got payload
            (record z {
              their_records =
                  z.their_records
                  ++ (record { payload = some payload; commit = c; nonce = none; declared = none }
                      ∷ []);
            })
            rest
    ]

unfoldable pub receive_sealed : SealedExchange → ℤ → List Message → Wait Dict
receive_sealed x turn_index stream = elim (next x "commit" turn_index stream) [
  | got commit_msg y rest ↦
      if same_text commit_msg.actor (role_value y.role)
      then failed game_rule_error
      else elim (next y "reveal" turn_index rest) [
        | got reveal_msg z left ↦ store_reveal commit_msg reveal_msg z left
        | failed e ↦ failed e
        | expired z ↦ expired z
        | spent ↦ spent
      ]
  | failed e ↦ failed e
  | expired y ↦ expired y
  | spent ↦ spent
]

unfoldable pub own_nonces : SealedExchange → List String
own_nonces x = map (λ r. r.nonce) x.own_records

abbrev pub verdicts_of : List OwnRecord → List Json
verdicts_of [] = []
verdicts_of (r ∷ rs) = elim (dict_get "verdict" r.payload) [
  | some v ↦ v ∷ verdicts_of rs
  | none ↦ verdicts_of rs
]

unfoldable pub own_verdicts : SealedExchange → List Json
own_verdicts x = verdicts_of x.own_records

-- `for record, nonce in zip(...)`, where the two are equally many.
abbrev pub with_nonces : List RivalRecord → List String → List RivalRecord
with_nonces (r ∷ rs) (n ∷ ns) = record r { nonce = some n } ∷ with_nonces rs ns
with_nonces rs _ = rs

unfoldable pub audit_theirs : Hashing → SealedExchange → List String → SealedExchange × Verdict
audit_theirs H x revealed_nonces =
    let their =
      if eqb (length revealed_nonces) (length x.their_records)
      then with_nonces x.their_records revealed_nonces
      else x.their_records in
    (record x { their_records = their }, audit_records H their revealed_nonces)

-- A record without a payload raises; `receive_sealed` stores none.
abbrev pub with_verdicts : List RivalRecord → List Json → Result (List RivalRecord)
with_verdicts (r ∷ rs) (v ∷ vs) = elim r.payload [
  | none ↦ err key_error
  | some p ↦ with_verdicts rs vs >>= λ rest.
      ok (record r { payload = some (dict_set "verdict" v p) } ∷ rest)
]
with_verdicts rs _ = ok rs

unfoldable pub apply_revealed_verdicts : SealedExchange → List Json → Result SealedExchange
apply_revealed_verdicts x verdicts =
    if eqb (length verdicts) (length x.their_records)
    then (with_verdicts x.their_records verdicts >>= λ their.
        ok (record x { their_records = their }))
    else ok x
