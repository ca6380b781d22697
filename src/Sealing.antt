-- ===== src/Sealing.antt =====
-- src/p2p_thief/peer/sealing.py: the commit-reveal flow of one peer. What the transport delivers
-- before the deadline of an expectation is a list of messages.
pub mod Receiver
pub mod Waiting
pub mod Delivery
pub mod Records
pub mod Honest
pub mod Relay
use p2p_thief.Prelude.{
  ℕ, zero, suc, ◌+◌, Bool, true, false, not, ◌&&◌, ◌||◌, ◌≡◌, ◌↔◌, List, [], ◌∷◌, ◌++◌,
}
use p2p_thief.Prelude.{
  Option, none, some, ◌==◌, Equality, contains, length, map, all, arith, text_equality,
}
use p2p_thief.Prelude.{
  Result, ok, err, Error, raise_if, ◌>>=◌, ◌>>◌, game_rule_error, value_error, key_error,
}
use p2p_thief.Prelude.{has_key, dict_get, dict_set, without, if◌then◌else◌, eqb}
use p2p_thief.Prelude.Int.{ℤ, pos, ℤ_equality, leb_ℤ, ltb_ℤ}
use p2p_thief.Primitives.{Role, police, thief}
use p2p_thief.Json.{Json, Dict, number, text, boolean, equals_int}
use p2p_thief.Crypto.{Hashing, RivalRecord, Verdict, build_step_payload, commit_hash, audit_records}
use p2p_thief.Crypto.{required_record_fields}
use Prim.Native.String.{String}

-- `Role.value`
abbrev pub role_value : Role → String
role_value police = "police"
role_value thief = "thief"

-- What the receiver reads of a message: its key, as `str(kind)` and `int(turn)` give it, and the
-- fields of the three kinds of message. Where `int` raises, `unreadable` has its exception, and the turn
-- is not read.
pub record Message : Type 0 where
  pub unreadable : Option Error
  pub kind : String
  pub turn : ℤ
  pub actor : Option String
  pub commit : Option String
  pub payload : Option Dict

abbrev pub Key : Type 0
Key = String × ℤ

abbrev pub eqb_key : Key → Key → Bool
eqb_key a b = a.0 == b.0 && a.1 == b.1

pub eqb_key_iff : (a b : Key) → (eqb_key a b ≡ true) ↔ (a ≡ b)
eqb_key_iff a b = (
  ground (arith, text_equality.test_iff a.0 b.0, ℤ_equality.test_iff a.1 b.1),
  ground (arith, text_equality.test_iff a.0 b.0, ℤ_equality.test_iff a.1 b.1),
)

instance abbrev pub key_equality : Equality Key
key_equality = record { test = eqb_key; test_iff = eqb_key_iff }

abbrev pub key_of : Message → Key
key_of m = (m.kind, m.turn)

pub record OwnRecord : Type 0 where
  pub payload : Dict
  pub nonce : String
  pub commit : String

abbrev pub min_pending_cap : ℕ
min_pending_cap = 4

pub record SealedExchange : Type 0 where
  pub role : Role
  pub sub_game : ℤ
  pub pending_cap : ℤ
  pub own_records : List OwnRecord
  pub their_records : List RivalRecord
  pub consumed : List Key
  pub pending : List (Key × Message)

unfoldable pub new : Role → ℤ → ℤ → Result SealedExchange
new role sub_game pending_cap = do
  raise_if (ltb_ℤ pending_cap (pos min_pending_cap)) value_error
  ok (record {
    role = role;
    sub_game = sub_game;
    pending_cap = pending_cap;
    own_records = [];
    their_records = [];
    consumed = [];
    pending = [];
  })

-- `r.get("payload", {}).get("step") == step`
abbrev pub seals_step : ℤ → RivalRecord → Bool
seals_step step r = elim r.payload [
  | none ↦ false
  | some p ↦ elim (dict_get "step" p) [ none ↦ false | some v ↦ equals_int v step ]
]

abbrev pub find_record : ℤ → List RivalRecord → Option RivalRecord
find_record step [] = none
find_record step (r ∷ rs) = if seals_step step r then some r else find_record step rs

abbrev pub same_text : Option String → String → Bool
same_text none t = false
same_text (some s) t = s == t

-- A second commit for a played step that is not the stored one.
unfoldable pub is_conflict : SealedExchange → Message → Bool
is_conflict x m = m.kind == "commit" && (elim (find_record m.turn x.their_records) [
  | none ↦ false
  | some stored ↦ not (same_text m.commit stored.commit)
])

-- What one pass of the loop does with a message: first with one whose key could be read.
pub data Pass : Type 0 where
  returned : SealedExchange → Pass
  continues : SealedExchange → Pass
  raised : Error → Pass

unfoldable pub take_keyed : SealedExchange → Key → Message → Pass
take_keyed x expected m =
    if contains (key_of m) x.consumed
    then (if is_conflict x m then raised game_rule_error else continues x)
    else if key_of m == expected
    then returned (record x { consumed = key_of m ∷ x.consumed })
    else if leb_ℤ x.pending_cap (pos (length x.pending))
    then raised game_rule_error
    else continues (record x { pending = dict_set (key_of m) m x.pending })

unfoldable pub take_message : SealedExchange → Key → Message → Pass
take_message x expected m = elim m.unreadable [ some e ↦ raised e | none ↦ take_keyed x expected m ]

-- How a wait ends: with a value and the messages not yet read, by an exception, by the deadline, or
-- with the model's fuel spent.
pub data Wait (A : Type 0) : Type 0 where
  got : A → SealedExchange → List Message → Wait A
  failed : Error → Wait A
  expired : SealedExchange → Wait A
  spent : Wait A

-- The loop of `_next`: a buffered message is read before the transport.
unfoldable pub next_loop : ℕ → SealedExchange → Key → List Message → Wait Message
next_loop zero x expected stream = spent
next_loop (suc fuel) x expected stream = elim (dict_get expected x.pending) [
  | some m ↦ elim (take_message (record x { pending = without expected x.pending }) expected m) [
    | returned y ↦ got m y stream
    | continues y ↦ next_loop fuel y expected stream
    | raised e ↦ failed e
  ]
  | none ↦ elim stream [
    | [] ↦ expired x
    | m ∷ rest ↦ elim (take_message x expected m) [
      | returned y ↦ got m y rest
      | continues y ↦ next_loop fuel y expected rest
      | raised e ↦ failed e
    ]
  ]
]

-- Each pass reads one delivery, but for one pass that reads the buffer.
unfoldable pub next : SealedExchange → String → ℤ → List Message → Wait Message
next x kind turn_index stream = next_loop (suc (length stream + 1)) x (kind, turn_index) stream
