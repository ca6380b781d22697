-- ===== src/Codec.antt =====
-- src/p2p_thief/wire/codec.py: the one message of a half-turn, built and validated. The time stamp is an
-- argument, and `int` of a text is a parameter.
pub mod Accepts
pub mod Checked
pub mod Built
use p2p_thief.Prelude.{
  Bool, true, false, not, ◌&&◌, ◌||◌, ◌==◌, List, [], ◌∷◌, ◌++◌, Option, none, some, any, map,
}
use p2p_thief.Prelude.{
  Result, ok, err, raise_if, ◌>>=◌, ◌>>◌, game_rule_error, overflow_error, has_key, dict_get,
  contains, text_equality, if◌then◌else◌,
}
use p2p_thief.Prelude.Int.{ℤ, pos, ltb_ℤ}
use p2p_thief.Primitives.{Role, police, thief}
use p2p_thief.Json.{
  Json, Dict, Items, Members, null, boolean, number, decimal, text, array, object, no_items, item,
  is_int, is_infinite, is_text, is_object, field, or_null, member_get,
}
use Prim.Native.String.{String}

abbrev pub required_keys : List String
required_keys = "step" ∷ "sender" ∷ "hint" ∷ "smell_grid" ∷ "commit" ∷ "timestamp" ∷ []

abbrev pub optional_keys : List String
optional_keys = "barrier_placed" ∷ "capture_claim" ∷ "claim_response" ∷ "win_claim" ∷ []

abbrev pub final_caught_hint : String
final_caught_hint = "You got me — fair catch."

-- The keyword arguments default to `null`.
unfoldable pub build_turn_message :
    ℤ
    → String
    → String
    → Members
    → String
    → String
    → (barrier_placed capture_claim claim_response win_claim : Json) → Dict
build_turn_message step sender hint smell_grid commit timestamp barrier_placed capture_claim
      claim_response win_claim =
    ("step", number step)
    ∷ ("sender", text sender)
    ∷ ("hint", text hint)
    ∷ ("smell_grid", object smell_grid)
    ∷ ("commit", text commit)
    ∷ ("timestamp", text timestamp)
    ∷ ("barrier_placed", barrier_placed)
    ∷ ("capture_claim", capture_claim)
    ∷ ("claim_response", claim_response)
    ∷ ("win_claim", win_claim)
    ∷ []

abbrev pub is_null : Json → Bool
is_null null = true
is_null _ = false

-- The test of `_require_cell`.
abbrev pub is_cell : Json → Bool
is_cell (array (item a (item b no_items))) = is_int a && is_int b
is_cell _ = false

-- The tests on the response to a claim, on the claim of a win, and `Role(value)`.
abbrev pub is_response : Json → Bool
is_response (object m) =
    (elim (member_get "caught" m) [ none ↦ false | some _ ↦ true ])
    && is_cell (or_null (member_get "claim" m))
is_response _ = false

abbrev pub is_win : Json → Bool
is_win (object m) = is_text (or_null (member_get "type" m))
is_win _ = false

abbrev pub is_role : Json → Bool
is_role (text t) = t == "police" || t == "thief"
is_role _ = false

abbrev pub is_unknown : String → Bool
is_unknown key = not (contains key required_keys || contains key optional_keys)

module _ (int_of_text : String → Option ℤ) where
  -- `int(value)`, where it gives an integer: of an infinite float it raises OverflowError, and else
  -- ValueError or TypeError.
  abbrev pub int_of : Json → Option ℤ
  int_of (number n) = some n
  int_of (boolean b) = some (if b then pos 1 else pos 0)
  int_of (decimal n f) = some n
  int_of (text t) = int_of_text t
  int_of _ = none

  -- The `try` of the parser, which does not catch OverflowError.
  abbrev pub read_int : Json → Result ℤ
  read_int v =
      if is_infinite v
      then err overflow_error
      else elim (int_of v) [ none ↦ err game_rule_error | some n ↦ ok n ]

  -- The returned dictionary: the optional keys, `None` where they are missing, then the others.
  abbrev pub normalised : Dict → ℤ → Dict
  normalised p step =
      map (λ key. (key, field key p)) optional_keys
      ++ (("step", number step)
          ∷ ("sender", field "sender" p)
          ∷ ("hint", field "hint" p)
          ∷ ("smell_grid", field "smell_grid" p)
          ∷ ("commit", field "commit" p)
          ∷ ("timestamp", field "timestamp" p)
          ∷ [])

  abbrev pub require_optional : (Json → Bool) → Json → Result (Unit {0})
  require_optional test v = raise_if (not (is_null v) && not (test v)) game_rule_error

  -- The keys that are read after the test on the missing ones are there.
  unfoldable pub parse_turn_message : Dict → Result Dict
  parse_turn_message p = do
    raise_if (any (λ entry. is_unknown entry.0) p) game_rule_error
    raise_if (any (λ key. not (has_key key p)) required_keys) game_rule_error
    step ← read_int (field "step" p)
    raise_if (not (is_role (field "sender" p))) game_rule_error
    raise_if (ltb_ℤ step (pos 1)) game_rule_error
    raise_if (not (is_text (field "hint" p)) || not (is_text (field "commit" p))) game_rule_error
    raise_if (not (is_object (field "smell_grid" p))) game_rule_error
    require_optional is_cell (field "barrier_placed" p)
    require_optional is_cell (field "capture_claim" p)
    require_optional is_response (field "claim_response" p)
    require_optional is_win (field "win_claim" p)
    ok (normalised p step)
