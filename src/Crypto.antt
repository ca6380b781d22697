-- ===== src/Crypto.antt =====
-- src/p2p_thief/domain/crypto.py: commitments and the end-of-game audit. The serialization of
-- `json.dumps` and SHA-256 are parameters.
pub mod Audit
use p2p_thief.Prelude.{
  Bool, true, false, not, ◌&&◌, ◌≡◌, List, [], ◌∷◌, Option, none, some, all, ◌==◌,
}
use p2p_thief.Prelude.{
  Result, ok, err, raise_if, ◌>>=◌, ◌>>◌, value_error, has_key, dict_get, if◌then◌else◌,
}
use p2p_thief.Prelude.{length, eqb, text_equality}
use p2p_thief.Prelude.Int.{ℤ}
use p2p_thief.Json.{Json, Dict, number, text, boolean}
use Prim.Native.String.{String, ◌++◌ as ◌<>◌}

-- `canonical`, which is `json.dumps` with sorted keys, and the digest of `hashlib`.
pub record Hashing : Type 0 where
  pub canonical : Dict → String
  pub sha256_hex : String → String

abbrev pub required_record_fields : List String
required_record_fields =
    "step" ∷ "role" ∷ "sub_game" ∷ "state_digest" ∷ "action" ∷ "hint" ∷ "verdict" ∷ []

unfoldable pub build_step_payload : ℤ → String → ℤ → String → Json → String → Bool → Dict
build_step_payload step role sub_game state_digest action hint verdict =
    ("step", number step)
    ∷ ("role", text role)
    ∷ ("sub_game", number sub_game)
    ∷ ("state_digest", text state_digest)
    ∷ ("action", action)
    ∷ ("hint", text hint)
    ∷ ("verdict", boolean verdict)
    ∷ []

-- A record of the rival, as the two exchanges store it: the payload may be missing, the nonce is set by
-- the audit, and the hidden wire keeps the public declarations beside the commit.
pub record RivalRecord : Type 0 where
  pub payload : Option Dict
  pub commit : String
  pub nonce : Option String
  pub declared : Option Dict

pub data Verdict : Type 0 where
  verified_ok tampered : Verdict

module _ (H : Hashing) where
  abbrev pub material : Dict → String → String
  material payload nonce = H.canonical payload <> "|" <> nonce

  unfoldable pub commit_hash : Dict → String → Result String
  commit_hash payload nonce = do
    raise_if
        (not (has_key "type" payload) && not (all (λ f. has_key f payload) required_record_fields))
        value_error
    ok (H.sha256_hex (material payload nonce))

  unfoldable pub verify_commit : Dict → String → String → Result Bool
  verify_commit payload nonce expected_hash = do
    h ← commit_hash payload nonce
    ok (h == expected_hash)

  -- The body of the audit's loop: an exception in it is a failed audit.
  unfoldable pub verify_record : RivalRecord → String → Bool
  verify_record r nonce = elim r.payload [
    | none ↦ false
    | some payload ↦ elim (verify_commit payload nonce r.commit) [ err _ ↦ false | ok b ↦ b ]
  ]

  -- The loop over the records and their nonces, which are equally many.
  unfoldable pub audit_loop : List RivalRecord → List String → Verdict
  audit_loop (r ∷ rs) (n ∷ ns) =
      let rest = audit_loop rs ns in if not (verify_record r n) then tampered else rest
  audit_loop _ _ = verified_ok

  unfoldable pub audit_records : List RivalRecord → List String → Verdict
  audit_records their_records revealed_nonces =
      if not (eqb (length their_records) (length revealed_nonces))
      then tampered
      else audit_loop their_records revealed_nonces
