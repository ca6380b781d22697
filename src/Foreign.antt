-- ===== src/Foreign.antt =====
-- src/p2p_thief/wire/audit_foreign.py: the audit of a rival whose payloads have a schema of its own. The
-- text that Python makes of a value, the serialization of `json.dumps` and SHA-256 are parameters.
pub mod Clean
pub mod Index
pub mod Reproven
pub mod Steps
pub mod Counted
pub mod Captures
pub mod Moved
pub mod Dispute
use p2p_thief.Prelude.{
  Bool, true, false, not, ◌&&◌, ◌||◌, ◌==◌, ◌≡◌, List, [], ◌∷◌, Option, none, some, all, map,
}
use p2p_thief.Prelude.{
  Result, ok, err, raise_if, ◌>>=◌, ◌>>◌, type_error, attribute_error, dict_get, dict_set,
  text_equality, if◌then◌else◌,
}
use p2p_thief.Prelude.Int.{ℤ}
use p2p_thief.Json.{
  Json, Dict, Items, Members, null, boolean, number, decimal, text, array, object, no_members,
  member, is_object, member_get, or_null,
}
use p2p_thief.Crypto.{Verdict, verified_ok, tampered, required_record_fields}
use Prim.Native.String.{String, ◌++◌ as ◌<>◌}

pub record JsonHashing : Type 0 where
  pub canonical : Json → String
  pub sha256_hex : String → String
  -- `str(value)`
  pub str : Json → String
  -- `label.strip().lower()`
  pub stripped_lower : String → String

-- The two registered constructions of a commitment.
pub data Form : Type 0 where
  pipe_form merged_form : Form

-- A record of `their_records`: a live commit with its declarations, until the audit adds the rest.
pub record LiveRecord : Type 0 where
  pub commit : String
  pub declared : Option Dict
  pub payload : Option Json
  pub nonce : Option Json

-- `{**payload, key: value}`
abbrev pub member_set : String → Json → Members → Members
member_set key value no_members = member key value no_members
member_set key value (member name v rest) =
    if name == key then member name value rest else member name v (member_set key value rest)

-- A revealed record that has the three keys.
pub record Reveal : Type 0 where
  pub payload : Json
  pub nonce : Json
  pub commit : Json

abbrev pub three_keys : Option Json → Option Json → Option Json → Option Reveal
three_keys (some p) (some n) (some c) = some (record { payload = p; nonce = n; commit = c })
three_keys _ _ _ = none

abbrev pub read_reveal : Json → Option Reveal
read_reveal (object m) =
    three_keys (member_get "payload" m) (member_get "nonce" m) (member_get "commit" m)
read_reveal _ = none

-- `record.get("payload", {}).get("step")`, where a value that is no mapping has no `get`.
abbrev pub payload_step : Option Json → Result Json
payload_step none = ok null
payload_step (some (object m)) = ok (or_null (member_get "step" m))
payload_step (some _) = err attribute_error

-- What the warning of a refused record reads.
abbrev pub logged_step : Json → Result Json
logged_step (object m) = payload_step (member_get "payload" m)
logged_step _ = ok null

-- `hexdigest() == announced`
abbrev pub announces : Json → String → Bool
announces (text t) digest = t == digest
announces _ digest = false

-- `by_commit`, the last of equal commits: a clean reveal has a text for its commit.
abbrev pub set_under : Json → Reveal → List (String × Reveal) → List (String × Reveal)
set_under (text c) r found = dict_set c r found
set_under _ r found = found

abbrev pub with_commit : Option Reveal → List (String × Reveal) → List (String × Reveal)
with_commit none found = found
with_commit (some r) found = set_under r.commit r found

abbrev pub index_reveals : List Json → List (String × Reveal) → List (String × Reveal)
index_reveals [] found = found
index_reveals (r ∷ rs) found = index_reveals rs (with_commit (read_reveal r) found)

-- The second loop, which fills in the live records that it has passed.
unfoldable pub merge_reveals : List (String × Reveal) → List LiveRecord → Verdict × List LiveRecord
merge_reveals by_commit [] = (verified_ok, [])
merge_reveals by_commit (live ∷ lives) =
    let rest = merge_reveals by_commit lives in
    elim (dict_get live.commit by_commit) [
      | none ↦ (tampered, live ∷ lives)
      | some full ↦
          (rest.0, record live { payload = some full.payload; nonce = some full.nonce } ∷ rest.1)
    ]

module _ (H : JsonHashing) where
  unfoldable pub declared_form : Option Members → Form
  declared_form info =
      let label = H.stripped_lower (elim info [
        | none ↦ ""
        | some m ↦ elim (member_get "commit_form" m) [ none ↦ "" | some v ↦ H.str v ]
      ]) in
      if label == "merged_nonce_v1" || label == "nonce_in_payload" then merged_form else pipe_form

  -- What is hashed; a payload that is no mapping cannot be merged with a nonce.
  abbrev pub material : Form → Reveal → Option String
  material pipe_form r = some (H.canonical r.payload <> "|" <> H.str r.nonce)
  material merged_form r = elim r.payload [
    | object m ↦ some (H.canonical (object (member_set "nonce" r.nonce m)))
    | _ ↦ none
  ]

  abbrev pub reveal_clean : Form → Reveal → Bool
  reveal_clean form r = elim (material form r) [
    | none ↦ false
    | some hashed ↦ announces r.commit (H.sha256_hex hashed)
  ]

  unfoldable pub commit_clean : Form → Json → Bool
  commit_clean form r = elim (read_reveal r) [ none ↦ false | some v ↦ reveal_clean form v ]

  -- The first loop: whether every reveal is clean.
  unfoldable pub all_clean : Form → List Json → Result Bool
  all_clean form [] = ok true
  all_clean form (r ∷ rs) =
      let rest = all_clean form rs in
      if commit_clean form r then rest else (logged_step r >>= λ _. ok false)

  -- The verdict, and the live records after.
  unfoldable pub verify_reveals :
      List LiveRecord → List Json → Form → Result (Verdict × List LiveRecord)
  verify_reveals live revealed form = do
    clean ← all_clean form revealed
    ok (if clean then merge_reveals (index_reveals revealed []) live else (tampered, live))

-- `payload.get("role") in roles`: a value with no hash cannot be looked up in a set.
abbrev pub role_in_roles : Json → Result Bool
role_in_roles (text t) = ok (t == "police" || t == "thief")
role_in_roles (array v) = err type_error
role_in_roles (object v) = err type_error
role_in_roles _ = ok false

abbrev pub has_member : Members → String → Bool
has_member m key = elim (member_get key m) [ none ↦ false | some _ ↦ true ]

-- The test on one payload, in the order of the source.
unfoldable pub payload_is_ours : Option Json → Result Bool
payload_is_ours (some (object m)) =
    if all (has_member m) required_record_fields
    then (do
      named ← role_in_roles (or_null (member_get "role" m))
      ok (named && is_object (or_null (member_get "action" m))))
    else ok false
payload_is_ours _ = ok false

abbrev pub all_ours : List LiveRecord → Result Bool
all_ours [] = ok true
all_ours (r ∷ rs) =
    let rest = all_ours rs in payload_is_ours r.payload >>= λ ours. if ours then rest else ok false

unfoldable pub parses_as_ours : List LiveRecord → Result Bool
parses_as_ours [] = ok false
parses_as_ours (r ∷ rs) = all_ours (r ∷ rs)
