-- ===== src/Series.antt =====
-- src/p2p_thief/sdk/series.py: which logs of the sub-games make up a series. A log file is what its reading
-- gives; a note of exclusion is its path and the kind of its reason.
pub mod Kept
pub mod Majority
pub mod Totals
pub mod Winner
use p2p_thief.Prelude.{
  ℕ, zero, suc, ◌+◌, Bool, true, false, not, ◌&&◌, ◌||◌, ◌==◌, List, [], ◌∷◌, ◌++◌, Option, none,
  some,
}
use p2p_thief.Prelude.{
  Result, ok, err, raise_if, ◌>>=◌, ◌>>◌, settlement_error, if◌then◌else◌, text_equality, dict_get,
  dict_set, has_key, eqb, ltb, max, all,
}
use p2p_thief.Prelude.Int.{ℤ, pos, ℤ_equality}
use Prim.Native.String.{String}

-- `_parse`: what the series reads of a log, with the verdict of its audit. A declared length is one that
-- `int` reads; on any other the collection raises, which is not modelled.
pub record LogDoc : Type 0 where
  pub path : String
  pub uid : Option String
  pub sub : ℤ
  pub declared_games : Option ℤ
  pub audit : Option String

-- A file that is found, and how its reading ends.
pub data LogFile : Type 0 where
  unreadable : String → LogFile
  parsed : LogDoc → LogFile

pub data Reason : Type 0 where
  not_readable other_length other_series duplicate : Reason

abbrev pub Excluded : Type 0
Excluded = List (String × Reason)

-- The first loop of `collect_logs`: the logs that are parsed, and the notes.
abbrev pub other_declared : Option ℤ → ℤ → Bool
other_declared none expected = false
other_declared (some n) expected = not (n == expected)

unfoldable pub sift : ℤ → List LogFile → List LogDoc × Excluded
sift expected [] = ([], [])
sift expected (unreadable path ∷ files) =
    let rest = sift expected files in (rest.0, (path, not_readable) ∷ rest.1)
sift expected (parsed doc ∷ files) =
    let rest = sift expected files in
    if other_declared doc.declared_games expected
    then (rest.0, (doc.path, other_length) ∷ rest.1)
    else (doc ∷ rest.0, rest.1)

-- The counts of `_consensus_uid`: an empty uid does not count.
abbrev pub or_zero : Option ℕ → ℕ
or_zero none = 0
or_zero (some n) = n

abbrev pub count_uid : Option String → List (String × ℕ) → List (String × ℕ)
count_uid none counts = counts
count_uid (some uid) counts =
    if uid == "" then counts else dict_set uid (or_zero (dict_get uid counts) + 1) counts

abbrev pub count_uids : List LogDoc → List (String × ℕ) → List (String × ℕ)
count_uids [] counts = counts
count_uids (doc ∷ docs) counts = count_uids docs (count_uid doc.uid counts)

abbrev pub most : List (String × ℕ) → ℕ
most [] = 0
most ((uid, n) ∷ counts) = max n (most counts)

abbrev pub leaders : ℕ → List (String × ℕ) → List String
leaders best [] = []
leaders best ((uid, n) ∷ counts) =
    let rest = leaders best counts in if eqb n best then uid ∷ rest else rest

-- One leader, or the refusal.
abbrev pub only_leader : List String → Result String
only_leader (uid ∷ []) = ok uid
only_leader _ = err settlement_error

unfoldable pub consensus_uid : List LogDoc → Result String
consensus_uid docs = let counts = count_uids docs [] in only_leader (leaders (most counts) counts)

abbrev pub same_uid : Option String → String → Bool
same_uid none uid = false
same_uid (some u) uid = u == uid

-- The last loop of `collect_logs`: the slots, and the notes.
unfoldable pub fill_slots :
    String → List LogDoc → List (ℤ × LogDoc) → Excluded → List (ℤ × LogDoc) × Excluded
fill_slots uid [] slots excluded = (slots, excluded)
fill_slots uid (doc ∷ docs) slots excluded =
    let skip_series = fill_slots uid docs slots (excluded ++ ((doc.path, other_series) ∷ [])) in
    let skip_duplicate = fill_slots uid docs slots (excluded ++ ((doc.path, duplicate) ∷ [])) in
    let keep = fill_slots uid docs (dict_set doc.sub doc slots) excluded in
    if not (same_uid doc.uid uid)
    then skip_series
    else if has_key doc.sub slots
    then skip_duplicate
    else keep

unfoldable pub collect_logs : List LogFile → ℤ → Result (List (ℤ × LogDoc) × Excluded × String)
collect_logs files expected =
    let sifted = sift expected files in
    consensus_uid sifted.0 >>= λ uid.
    let filled = fill_slots uid sifted.0 [] sifted.1 in ok (filled.0, filled.1, uid)

-- `require_settled`: the sub-games 1, ..., n.
abbrev pub is_settled : List (ℤ × LogDoc) → ℤ → Bool
is_settled slots n = elim (dict_get n slots) [
  | none ↦ false
  | some doc ↦ elim doc.audit [ none ↦ false | some verdict ↦ verdict == "Verified OK" ]
]

abbrev pub all_settled : List (ℤ × LogDoc) → ℕ → Bool
all_settled slots zero = true
all_settled slots (suc n) = all_settled slots n && is_settled slots (pos (suc n))

unfoldable pub require_settled : List (ℤ × LogDoc) → ℕ → Result (Unit {0})
require_settled slots expected = raise_if (not (all_settled slots expected)) settlement_error
