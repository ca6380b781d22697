-- ===== src/Ledger.antt =====
-- src/p2p_thief/sdk/counted_ledger.py: at most one counted series against a rival. The files are a map from
-- paths to what they hold.
pub mod Laws
use p2p_thief.Prelude.{
  Bool, true, false, not, ◌&&◌, ◌≡◌, ◌≢◌, refl, sym, ◌∙◌, ap, ◌==◌, ==_iff, ==_refl, ==_ne, List,
  [], ◌∷◌, Option, none, some, Bool-cases, inl, inr, arith,
}
use p2p_thief.Prelude.{
  Result, ok, err, raise_if, settlement_error, if◌then◌else◌, text_equality, dict_get, dict_set,
  dict_get-set,
}
use Prim.Native.String.{String, ◌++◌ as ◌<>◌}

pub record CountedSeries : Type 0 where
  pub game_uid : String
  pub message_id : String
  pub reported_at : String

abbrev pub LedgerDoc : Type 0
LedgerDoc = List (String × CountedSeries)

abbrev pub Files : Type 0
Files = List (String × LedgerDoc)

abbrev pub ledger_path : String → String
ledger_path dir = dir <> "/counted_series.json"

-- The committed path of each directory first, its local copy second.
unfoldable pub read_paths : List String → List String
read_paths [] = []
read_paths (dir ∷ dirs) = ledger_path dir ∷ ledger_path (dir <> "/local") ∷ read_paths dirs

abbrev pub entry_of : Option LedgerDoc → String → Option CountedSeries
entry_of none game_id = none
entry_of (some ledger) game_id = dict_get game_id ledger

abbrev pub first_entry : Option CountedSeries → Option CountedSeries → Option CountedSeries
first_entry none later = later
first_entry (some e) later = some e

-- The loop of `_prior`.
unfoldable pub prior_in : Files → List String → String → Option CountedSeries
prior_in files [] game_id = none
prior_in files (path ∷ paths) game_id =
    first_entry (entry_of (dict_get path files) game_id) (prior_in files paths game_id)

unfoldable pub prior : Files → List String → String → Option CountedSeries
prior files dirs game_id = prior_in files (read_paths dirs) game_id

abbrev pub is_other : Option CountedSeries → String → Bool
is_other none uid = false
is_other (some e) uid = not (e.game_uid == uid)

unfoldable pub refuse_repeat_counted : Files → List String → String → String → Result (Unit {0})
refuse_repeat_counted files dirs game_id uid =
    raise_if (is_other (prior files dirs game_id) uid) settlement_error

unfoldable pub first_meeting : Files → List String → String → String → Bool
first_meeting files dirs game_id uid = not (is_other (prior files dirs game_id) uid)

abbrev pub or_empty : Option LedgerDoc → LedgerDoc
or_empty none = []
or_empty (some ledger) = ledger

unfoldable pub record_counted : Files → String → String → CountedSeries → Files
record_counted files dir game_id entry =
    let path = ledger_path dir in
    dict_set path (dict_set game_id entry (or_empty (dict_get path files))) files
