-- ===== src/Tests/Games.antt =====
-- Runs of the series.
use p2p_thief.Prelude.{
  ℕ, ◌+◌, ◌<◌, ◌≡◌, ◌≢◌, refl, ◌⊎◌, true, false, List, [], ◌∷◌, Option, none, some, dict_get,
  dict_set, has_key, text_equality,
}
use p2p_thief.Prelude.Int.{ℤ, pos, ℤ_equality}
use p2p_thief.Series.{
  LogDoc, unreadable, parsed, sift, fill_slots, consensus_uid, collect_logs, not_readable, Excluded,
}
use p2p_thief.Series.Kept.{
  IsSeries, times, kept_paths, excluded_paths, found_paths, collect_logs_fate,
}
use p2p_thief.Series.Majority.{logs_of, consensus_uid_most}
use p2p_thief.Series.Totals.{SubGame, Totals, settle}
use p2p_thief.Series.Winner.{IsMost, IsTie, settle_fate}
use p2p_thief.Ledger.{CountedSeries, Files, record_counted, refuse_repeat_counted, first_meeting}
use p2p_thief.Ledger.Laws.{record_counted_fate}
use p2p_thief.Prelude.{ok, err, settlement_error}
use Prim.Native.String.{String}

abbrev log_doc : LogDoc
log_doc = record {
  path = "g01";
  uid = some "u";
  sub = pos 1;
  declared_games = some (pos 2);
  audit = some "Verified OK";
}

abbrev small_slots : List (ℤ × LogDoc)
small_slots = (pos 1, log_doc) ∷ []

abbrev small_notes : Excluded
small_notes = ("g02", not_readable) ∷ []

abbrev group_a : Option String
group_a = some "a"

collect_logs_fate_example :
    ((path : String)
      → times path (kept_paths small_slots) + times path (excluded_paths small_notes)
        ≡ times path (found_paths (parsed log_doc ∷ unreadable "g02" ∷ [])))
    × IsSeries "u" small_slots
unfolding collect_logs sift fill_slots consensus_uid dict_set dict_get has_key
collect_logs_fate_example =
    collect_logs_fate (parsed log_doc ∷ unreadable "g02" ∷ []) (pos 2) small_slots small_notes "u"
      refl

other_not_empty : ◌≢◌ {A = String} "v" ""
other_not_empty h = let t = (text_equality.test_iff "v" "").1 h in cc

other_not_same : ◌≢◌ {A = String} "v" "u"
other_not_same h = let t = (text_equality.test_iff "v" "u").1 h in cc

consensus_uid_most_example :
    (◌≢◌ {A = String} "u" "") × (logs_of "v" (log_doc ∷ []) < logs_of "u" (log_doc ∷ []))
unfolding consensus_uid dict_set dict_get
consensus_uid_most_example =
    consensus_uid_most (log_doc ∷ []) "u" "v" refl other_not_empty other_not_same

-- A capture and a tie.
abbrev small_series : List SubGame
small_series =
    record { score = ("a", 20) ∷ ("b", 5) ∷ []; winner_group = some "a" }
    ∷ record { score = ("a", 2) ∷ ("b", 2) ∷ []; winner_group = none }
    ∷ []

abbrev small_totals : Totals
small_totals = record {
  totals = ("a", 22) ∷ ("b", 7) ∷ [];
  won = ("a", 1) ∷ ("b", 0) ∷ [];
  ties = 1;
}

settle_fate_example :
    ((group_a ≡ none) × IsTie small_totals.totals small_totals.totals 2)
    ⊎ (((a b : String) (n : ℕ) → small_totals.totals ≢ (a, n) ∷ (b, n) ∷ [])
        × (small_totals.totals ≡ small_totals.totals)
        × (best : String × ℕ) × (group_a ≡ some best.0)
        × IsMost small_totals.totals best)
unfolding settle
settle_fate_example = settle_fate 2 small_totals.totals small_totals.totals group_a refl

uid_differs : ◌≢◌ {A = String} "u" "v"
uid_differs h = let t = (text_equality.test_iff "u" "v").1 h in cc

game_differs : ◌≢◌ {A = String} "a-vs-b" "a-vs-c"
game_differs h = let t = (text_equality.test_iff "a-vs-b" "a-vs-c").1 h in cc

abbrev small_entry : CountedSeries
small_entry = record { game_uid = "u"; message_id = "m"; reported_at = "noon" }

abbrev no_files : Files
no_files = []

abbrev after_record : Files
after_record = record_counted no_files "results" "a-vs-b" small_entry

record_counted_fate_example :
    (refuse_repeat_counted after_record ("results" ∷ []) "a-vs-b" "u" ≡ ok tt)
    × (first_meeting after_record ("results" ∷ []) "a-vs-b" "u" ≡ true)
    × (refuse_repeat_counted after_record ("results" ∷ []) "a-vs-b" "v" ≡ err settlement_error)
    × (first_meeting after_record ("results" ∷ []) "a-vs-b" "v" ≡ false)
    × (refuse_repeat_counted after_record ("results" ∷ []) "a-vs-c" "v"
        ≡ refuse_repeat_counted no_files ("results" ∷ []) "a-vs-c" "v")
record_counted_fate_example =
    record_counted_fate no_files "results" "a-vs-b" small_entry [] "v" "a-vs-c" ("results" ∷ [])
      uid_differs game_differs
