-- ===== src/Ledger/Laws.antt =====
-- What a recorded series makes of later checks.
use p2p_thief.Prelude.{
  Bool, true, false, ◌&&◌, ◌≡◌, ◌≢◌, refl, ◌∙◌, ap, ◌==◌, ==_iff, ==_refl, ==_ne, List, [], ◌∷◌,
  Option, none, some, Bool-cases, inl, inr, arith,
}
use p2p_thief.Prelude.{
  ok, err, raise_if, settlement_error, if◌then◌else◌, text_equality, dict_get, dict_set,
  dict_get-set,
}
use Prim.Native.String.{String, ◌++◌ as ◌<>◌}
use p2p_thief.Ledger.{
  CountedSeries, LedgerDoc, Files, ledger_path, read_paths, entry_of, first_entry, prior_in, prior,
  is_other, refuse_repeat_counted, first_meeting, or_empty, record_counted,
}

dict_get-or_empty :
    (o : Option LedgerDoc) (game_id : String) → dict_get game_id (or_empty o) ≡ entry_of o game_id
unfolding dict_get
dict_get-or_empty none game_id = refl
dict_get-or_empty (some ledger) game_id = refl

module _ (files : Files) (dir game_id : String) (entry : CountedSeries) where
  abbrev written : LedgerDoc
  written = dict_set game_id entry (or_empty (dict_get (ledger_path dir) files))

  -- What a path holds for a game after the series is recorded.
  entry_of-record_counted :
      (path other : String)
      → entry_of (dict_get path (record_counted files dir game_id entry)) other ≡ (
          if ledger_path dir == path && game_id == other
          then some entry
          else entry_of (dict_get path files) other)
  unfolding record_counted
  entry_of-record_counted path other =
      ap (λ o. entry_of o other) (dict_get-set (ledger_path dir) path written files)
      ∙ elim (Bool-cases (ledger_path dir == path)) [
        | inr away ↦ rw away refl
        | inl here ↦
            let at = (==_iff (ledger_path dir) path).0 here in
            rw here (
              dict_get-set game_id other entry (or_empty (dict_get (ledger_path dir) files))
              ∙ ap (λ o. if game_id == other then some entry else o)
                  (dict_get-or_empty (dict_get (ledger_path dir) files) other
                    ∙ ap (λ p. entry_of (dict_get p files) other) at))
      ]

  prior_in-other :
      (paths : List String) (other : String)
      → (game_id == other) ≡ false
      → prior_in (record_counted files dir game_id entry) paths other ≡ prior_in files paths other
  unfolding prior_in
  prior_in-other [] other differ = refl
  prior_in-other (path ∷ paths) other differ =
      let here : entry_of (dict_get path (record_counted files dir game_id entry)) other
          ≡ entry_of (dict_get path files) other =
        entry_of-record_counted path other ∙ never (ledger_path dir == path) _ in
      ap (λ e. first_entry e (prior_in (record_counted files dir game_id entry) paths other)) here
      ∙ ap (first_entry (entry_of (dict_get path files) other)) (prior_in-other paths other differ)
    where
      never :
          (b : Bool) (old : Option CountedSeries)
          → (if b && game_id == other then some entry else old) ≡ old
      never b old = ground arith

  prior-recorded :
      (dirs : List String)
      → prior (record_counted files dir game_id entry) (dir ∷ dirs) game_id ≡ some entry
  unfolding prior read_paths prior_in
  prior-recorded dirs =
      let later =
        prior_in (record_counted files dir game_id entry)
          (ledger_path (dir <> "/local") ∷ read_paths dirs) game_id in
      let here : entry_of (dict_get (ledger_path dir) (record_counted files dir game_id entry))
            game_id
          ≡ some entry =
        entry_of-record_counted (ledger_path dir) game_id
        ∙ rw (==_refl (ledger_path dir), ==_refl game_id) refl in
      ap (λ e. first_entry e later) here

  -- After a series is recorded in a directory, every check that reads that directory first refuses a
  -- series of the same pairing with another identifier and allows the same one again, which is the
  -- first meeting still; and the checks of every other pairing are as before, whatever they read.
  pub record_counted_fate :
      (dirs : List String) (uid other : String) (read : List String)
      → entry.game_uid ≢ uid
      → game_id ≢ other
      → let after = record_counted files dir game_id entry in
        (refuse_repeat_counted after (dir ∷ dirs) game_id entry.game_uid ≡ ok tt)
        × (first_meeting after (dir ∷ dirs) game_id entry.game_uid ≡ true)
        × (refuse_repeat_counted after (dir ∷ dirs) game_id uid ≡ err settlement_error)
        × (first_meeting after (dir ∷ dirs) game_id uid ≡ false)
        × (refuse_repeat_counted after read other uid ≡ refuse_repeat_counted files read other uid)
  unfolding refuse_repeat_counted first_meeting prior
  record_counted_fate dirs uid other read new_uid new_game =
      let differ = ==_ne entry.game_uid uid new_uid in
      (
        rw (prior-recorded dirs, ==_refl entry.game_uid) refl,
        rw (prior-recorded dirs, ==_refl entry.game_uid) refl,
        rw (prior-recorded dirs, differ) refl,
        rw (prior-recorded dirs, differ) refl,
        ap (λ e. raise_if (is_other e uid) settlement_error)
            (prior_in-other (read_paths read) other (==_ne game_id other new_game)),
      )
