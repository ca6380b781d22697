-- ===== src/Series/Kept.antt =====
-- That every log is kept or named, and what is kept.
use p2p_thief.Prelude.{
  ℕ, ◌+◌, true, false, ◌≡◌, refl, sym, ◌∙◌, ap, ◌==◌, ==_iff, List, [], ◌∷◌, ◌++◌, Option, none,
  some, arith, Bool-cases, inl, inr, ok,
}
use p2p_thief.Prelude.{
  bind-eq-ok, ok_inj, text_equality, dict_get, dict_set, has_key, dict_get-set, subst, some_inj,
}
use p2p_thief.Prelude.Int.{ℤ, ℤ_equality}
use p2p_thief.Prelude.{map, if◌then◌else◌}
use p2p_thief.Series.{
  Reason, LogDoc, LogFile, unreadable, parsed, other_series, duplicate, Excluded, sift, fill_slots,
  consensus_uid, same_uid, collect_logs,
}
use Prim.Native.String.{String}

-- The paths of the files found, of the kept logs and of the notes.
abbrev pub path_of : LogFile → String
path_of (unreadable path) = path
path_of (parsed doc) = doc.path

abbrev pub found_paths : List LogFile → List String
found_paths files = map path_of files

abbrev pub kept_paths : List (ℤ × LogDoc) → List String
kept_paths slots = map (λ slot. slot.1.path) slots

abbrev pub excluded_paths : Excluded → List String
excluded_paths excluded = map (λ note. note.0) excluded

-- How often a path is in a list.
abbrev pub times : String → List String → ℕ
times path [] = 0
times path (p ∷ ps) = if p == path then times path ps + 1 else times path ps

module _ (path : String) where
  noted :
      (excluded : Excluded) (p : String) (reason : Reason)
      → times path (excluded_paths (excluded ++ ((p, reason) ∷ [])))
        ≡ times path (excluded_paths excluded) + times path (p ∷ [])
  noted [] p reason = omega arith
  noted (note ∷ excluded) p reason = ground (arith, noted excluded p reason)

  slotted :
      (k : ℤ) (doc : LogDoc) (slots : List (ℤ × LogDoc))
      → has_key k slots ≡ false
      → times path (kept_paths (dict_set k doc slots))
        ≡ times path (kept_paths slots) + times path (doc.path ∷ [])
  unfolding dict_set has_key
  slotted k doc [] fresh = omega arith
  slotted k doc ((j, d) ∷ slots) fresh = ground (arith, slotted k doc slots)

  -- What the first loop keeps and notes is what it was given.
  times-sift :
      (expected : ℤ) (files : List LogFile)
      → times path (map (λ doc. doc.path) (sift expected files).0)
          + times path (excluded_paths (sift expected files).1)
        ≡ times path (found_paths files)
  unfolding sift
  times-sift expected [] = omega arith
  times-sift expected (unreadable p ∷ files) = ground (arith, times-sift expected files)
  times-sift expected (parsed doc ∷ files) = ground (arith, times-sift expected files)

  times-fill_slots :
      (uid : String) (docs : List LogDoc) (slots : List (ℤ × LogDoc)) (excluded : Excluded)
      → times path (kept_paths (fill_slots uid docs slots excluded).0)
          + times path (excluded_paths (fill_slots uid docs slots excluded).1)
        ≡ times path (map (λ doc. doc.path) docs)
          + (times path (kept_paths slots) + times path (excluded_paths excluded))
  unfolding fill_slots
  times-fill_slots uid [] slots excluded = omega arith
  times-fill_slots uid (doc ∷ docs) slots excluded =
      let here : times path (map (λ d. d.path) (doc ∷ docs))
          ≡ times path (doc.path ∷ []) + times path (map (λ d. d.path) docs) =
        ground arith in
      elim (Bool-cases (same_uid doc.uid uid)) [
        | inr other ↦
            let note = (doc.path, other_series) ∷ [] in
            let rest = times-fill_slots uid docs slots (excluded ++ note) in
            rw other (omega (arith, rest, here, noted excluded doc.path other_series))
        | inl same ↦ elim (Bool-cases (has_key doc.sub slots)) [
          | inl taken ↦
              let note = (doc.path, duplicate) ∷ [] in
              let rest = times-fill_slots uid docs slots (excluded ++ note) in
              rw (same, taken) (omega (arith, rest, here, noted excluded doc.path duplicate))
          | inr free ↦
              let rest = times-fill_slots uid docs (dict_set doc.sub doc slots) excluded in
              rw (same, free) (omega (arith, rest, here, slotted doc.sub doc slots free))
        ]
      ]

-- Every slot holds a log of the series under its own number.
abbrev pub IsSeries : String → List (ℤ × LogDoc) → Type 0
IsSeries uid slots =
    (n : ℤ) (doc : LogDoc) → dict_get n slots ≡ some doc → (doc.uid ≡ some uid) × (doc.sub ≡ n)

same_uid-some : (u : Option String) (uid : String) → same_uid u uid ≡ true → u ≡ some uid
same_uid-some none uid h = absurd (ground arith)
same_uid-some (some u) uid h = ap some ((==_iff u uid).0 h)

dict_set-IsSeries :
    (uid : String) (doc : LogDoc) (slots : List (ℤ × LogDoc))
    → same_uid doc.uid uid ≡ true
    → IsSeries uid slots
    → IsSeries uid (dict_set doc.sub doc slots)
dict_set-IsSeries uid doc slots same series n d h = elim (Bool-cases (doc.sub == n)) [
  | inl here ↦
      let one : doc ≡ d = some_inj (sym (dict_get-set doc.sub n doc slots ∙ rw here refl) ∙ h) in
      subst (λ x. (x.uid ≡ some uid) × (x.sub ≡ n)) one
        (same_uid-some doc.uid uid same, (==_iff doc.sub n).0 here)
  | inr away ↦ series n d (sym (dict_get-set doc.sub n doc slots ∙ rw away refl) ∙ h)
]

fill_slots-IsSeries :
    (uid : String) (docs : List LogDoc) (slots : List (ℤ × LogDoc)) (excluded : Excluded)
    → IsSeries uid slots
    → IsSeries uid (fill_slots uid docs slots excluded).0
unfolding fill_slots
fill_slots-IsSeries uid [] slots excluded series = series
fill_slots-IsSeries uid (doc ∷ docs) slots excluded series =
    elim (Bool-cases (same_uid doc.uid uid)) [
      | inr other ↦ rw other (fill_slots-IsSeries uid docs slots _ series)
      | inl same ↦ elim (Bool-cases (has_key doc.sub slots)) [
        | inl taken ↦ rw (same, taken) (fill_slots-IsSeries uid docs slots _ series)
        | inr free ↦
            rw (same, free)
              (fill_slots-IsSeries uid docs _ excluded
                (dict_set-IsSeries uid doc slots same series))
      ]
    ]

-- When the logs of a series are collected, each file found is kept in a slot or excluded by its path, and
-- not both: a path is among the kept and the excluded together as often as among the files. Every slot
-- holds a log of the series' own identifier, under its own number.
pub collect_logs_fate :
    (files : List LogFile) (expected : ℤ) (slots : List (ℤ × LogDoc)) (excluded : Excluded)
    (uid : String)
    → collect_logs files expected ≡ ok (slots, excluded, uid)
    → ((path : String)
        → times path (kept_paths slots) + times path (excluded_paths excluded)
          ≡ times path (found_paths files))
      × IsSeries uid slots
unfolding collect_logs dict_get
collect_logs_fate files expected slots excluded uid collected =
    let (found, agreed, filled) = bind-eq-ok (consensus_uid (sift expected files).0) _ collected in
    let docs = (sift expected files).0 in
    let notes = (sift expected files).1 in
    let series = fill_slots-IsSeries found docs [] notes (λ n d h. absurd (ground arith)) in
    let made = ok_inj filled in
    (
      λ path.
          ap (λ x. times path (kept_paths x.0) + times path (excluded_paths x.1)) (sym made)
          ∙ times-fill_slots path found docs [] notes
          ∙ omega (arith, times-sift path expected files),
      subst (λ x. IsSeries x.2 x.0) made series,
    )
