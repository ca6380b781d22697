-- ===== src/Series/Majority.antt =====
-- The identifier of a series: that of more logs than any other.
use p2p_thief.Prelude.{
  ℕ, ◌+◌, ◌≤◌, ◌<◌, true, false, ◌||◌, ◌≡◌, ◌≢◌, refl, sym, ◌∙◌, ap, subst, ◌==◌, ==_iff, ==_refl,
  ==_ne, ==_comm, List, [], ◌∷◌, Option, none, some, arith, Bool-cases, ◌⊎◌, inl, inr, ok, eqb,
  eqb_iff,
}
use p2p_thief.Prelude.{
  text_equality, dict_get, dict_set, has_key, dict_get-set, if◌then◌else◌, contains, ok_inj,
  Option-cases,
}
use p2p_thief.Series.{
  LogDoc, or_zero, count_uid, count_uids, most, leaders, only_leader, consensus_uid, same_uid,
}
use Prim.Native.String.{String}

-- How many of the logs have the identifier.
abbrev pub logs_of : String → List LogDoc → ℕ
logs_of uid [] = 0
logs_of uid (doc ∷ docs) = (if same_uid doc.uid uid then 1 else 0) + logs_of uid docs

abbrev counted : String → List (String × ℕ) → ℕ
counted uid counts = or_zero (dict_get uid counts)

counted-dict_set :
    (u uid : String) (n : ℕ) (counts : List (String × ℕ))
    → counted uid (dict_set u n counts) ≡ (if u == uid then n else counted uid counts)
counted-dict_set u uid n counts = elim (Bool-cases (u == uid)) [
  | inl same ↦ ap or_zero (dict_get-set u uid n counts) ∙ rw same refl
  | inr differ ↦ ap or_zero (dict_get-set u uid n counts) ∙ rw differ refl
]

counted-count_uid :
    (uid : String) (o : Option String) (counts : List (String × ℕ))
    → uid ≢ ""
    → counted uid (count_uid o counts) ≡ (if same_uid o uid then 1 else 0) + counted uid counts
counted-count_uid uid none counts named = omega arith
counted-count_uid uid (some u) counts named = elim (Bool-cases (u == "")) [
  | inl blank ↦
      let other : (u == uid) ≡ false = ==_ne u uid (λ e. named (sym e ∙ (==_iff u "").0 blank)) in
      rw (blank, other) (omega arith)
  | inr kept ↦
      let set = counted-dict_set u uid (counted u counts + 1) counts in
      elim (Bool-cases (u == uid)) [
        | inl same ↦
            let e : counted u counts ≡ counted uid counts =
              ap (λ x. counted x counts) ((==_iff u uid).0 same) in
            rw (kept, set, same) (omega (arith, e))
        | inr differ ↦ rw (kept, set, differ) (omega arith)
      ]
]

counted-count_uids :
    (uid : String) (docs : List LogDoc) (counts : List (String × ℕ))
    → uid ≢ ""
    → counted uid (count_uids docs counts) ≡ logs_of uid docs + counted uid counts
counted-count_uids uid [] counts named = omega arith
counted-count_uids uid (doc ∷ docs) counts named =
    counted-count_uids uid docs (count_uid doc.uid counts) named
    ∙ ap (λ n. logs_of uid docs + n) (counted-count_uid uid doc.uid counts named)
    ∙ omega arith

-- No key twice, none of them empty, and each counted.
abbrev IsDistinct : List (String × ℕ) → Type 0
IsDistinct [] = Unit {0}
IsDistinct ((k, n) ∷ counts) = (has_key k counts ≡ false) × (k ≢ "") × (1 ≤ n) × IsDistinct counts

has_key-dict_set :
    (j k : String) (n : ℕ) (counts : List (String × ℕ))
    → has_key j (dict_set k n counts) ≡ (k == j || has_key j counts)
unfolding has_key dict_set
has_key-dict_set j k n [] = refl
has_key-dict_set j k n ((i, m) ∷ counts) =
    ground (arith, ==_iff i k, ==_iff i j, ==_iff k j, has_key-dict_set j k n counts)

dict_set-IsDistinct :
    (k : String) (n : ℕ) (counts : List (String × ℕ))
    → k ≢ ""
    → 1 ≤ n
    → IsDistinct counts
    → IsDistinct (dict_set k n counts)
unfolding dict_set has_key
dict_set-IsDistinct k n [] named positive distinct = (refl, named, positive, tt)
dict_set-IsDistinct k n ((i, m) ∷ counts) named positive (fresh, nonempty, held, distinct) =
    elim (Bool-cases (i == k)) [
      | inl same ↦ rw same (fresh, nonempty, positive, distinct)
      | inr differ ↦ rw differ (
        has_key-dict_set i k n counts ∙ rw (==_comm k i, differ, fresh) refl,
        nonempty,
        held,
        dict_set-IsDistinct k n counts named positive distinct,
      )
    ]

count_uids-IsDistinct :
    (docs : List LogDoc) (counts : List (String × ℕ))
    → IsDistinct counts
    → IsDistinct (count_uids docs counts)
count_uids-IsDistinct [] counts distinct = distinct
count_uids-IsDistinct (doc ∷ docs) counts distinct =
    count_uids-IsDistinct docs (count_uid doc.uid counts) (one doc.uid)
  where
    one : (o : Option String) → IsDistinct (count_uid o counts)
    one none = distinct
    one (some u) = elim (Bool-cases (u == "")) [
      | inl blank ↦ rw blank distinct
      | inr kept ↦ rw kept (
          dict_set-IsDistinct u _ counts (λ e. absurd (ground (arith, ==_iff u ""))) (omega arith)
            distinct)
    ]

dict_get-le : (uid : String) (counts : List (String × ℕ)) → counted uid counts ≤ most counts
unfolding dict_get
dict_get-le uid [] = omega arith
dict_get-le uid ((k, n) ∷ counts) = ground (arith, dict_get-le uid counts)

-- The count of the one leader, and of the others.
contains_leader :
    (uid : String) (n : ℕ) (counts : List (String × ℕ))
    → dict_get uid counts ≡ some n
    → contains uid (leaders n counts) ≡ true
unfolding dict_get contains
contains_leader uid n [] h = absurd (ground arith)
contains_leader uid n ((k, m) ∷ counts) h =
    ground (arith, contains_leader uid n counts, ==_iff k uid, eqb_iff m n, ==_comm k uid)

leader-has_key :
    (best : ℕ) (uid : String) (counts : List (String × ℕ))
    → contains uid (leaders best counts) ≡ true
    → has_key uid counts ≡ true
unfolding has_key contains
leader-has_key best uid [] h = absurd (ground arith)
leader-has_key best uid ((k, m) ∷ counts) h =
    ground (arith, leader-has_key best uid counts, ==_comm k uid)

later_leader :
    (best m : ℕ) (uid k : String) (counts : List (String × ℕ))
    → contains uid (leaders best ((k, m) ∷ counts)) ≡ true
    → ((k == uid) ≡ false) ⊎ (eqb m best ≡ false)
    → contains uid (leaders best counts) ≡ true
unfolding contains
later_leader best m uid k counts h away = ground (arith, ==_comm k uid)

no_leader : (uid : String) → contains uid [] ≡ true → ⊥
unfolding contains
no_leader uid h = ground arith

leader_counted :
    (best : ℕ) (uid : String) (counts : List (String × ℕ))
    → IsDistinct counts
    → contains uid (leaders best counts) ≡ true
    → (counted uid counts ≡ best) × (uid ≢ "") × (1 ≤ best)
unfolding dict_get
leader_counted best uid [] distinct h = absurd (no_leader uid h)
leader_counted best uid ((k, m) ∷ counts) (fresh, named, positive, distinct) h =
    elim (Bool-cases (k == uid)) [
      | inr differ ↦ rw differ (
          leader_counted best uid counts distinct (later_leader best m uid k counts h (inl differ)))
      | inl same ↦
          let e = (==_iff k uid).0 same in
          elim (Bool-cases (eqb m best)) [
            | inl top ↦
                let m_best = (eqb_iff m best).0 top in
                rw same (m_best, subst (λ x. x ≢ "") e named, subst (λ x. 1 ≤ x) m_best positive)
            | inr low ↦
                let later =
                  leader-has_key best uid counts (later_leader best m uid k counts h (inr low)) in
                absurd (clash (sym later ∙ sym (ap (λ x. has_key x counts) e) ∙ fresh))
          ]
    ]
  where
    clash : true ≡ false → ⊥
    clash h = cc

only_leader-ok : (us : List String) (uid : String) → only_leader us ≡ ok uid → us ≡ uid ∷ []
only_leader-ok [] uid h = absurd (ground arith)
only_leader-ok (u ∷ []) uid h = ap (λ x. x ∷ []) (ok_inj h)
only_leader-ok (u ∷ v ∷ us) uid h = absurd (ground arith)

-- The identifier on which the logs agree is not empty, and strictly more logs have it than have any
-- other that is not empty.
pub consensus_uid_most :
    (docs : List LogDoc) (uid other : String)
    → consensus_uid docs ≡ ok uid
    → other ≢ ""
    → other ≢ uid
    → (uid ≢ "") × (logs_of other docs < logs_of uid docs)
unfolding consensus_uid contains dict_get
consensus_uid_most docs uid other agreed named apart =
    let counts = count_uids docs [] in
    let one = only_leader-ok (leaders (most counts) counts) uid agreed in
    let leads : contains uid (leaders (most counts) counts) ≡ true =
      subst (λ us. contains uid us ≡ true) (sym one) (self uid) in
    let (at_best, nonempty, positive) =
      leader_counted (most counts) uid counts (count_uids-IsDistinct docs [] tt) leads in
    let below = dict_get-le other counts in
    let not_best : counted other counts ≢ most counts =
      λ e. apart (tied (most counts) other counts positive e one) in
    (nonempty, omega (arith, below, not_best, at_best, total other named, total uid nonempty))
  where
    self : (uid : String) → contains uid (uid ∷ []) ≡ true
    self uid = rw (==_refl uid) refl

    total : (u : String) → u ≢ "" → counted u (count_uids docs []) ≡ logs_of u docs + counted u []
    total u named = counted-count_uids u docs [] named

    only : (u : String) → contains u (uid ∷ []) ≡ true → u ≡ uid
    only u h = (==_iff u uid).0 (ground arith)

    tied :
        (best : ℕ) (u : String) (counts : List (String × ℕ))
        → 1 ≤ best
        → counted u counts ≡ best
        → leaders best counts ≡ uid ∷ []
        → u ≡ uid
    tied best u counts positive e one = elim (Option-cases (dict_get u counts)) [
      | inl lost ↦ absurd (omega (arith, positive, sym e ∙ ap or_zero lost))
      | inr (n, at) ↦
          let same : n ≡ best = sym (ap or_zero at) ∙ e in
          let leads = contains_leader u best counts (at ∙ ap some same) in
          only u (subst (λ us. contains u us ≡ true) one leads)
    ]
