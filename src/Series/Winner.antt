-- ===== src/Series/Winner.antt =====
-- The winner of a series, and its tie.
use p2p_thief.Prelude.{◌+◌, ◌≢◌, eqb_refl}
use p2p_thief.Prelude.{
  ℕ, ◌≤◌, true, false, ◌≡◌, refl, sym, ◌∙◌, ap, List, [], ◌∷◌, Option, none, some, All, arith, ok,
  err, ltb, Bool-cases, Option-cases, ◌⊎◌, inl, inr, if◌then◌else◌, ok_inj, value_error, subst,
  some_inj,
}
use p2p_thief.Series.Totals.{first_most, is_series_tie, add_points, settle}
use Prim.Native.String.{String}

-- An entry of the totals that no other exceeds.
abbrev pub Among : String × ℕ → List (String × ℕ) → Type 0
Among e [] = ⊥
Among e (f ∷ d) = (e ≡ f) ⊎ Among e d

pub record IsMost (totals : List (String × ℕ)) (best : String × ℕ) : Type 0 where
  pub among : Among best totals
  pub most : All (λ e. e.1 ≤ best.1) totals

All-le : (m n : ℕ) (d : List (String × ℕ)) → m ≤ n → All (λ e. e.1 ≤ m) d → All (λ e. e.1 ≤ n) d
All-le m n [] le all = tt
All-le m n (e ∷ d) le (h, all) = (omega (arith, le, h), All-le m n d le all)

first_most-none : (d : List (String × ℕ)) (n : ℕ) → first_most d ≡ none → All (λ e. e.1 ≤ n) d
first_most-none [] n h = tt
first_most-none ((group, m) ∷ d) n h = absurd (ground arith)

-- One step of the search, from what the rest gives.
step_IsMost :
    (group : String) (n : ℕ) (d : List (String × ℕ)) (o : Option (String × ℕ)) (best : String × ℕ)
    → (o ≡ none → All (λ e. e.1 ≤ n) d)
    → ((b : String × ℕ) → o ≡ some b → IsMost d b)
    → elim o [ none ↦ some (group, n) | some b ↦ if ltb n b.1 then some b else some (group, n) ]
      ≡ some best
    → IsMost ((group, n) ∷ d) best
step_IsMost group n d none best empty later h =
    subst (IsMost ((group, n) ∷ d)) (some_inj h)
      (record { among = inl refl; most = (omega arith, empty refl) })
step_IsMost group n d (some b) best empty later h =
    let rest = later b refl in
    elim (Bool-cases (ltb n b.1)) [
      | inl less ↦
          subst (IsMost ((group, n) ∷ d)) (some_inj (sym (rw less refl) ∙ h))
            (record { among = inr rest.among; most = (ground arith, rest.most) })
      | inr same ↦ subst (IsMost ((group, n) ∷ d)) (some_inj (sym (rw same refl) ∙ h)) (record {
        among = inl refl;
        most = (omega arith, All-le b.1 n d (ground arith) rest.most);
      })
    ]

first_most-IsMost :
    (d : List (String × ℕ)) (best : String × ℕ) → first_most d ≡ some best → IsMost d best
first_most-IsMost [] best h = absurd (ground arith)
first_most-IsMost ((group, n) ∷ d) best h =
    step_IsMost group n d (first_most d) best (first_most-none d n) (λ b e. first_most-IsMost d b e)
      h

-- Two groups that have the same points, and no other.
abbrev pub IsTie : List (String × ℕ) → List (String × ℕ) → ℕ → Type 0
IsTie totals after tie_points =
    (a b : String) × (n : ℕ) × (totals ≡ (a, n) ∷ (b, n) ∷ [])
    × (after ≡ (a, n + tie_points) ∷ (b, n + tie_points) ∷ [])

add_points-IsTie :
    (totals : List (String × ℕ)) (tie_points : ℕ)
    → is_series_tie totals ≡ true
    → IsTie totals (add_points tie_points totals) tie_points
add_points-IsTie [] p h = absurd (ground arith)
add_points-IsTie (x ∷ []) p h = absurd (ground arith)
add_points-IsTie ((a, n) ∷ (b, m) ∷ []) p h =
    let same : m ≡ n = ground arith in
    (
      a,
      b,
      n,
      ap (λ (k : ℕ). (a, n) ∷ (b, k) ∷ []) same,
      ap (λ (k : ℕ). (a, n + p) ∷ (b, k + p) ∷ []) same,
    )
add_points-IsTie (x ∷ y ∷ z ∷ d) p h = absurd (ground arith)

not_tie :
    (totals : List (String × ℕ))
    → is_series_tie totals ≡ false
    → (a b : String) (n : ℕ) → totals ≢ (a, n) ∷ (b, n) ∷ []
not_tie totals apart a b n e = clash (sym apart ∙ ap is_series_tie e ∙ eqb_refl n)
  where
    clash : false ≡ true → ⊥
    clash h = cc

-- A series has no winner exactly when it has two groups with the same points, and these then have the
-- points of a tie added to theirs. Else the totals stay as they are, and the winner is one of the
-- groups, such that no group has more points.
pub settle_fate :
    (tie_points : ℕ) (totals after : List (String × ℕ)) (winner : Option String)
    → settle tie_points totals ≡ ok (after, winner)
    → ((winner ≡ none) × IsTie totals after tie_points)
      ⊎ (((a b : String) (n : ℕ) → totals ≢ (a, n) ∷ (b, n) ∷ [])
          × (after ≡ totals)
          × (best : String × ℕ) × (winner ≡ some best.0)
          × IsMost totals best)
unfolding settle
settle_fate tie_points totals after winner h = elim (Bool-cases (is_series_tie totals)) [
  | inl tied ↦
      let made = ok_inj (sym (rw tied refl) ∙ h) in
      inl (
        sym (ap (λ x. x.1) made),
        subst (λ x. IsTie totals x tie_points) (ap (λ x. x.0) made)
            (add_points-IsTie totals tie_points tied),
      )
  | inr apart ↦ elim (Option-cases (first_most totals)) [
    | inl lost ↦
        let bad : settle tie_points totals ≡ err value_error = rw (apart, lost) refl in
        absurd (clash (sym bad ∙ h))
    | inr (best, e) ↦
        let won : settle tie_points totals ≡ ok (totals, some best.0) = rw (apart, e) refl in
        let made = ok_inj (sym won ∙ h) in
        inr (
          not_tie totals apart,
          sym (ap (λ x. x.0) made),
          best,
          sym (ap (λ x. x.1) made),
          first_most-IsMost totals best e,
        )
  ]
]
  where
    clash : {x : List (String × ℕ) × Option String} → err value_error ≡ ok x → ⊥
    clash h = cc
