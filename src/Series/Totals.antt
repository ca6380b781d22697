-- ===== src/Series/Totals.antt =====
-- src/p2p_thief/report/series_doc.py: the points, the wins and the ties of a series, from the scores of its
-- sub-games.
use p2p_thief.Prelude.{
  ℕ, ◌+◌, Bool, false, ◌≡◌, refl, sym, ◌∙◌, ap, ◌==◌, List, [], ◌∷◌, Option, none, some, length,
  arith,
}
use p2p_thief.Prelude.{
  Result, ok, err, key_error, value_error, ltb, eqb, ◌>>=◌, text_equality, dict_get, dict_set,
  has_key, if◌then◌else◌, Bool-cases, inl, inr, bind-eq-ok, ok_inj,
}
use p2p_thief.Series.{or_zero}
use Prim.Native.String.{String}

-- A sub-game's score by group, and its winner.
pub record SubGame : Type 0 where
  pub score : List (String × ℕ)
  pub winner_group : Option String

pub record Totals : Type 0 where
  pub totals : List (String × ℕ)
  pub won : List (String × ℕ)
  pub ties : ℕ

-- `d.get(key, 0)`
abbrev pub get_zero : String → List (String × ℕ) → ℕ
get_zero key d = or_zero (dict_get key d)

-- `d.setdefault(key, 0)`
abbrev pub set_default : String → List (String × ℕ) → List (String × ℕ)
set_default key d = if has_key key d then d else dict_set key 0 d

-- The loop over the score of one sub-game.
abbrev pub add_score : List (String × ℕ) → Totals → Totals
add_score [] t = t
add_score ((group, points) ∷ score) t = add_score score (record t {
  totals = dict_set group (get_zero group t.totals + points) t.totals;
  won = set_default group t.won;
})

-- `won[winner] += 1`, which raises for a winner that has no score.
abbrev pub add_winner : Option String → Totals → Result Totals
add_winner none t = ok (record t { ties = t.ties + 1 })
add_winner (some group) t = elim (dict_get group t.won) [
  | none ↦ err key_error
  | some n ↦ ok (record t { won = dict_set group (n + 1) t.won })
]

unfoldable pub add_sub_games : List SubGame → Totals → Result Totals
add_sub_games [] t = ok t
add_sub_games (g ∷ games) t =
    add_winner g.winner_group (add_score g.score t) >>= add_sub_games games

abbrev no_totals : Totals
no_totals = record { totals = []; won = []; ties = 0 }

unfoldable pub series_totals : List SubGame → Result Totals
series_totals games = add_sub_games games no_totals

abbrev pub sum : List (String × ℕ) → ℕ
sum [] = 0
sum ((k, n) ∷ d) = n + sum d

abbrev pub all_points : List SubGame → ℕ
all_points [] = 0
all_points (g ∷ games) = sum g.score + all_points games

-- A new value moves the sum by as much as it moves its own entry.
sum-dict_set :
    (k : String) (n : ℕ) (d : List (String × ℕ)) → sum (dict_set k n d) + get_zero k d ≡ sum d + n
unfolding dict_set dict_get
sum-dict_set k n [] = omega arith
sum-dict_set k n ((j, m) ∷ d) = elim (Bool-cases (j == k)) [
  | inl same ↦ rw same (omega arith)
  | inr differ ↦ rw differ (omega (arith, sum-dict_set k n d))
]

get_zero-missing : (k : String) (d : List (String × ℕ)) → has_key k d ≡ false → get_zero k d ≡ 0
unfolding has_key dict_get
get_zero-missing k [] h = refl
get_zero-missing k ((j, m) ∷ d) h = ground (arith, get_zero-missing k d)

set_default-sum : (k : String) (d : List (String × ℕ)) → sum (set_default k d) ≡ sum d
set_default-sum k d = elim (Bool-cases (has_key k d)) [
  | inl held ↦ rw held refl
  | inr fresh ↦ rw fresh (omega (arith, sum-dict_set k 0 d, get_zero-missing k d fresh))
]

sum-add_score :
    (score : List (String × ℕ)) (t : Totals)
    → (sum (add_score score t).totals ≡ sum score + sum t.totals)
      × (sum (add_score score t).won ≡ sum t.won)
      × ((add_score score t).ties ≡ t.ties)
sum-add_score [] t = (omega arith, refl, refl)
sum-add_score ((group, points) ∷ score) t =
    let set = dict_set group (get_zero group t.totals + points) t.totals in
    let (a, b, c) =
      sum-add_score score (record t { totals = set; won = set_default group t.won }) in
    (
      omega (arith, a, sum-dict_set group (get_zero group t.totals + points) t.totals),
      b ∙ set_default-sum group t.won,
      c,
    )

sum-add_winner :
    (winner : Option String) (t u : Totals)
    → add_winner winner t ≡ ok u
    → (u.totals ≡ t.totals) × (sum u.won + u.ties ≡ sum t.won + t.ties + 1)
sum-add_winner none t u h =
    let e = ok_inj h in
    (sym (ap (λ x. x.totals) e), sym (ap (λ x. sum x.won + x.ties) e) ∙ omega arith)
sum-add_winner (some group) t u h = go (dict_get group t.won) refl h
  where
    go :
        (o : Option ℕ)
        → dict_get group t.won ≡ o
        → elim o [
          | none ↦ err key_error
          | some n ↦ ok (record t { won = dict_set group (n + 1) t.won })
        ]
          ≡ ok u
        → (u.totals ≡ t.totals) × (sum u.won + u.ties ≡ sum t.won + t.ties + 1)
    go none at h = absurd (ground arith)
    go (some n) at h =
        let e = ok_inj h in
        let held : get_zero group t.won ≡ n = ap or_zero at in
        (
          sym (ap (λ x. x.totals) e),
          sym (ap (λ x. sum x.won + x.ties) e)
              ∙ omega (arith, held, sum-dict_set group (n + 1) t.won),
        )

sum-add_sub_games :
    (games : List SubGame) (t u : Totals)
    → add_sub_games games t ≡ ok u
    → (sum u.totals ≡ all_points games + sum t.totals)
      × (sum u.won + u.ties ≡ length games + (sum t.won + t.ties))
unfolding add_sub_games
sum-add_sub_games [] t u h =
    let e = ok_inj h in
    (
      sym (ap (λ x. sum x.totals) e) ∙ omega arith,
      sym (ap (λ x. sum x.won + x.ties) e) ∙ omega arith,
    )
sum-add_sub_games (g ∷ games) t u h =
    let (v, won, rest) = bind-eq-ok (add_winner g.winner_group (add_score g.score t)) _ h in
    let (points, wins) = sum-add_sub_games games v u rest in
    let (kept, counted) = sum-add_winner g.winner_group (add_score g.score t) v won in
    let (added, same_wins, same_ties) = sum-add_score g.score t in
    let kept_sum : sum v.totals ≡ sum (add_score g.score t).totals = ap sum kept in
    (omega (arith, points, kept_sum, added), omega (arith, wins, counted, same_wins, same_ties))

-- The series adds up: its totals are all the points of its sub-games, and each sub-game is either a win
-- of one group or a tie.
pub series_totals-sum :
    (games : List SubGame) (t : Totals)
    → series_totals games ≡ ok t
    → (sum t.totals ≡ all_points games) × (sum t.won + t.ties ≡ length games)
unfolding series_totals
series_totals-sum games t h =
    let (points, wins) = sum-add_sub_games games no_totals t h in
    (omega (arith, points), omega (arith, wins))

-- `max(totals, key=...)`: the first group with the most points.
abbrev pub first_most : List (String × ℕ) → Option (String × ℕ)
first_most [] = none
first_most ((group, n) ∷ d) = elim (first_most d) [
  | none ↦ some (group, n)
  | some best ↦ if ltb n best.1 then some best else some (group, n)
]

abbrev pub is_series_tie : List (String × ℕ) → Bool
is_series_tie ((a, n) ∷ (b, m) ∷ []) = eqb n m
is_series_tie _ = false

-- The source builds the new dictionary in the order of the names; as a dictionary it is this one.
abbrev pub add_points : ℕ → List (String × ℕ) → List (String × ℕ)
add_points points [] = []
add_points points ((group, n) ∷ d) = (group, n + points) ∷ add_points points d

-- The totals after the tie points, and the winner of the series.
unfoldable pub settle : ℕ → List (String × ℕ) → Result (List (String × ℕ) × Option String)
settle tie_points totals =
    if is_series_tie totals
    then ok (add_points tie_points totals, none)
    else elim (first_most totals) [ none ↦ err value_error | some best ↦ ok (totals, some best.0) ]
