-- ===== src/Scoring.antt =====
-- src/p2p_thief/domain/scoring.py: the fixed scoring table.
pub mod Points
use p2p_thief.Prelude.{◌≡◌, refl, Bool, List, [], ◌∷◌, arith, any}
use p2p_thief.Prelude.{Result, ok, err, value_error, raise_if, ◌>>=◌, ◌>>◌}
use p2p_thief.Prelude.Int.{ℤ, pos, ltb_ℤ}
use p2p_thief.Primitives.{Outcome, ongoing, capture, survival}

pub record ScoreTable : Type 0 where
  pub capture_cop : ℤ
  pub capture_thief : ℤ
  pub survival_cop : ℤ
  pub survival_thief : ℤ
  pub tie_score : ℤ
  pub technical_loss : ℤ

-- `ScoreTable.__post_init__`
unfoldable pub post_init : ScoreTable → Result ScoreTable
post_init t = do raise_if (any (λ v. ltb_ℤ v (pos 0)) values) value_error; ok t
  where
    open t use {capture_cop, capture_thief, survival_cop, survival_thief, tie_score}

    values : List ℤ
    values =
        capture_cop ∷ capture_thief ∷ survival_cop ∷ survival_thief ∷ tie_score ∷ t.technical_loss
        ∷ []

-- (cop_points, thief_points)
unfoldable pub points_for : ScoreTable → Outcome → Result (ℤ × ℤ)
points_for t capture = ok (t.capture_cop, t.capture_thief)
points_for t survival = ok (t.survival_cop, t.survival_thief)
points_for t Outcome.technical_loss = ok (t.technical_loss, t.technical_loss)
points_for t ongoing = err value_error

unfoldable pub series_tie_points : ScoreTable → ℤ × ℤ
series_tie_points t = (t.tie_score, t.tie_score)
