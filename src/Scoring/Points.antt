-- ===== src/Scoring/Points.antt =====
-- Which outcomes have a score, and that no score is negative.
use p2p_thief.Prelude.{◌≡◌, refl, ◌≢◌, ok, err, value_error, arith}
use p2p_thief.Prelude.Int.{ℤ, pos, ◌≤ℤ◌}
use p2p_thief.Primitives.{Outcome, ongoing, capture, survival}
use p2p_thief.Scoring.{ScoreTable, post_init, points_for, series_tie_points}

-- A valid table pays every finished sub-game, both sides a score of zero or more; a sub-game that is
-- not over has no score; and both sides of a level series get zero or more.
pub points_for_total :
    (t : ScoreTable)
    → post_init t ≡ ok t
    → ((o : Outcome)
        → o ≢ ongoing
        → (cop robber : ℤ) × (points_for t o ≡ ok (cop, robber))
          × (pos 0 ≤ℤ cop)
          × (pos 0 ≤ℤ robber))
      × (points_for t ongoing ≡ err value_error)
      × (pos 0 ≤ℤ (series_tie_points t).0)
      × (pos 0 ≤ℤ (series_tie_points t).1)
unfolding points_for post_init series_tie_points
points_for_total t h = (go, refl, ground arith, ground arith)
  where
    go :
        (o : Outcome)
        → o ≢ ongoing
        → (cop robber : ℤ) × (points_for t o ≡ ok (cop, robber))
          × (pos 0 ≤ℤ cop)
          × (pos 0 ≤ℤ robber)
    go ongoing over = absurd (over refl)
    go capture over = (t.capture_cop, t.capture_thief, refl, ground arith, ground arith)
    go survival over = (t.survival_cop, t.survival_thief, refl, ground arith, ground arith)
    go Outcome.technical_loss over =
        (t.technical_loss, t.technical_loss, refl, ground arith, ground arith)
