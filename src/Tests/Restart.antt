-- ===== src/Tests/Restart.antt =====
-- A crash in the small game of the hidden wire.
use p2p_thief.Prelude.{◌≡◌, refl, List, [], ◌∷◌, ok}
use p2p_thief.Prelude.Int.{ℤ, pos}
use p2p_thief.Primitives.{Cell, police, thief, north}
use p2p_thief.Protocol.{move, barrier}
use p2p_thief.OwnState.{OwnState, wire_play}
use p2p_thief.Hidden.{Runtime}
use p2p_thief.Resume.{build_snapshot, rearm}
use p2p_thief.Resume.Rearmed.{Resumes, rearm-wire_play}
use p2p_thief.Tests.Samples.{millionths, small_rules, result_or}
use p2p_thief.Tests.Hidden.{Turn, small_thief, small_cop, wire_run}
use p2p_thief.Tests.Half.{small_runtime}
use Prim.Native.String.{String}

-- The thief steps and tells its scent, the cop walls a neighbour.
abbrev scented_turns : List Turn
scented_turns =
    (thief, move north, ((pos 1, pos 2), 900000) ∷ [])
    ∷ (police, barrier (pos 0, pos 1), ((pos 0, pos 0), 900000) ∷ ((pos 0, pos 1), 620000) ∷ [])
    ∷ []

abbrev scented : OwnState millionths × OwnState millionths
scented =
    result_or (small_cop, small_thief) (wire_play millionths small_cop small_thief scented_turns)

abbrev before_crash : Runtime millionths
before_crash = record small_runtime { own = scented.1; my_step = pos 1; their_step = pos 1 }

abbrev short_digest : ℤ → Cell → List Cell → String
short_digest size cell walls = "d"

rearm-wire_play_example :
    (rt' : Runtime millionths) × (rearm millionths short_digest small_runtime
        (build_snapshot millionths short_digest before_crash (pos 2))
      ≡ ok (rt', pos 2))
    × Resumes millionths before_crash rt'
unfolding wire_run
rearm-wire_play_example =
    rearm-wire_play millionths short_digest 3 (pos 0, pos 0) (pos 2, pos 2) small_rules 900000
      100000 5 small_cop small_thief scented.0 scented.1 scented_turns thief small_runtime
      before_crash (pos 2) refl refl refl ((refl, tt), ((refl, (refl, tt)), tt)) refl refl
