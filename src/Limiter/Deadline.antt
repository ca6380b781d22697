-- ===== src/Limiter/Deadline.antt =====
-- A wait for a token ends by its deadline.
use p2p_thief.Prelude.{
  ◌≡◌, refl, Bool, true, false, any, List, [], ◌∷◌, Option, none, some, arith, Bool-cases, inl, inr,
}
use p2p_thief.Prelude.Int.{pos, leb_ℤ, ◌+ℤ◌}
use p2p_thief.Scent.Float.{Floats, gef}
use p2p_thief.Limiter.{
  Denial, dos_lock, quota_reached, bucket_empty, queue_full, wait_timeout, ServiceLimiter, Poll,
  QueueConfig, check,
}
use p2p_thief.Limiter.{Waited, granted, denied, polling, leave, wait_loop, wait_for_token}

module _ (F : Floats) where
  -- A wait that has ended, by a grant or by a denial.
  abbrev pub IsOver : Waited F → Type 0
  IsOver (granted l rest) = Unit {0}
  IsOver (denied reason l rest) = Unit {0}
  IsOver (polling l) = ⊥

  module _ (start timeout : F.Float) where
    abbrev pub is_late : Poll F → Bool
    is_late p = gef F (F.sub p.deadline_now start) timeout

    pass-IsOver :
        (c : ServiceLimiter F) (reason : Option Denial) (late : Bool) (polls : List (Poll F))
        (resume : Waited F)
        → (late ≡ false → IsOver resume)
        → IsOver (elim reason [
          | none ↦ granted (leave F c) polls
          | some bucket_empty ↦ elim late [
            | true ↦ denied wait_timeout (leave F c) polls
            | false ↦ resume
          ]
          | some why ↦ denied why (leave F c) polls
        ])
    pass-IsOver c none late polls resume goes_on = tt
    pass-IsOver c (some bucket_empty) false polls resume goes_on = goes_on refl
    pass-IsOver c (some bucket_empty) true polls resume goes_on = tt
    pass-IsOver c (some dos_lock) late polls resume goes_on = tt
    pass-IsOver c (some quota_reached) late polls resume goes_on = tt
    pass-IsOver c (some queue_full) late polls resume goes_on = tt
    pass-IsOver c (some wait_timeout) late polls resume goes_on = tt

    wait_loop-IsOver :
        (l : ServiceLimiter F) (polls : List (Poll F))
        → any is_late polls ≡ true
        → IsOver (wait_loop F start timeout l polls)
    unfolding wait_loop
    wait_loop-IsOver l [] passed = absurd (ground arith)
    wait_loop-IsOver l (p ∷ polls) passed =
        pass-IsOver (check F l p).0 (check F l p).1 (is_late p) polls
          (wait_loop F start timeout (check F l p).0 polls)
          (λ early. wait_loop-IsOver (check F l p).0 polls (ground arith))

  -- Once one of the polls reads the clock past the deadline, the wait has ended: by a grant or by a denial,
  -- and never still polling.
  pub wait_for_token-IsOver :
      (l : ServiceLimiter F) (queue_config : QueueConfig F) (start : F.Float)
      (polls : List (Poll F))
      → any (is_late start queue_config.wait_timeout_seconds) polls ≡ true
      → IsOver (wait_for_token F l queue_config start polls)
  unfolding wait_for_token
  wait_for_token-IsOver l queue_config start polls passed =
      elim (Bool-cases (leb_ℤ queue_config.max_depth l.waiters)) [
        | inl crowded ↦ rw crowded tt
        | inr room ↦ rw room (
            wait_loop-IsOver start queue_config.wait_timeout_seconds
              (record l { waiters = l.waiters +ℤ pos 1 }) polls passed)
      ]
