-- ===== src/Tests/Gates.antt =====
-- A run of the gates of a service: two polls of an empty bucket trip the breaker, the third is refused.
use p2p_thief.Prelude.{[], ◌∷◌, ◌++◌, ◌≡◌, refl, true, false, arith}
use p2p_thief.Prelude.Int.{pos}
use p2p_thief.Limiter.{
  ServiceLimiter, Poll, QueueConfig, denied, dos_lock, wait_loop, wait_for_token, allow_quota,
  allow_token, record_call,
}
use p2p_thief.Limiter.Gates.{IsSafe}
use p2p_thief.Limiter.Queue.{WaitEnds, wait_for_token_fate, wait_loop-starved}
use p2p_thief.Prelude.{ℕ, List}
use p2p_thief.Gatekeeper.{Attempt, transient_error, returns, execute}
use p2p_thief.Gatekeeper.Retries.{Logs, execute-Logs}
use p2p_thief.Limiter.Deadline.{IsOver, wait_for_token-IsOver}
use p2p_thief.Tests.Samples.{millionths}

abbrev small_limiter : ServiceLimiter millionths
small_limiter = record {
  bucket = record { capacity = 5000000; refill_per_sec = 83333; tokens = 0; last = 0 };
  quota = record { threshold = pos 50; window_start = 0; count = 5 };
  dos = record { trip_after = pos 2; consecutive_denials = 0; locked = false };
  waiters = pos 0;
}

abbrev small_poll : Poll millionths
small_poll = record { quota_now = 0; quota_again = 0; bucket_now = 100000; deadline_now = 100000 }

small_limiter-IsSafe : IsSafe millionths small_limiter
small_limiter-IsSafe = record {
  quota_floor = omega arith;
  quota_room = omega arith;
  limit = omega arith;
  fuse = λ h. omega arith;
}

abbrev small_queue : QueueConfig millionths
small_queue = record { max_depth = pos 100; wait_timeout_seconds = 300000000 }

wait_for_token_fate_example :
    WaitEnds millionths small_limiter
      (wait_for_token millionths small_limiter small_queue 0 (small_poll ∷ small_poll ∷ []))
wait_for_token_fate_example =
    wait_for_token_fate millionths small_limiter small_queue 0 (small_poll ∷ small_poll ∷ [])
      small_limiter-IsSafe

wait_loop-starved_example :
    (l' : ServiceLimiter millionths) × (wait_loop millionths 0 300000000 small_limiter
        (small_poll ∷ (small_poll ∷ []) ++ (small_poll ∷ []))
      ≡ denied dos_lock l' [])
    × (l'.dos.locked ≡ true)
unfolding allow_quota allow_token record_call
wait_loop-starved_example =
    wait_loop-starved millionths 0 300000000 (small_poll ∷ []) small_limiter small_poll small_poll
      [] refl refl refl

-- A limiter with tokens, and a call that fails once.
abbrev ready_limiter : ServiceLimiter millionths
ready_limiter = record small_limiter { bucket = record small_limiter.bucket { tokens = 5000000 } }

ready_limiter-IsSafe : IsSafe millionths ready_limiter
ready_limiter-IsSafe = record {
  quota_floor = omega arith;
  quota_room = omega arith;
  limit = omega arith;
  fuse = λ h. omega arith;
}

abbrev small_attempts : List (Attempt millionths ℕ)
small_attempts =
    record { start = 0; polls = small_poll ∷ []; call = transient_error }
    ∷ record { start = 0; polls = small_poll ∷ []; call = returns 7 }
    ∷ []

execute-Logs_example :
    Logs millionths 3 small_queue 0 []
      (execute millionths (pos 3) small_queue ready_limiter [] small_attempts)
execute-Logs_example =
    execute-Logs millionths 3 small_queue ready_limiter [] small_attempts ready_limiter-IsSafe

-- A poll that reads the clock past the deadline.
abbrev late_poll : Poll millionths
late_poll = record small_poll { deadline_now = 300000000 }

wait_for_token-IsOver_example :
    IsOver millionths
      (wait_for_token millionths small_limiter small_queue 0 (small_poll ∷ late_poll ∷ []))
wait_for_token-IsOver_example =
    wait_for_token-IsOver millionths small_limiter small_queue 0 (small_poll ∷ late_poll ∷ []) refl
