-- ===== src/Limiter.antt =====
-- src/p2p_thief/shared/rate_limiter.py: the token bucket, the daily quota and the circuit breaker of one
-- service. Each reading of the clock is an argument.
pub mod Gates
pub mod Queue
pub mod Deadline
use p2p_thief.Prelude.{
  ℕ, ◌+◌, ◌≡◌, Bool, true, false, not, ◌&&◌, ◌||◌, if◌then◌else◌, List, [], ◌∷◌, Option, none, some,
}
use p2p_thief.Prelude.{Result, ok, err, value_error, raise_if, ◌>>=◌, ◌>>◌}
use p2p_thief.Prelude.Int.{ℤ, pos, leb_ℤ, ltb_ℤ, ◌+ℤ◌, ◌-ℤ◌}
use p2p_thief.Scent.Float.{Floats, min_float, gef}

-- The reason of a RateLimitDeniedError.
pub data Denial : Type 0 where
  dos_lock quota_reached bucket_empty queue_full wait_timeout : Denial

module _ (F : Floats) where
  open F use {Float, zero_float, lit, add, sub, mul, div, ltf}

  pub record TokenBucket : Type 0 where
    pub capacity : Float
    pub refill_per_sec : Float
    pub tokens : Float
    pub last : Float

  unfoldable pub new_bucket : Float → Float → Result TokenBucket
  new_bucket requests_per_minute now = do
    raise_if (gef F zero_float requests_per_minute) value_error
    ok (record {
      capacity = requests_per_minute;
      refill_per_sec = div requests_per_minute (lit 60 0);
      tokens = requests_per_minute;
      last = now;
    })

  abbrev pub refilled : TokenBucket → Float → Float
  refilled b now = min_float F b.capacity (add b.tokens (mul (sub now b.last) b.refill_per_sec))

  -- `TokenBucket.allow` with its cost of 1.0.
  unfoldable pub allow_token : TokenBucket → Float → TokenBucket × Bool
  allow_token b now =
      let t = refilled b now in
      if gef F t (lit 1 0)
      then (record b { tokens = sub t (lit 1 0); last = now }, true)
      else (record b { tokens = t; last = now }, false)

  pub record QuotaManager : Type 0 where
    pub threshold : ℤ
    pub window_start : Float
    pub count : ℕ

  -- The second reading of the clock is used when the day is over.
  abbrev pub roll_window : QuotaManager → Float → Float → QuotaManager
  roll_window q now again =
      if gef F (sub now q.window_start) (lit 86400 0)
      then record q { window_start = again; count = 0 }
      else q

  abbrev pub count_call : QuotaManager → QuotaManager × Bool
  count_call q =
      if leb_ℤ q.threshold (pos q.count)
      then (q, false)
      else (record q { count = q.count + 1 }, true)

  unfoldable pub allow_quota : QuotaManager → Float → Float → QuotaManager × Bool
  allow_quota q now again = count_call (roll_window q now again)

  pub record DosDetector : Type 0 where
    pub trip_after : ℤ
    pub consecutive_denials : ℕ
    pub locked : Bool

  unfoldable pub record_call : DosDetector → Bool → DosDetector
  record_call d true = record d { consecutive_denials = 0 }
  record_call d false = record d {
    consecutive_denials = d.consecutive_denials + 1;
    locked = d.locked || leb_ℤ d.trip_after (pos (d.consecutive_denials + 1));
  }

  pub record ServiceLimiter : Type 0 where
    pub bucket : TokenBucket
    pub quota : QuotaManager
    pub dos : DosDetector
    pub waiters : ℤ

  -- The readings of the clock in one pass of a wait.
  pub record Poll : Type 0 where
    pub quota_now : Float
    pub quota_again : Float
    pub bucket_now : Float
    pub deadline_now : Float

  -- The limiter after the gates, and the reason where one refuses.
  unfoldable pub check : ServiceLimiter → Poll → ServiceLimiter × Option Denial
  check l p =
      if l.dos.locked
      then (l, some dos_lock)
      else (let q = allow_quota l.quota p.quota_now p.quota_again in
          if not q.1
          then (record l { quota = q.0; dos = record_call l.dos false }, some quota_reached)
          else (let b = allow_token l.bucket p.bucket_now in
              (
                record l { quota = q.0; bucket = b.0; dos = record_call l.dos b.1 },
                if b.1 then none else some bucket_empty,
              )))

  -- How a wait ends: granted, denied, or still polling when the given readings end.
  pub data Waited : Type 0 where
    granted : ServiceLimiter → List Poll → Waited
    denied : Denial → ServiceLimiter → List Poll → Waited
    polling : ServiceLimiter → Waited

  -- `waiters -= 1`, in the `finally` block.
  abbrev pub leave : ServiceLimiter → ServiceLimiter
  leave l = record l { waiters = l.waiters -ℤ pos 1 }

  -- The loop of `wait_for_token`, one pass for each poll.
  unfoldable pub wait_loop : Float → Float → ServiceLimiter → List Poll → Waited
  wait_loop start timeout l [] = polling l
  wait_loop start timeout l (p ∷ polls) =
      let checked = check l p in
      elim checked.1 [
        | none ↦ granted (leave checked.0) polls
        | some bucket_empty ↦ elim (gef F (sub p.deadline_now start) timeout) [
          | true ↦ denied wait_timeout (leave checked.0) polls
          | false ↦ wait_loop start timeout checked.0 polls
        ]
        | some reason ↦ denied reason (leave checked.0) polls
      ]

  pub record QueueConfig : Type 0 where
    pub max_depth : ℤ
    pub wait_timeout_seconds : Float

  unfoldable pub wait_for_token : ServiceLimiter → QueueConfig → Float → List Poll → Waited
  wait_for_token l queue_config start polls =
      if leb_ℤ queue_config.max_depth l.waiters
      then denied queue_full l polls
      else wait_loop start queue_config.wait_timeout_seconds
          (record l { waiters = l.waiters +ℤ pos 1 }) polls
