-- ===== src/Limiter/Queue.antt =====
-- The queue of a service: how a wait for a token ends, and what polling does to the breaker.
use p2p_thief.Prelude.{
  ◌+◌, ◌≡◌, ◌≢◌, refl, ap, ◌∙◌, Bool, true, false, not, ◌&&◌, List, [], ◌∷◌, ◌++◌, length, Option,
  none, some, arith, Bool-cases, inl, inr,
}
use p2p_thief.Prelude.Int.{ℤ, pos, leb_ℤ, ◌+ℤ◌, ◌-ℤ◌, int_laws}
use p2p_thief.Scent.Float.{Floats, gef}
use p2p_thief.Limiter.{
  Denial, dos_lock, quota_reached, bucket_empty, queue_full, wait_timeout, ServiceLimiter, Poll,
  QueueConfig, record_call, check,
}
use p2p_thief.Limiter.{Waited, granted, denied, polling, leave, wait_loop, wait_for_token}
use p2p_thief.Limiter.Gates.{
  IsSafe, check-IsSafe, check-called, check-locked, quota_after, bucket_after,
}

module _ (F : Floats) where
  -- The ways a wait that began at `l` may end, with one waiter more in the loop than at its ends.
  abbrev pub WaitEnds : ServiceLimiter F → Waited F → Type 0
  WaitEnds l (granted l' rest) = IsSafe F l' × (l'.waiters ≡ l.waiters)
  WaitEnds l (denied reason l' rest) =
      IsSafe F l' × (l'.waiters ≡ l.waiters) × (reason ≢ bucket_empty)
  WaitEnds l (polling l') = IsSafe F l'

  leave-enter : (w : ℤ) → (w +ℤ pos 1) -ℤ pos 1 ≡ w
  leave-enter w = omega int_laws

  left-IsSafe : (l : ServiceLimiter F) → IsSafe F l → IsSafe F (leave F l)
  left-IsSafe l s = record {
    quota_floor = s.quota_floor;
    quota_room = s.quota_room;
    limit = s.limit;
    fuse = s.fuse;
  }

  entered-IsSafe : (l : ServiceLimiter F) (w : ℤ) → IsSafe F l → IsSafe F (record l { waiters = w })
  entered-IsSafe l w s = record {
    quota_floor = s.quota_floor;
    quota_room = s.quota_room;
    limit = s.limit;
    fuse = s.fuse;
  }

  module _ (l0 : ServiceLimiter F) (start timeout : F.Float) where
    -- One pass, from the limiter `c` and the reason its gates give, and from how the loop goes on.
    pass_fate :
        (c : ServiceLimiter F) (reason : Option Denial) (late : Bool) (polls : List (Poll F))
        (resume : Waited F)
        → IsSafe F c
        → c.waiters ≡ l0.waiters +ℤ pos 1
        → WaitEnds l0 resume
        → WaitEnds l0 (elim reason [
          | none ↦ granted (leave F c) polls
          | some bucket_empty ↦ elim late [
            | true ↦ denied wait_timeout (leave F c) polls
            | false ↦ resume
          ]
          | some why ↦ denied why (leave F c) polls
        ])
    pass_fate c none late polls resume safe entered goes_on =
        (left-IsSafe c safe, ap (λ w. w -ℤ pos 1) entered ∙ leave-enter l0.waiters)
    pass_fate c (some bucket_empty) false polls resume safe entered goes_on = goes_on
    pass_fate c (some bucket_empty) true polls resume safe entered goes_on =
        (left-IsSafe c safe, ap (λ w. w -ℤ pos 1) entered ∙ leave-enter l0.waiters, λ e. cc)
    pass_fate c (some dos_lock) late polls resume safe entered goes_on =
        (left-IsSafe c safe, ap (λ w. w -ℤ pos 1) entered ∙ leave-enter l0.waiters, λ e. cc)
    pass_fate c (some quota_reached) late polls resume safe entered goes_on =
        (left-IsSafe c safe, ap (λ w. w -ℤ pos 1) entered ∙ leave-enter l0.waiters, λ e. cc)
    pass_fate c (some queue_full) late polls resume safe entered goes_on =
        (left-IsSafe c safe, ap (λ w. w -ℤ pos 1) entered ∙ leave-enter l0.waiters, λ e. cc)
    pass_fate c (some wait_timeout) late polls resume safe entered goes_on =
        (left-IsSafe c safe, ap (λ w. w -ℤ pos 1) entered ∙ leave-enter l0.waiters, λ e. cc)

    wait_loop_fate :
        (l : ServiceLimiter F) (polls : List (Poll F))
        → IsSafe F l
        → l.waiters ≡ l0.waiters +ℤ pos 1
        → WaitEnds l0 (wait_loop F start timeout l polls)
    unfolding wait_loop
    wait_loop_fate l [] safe entered = safe
    wait_loop_fate l (p ∷ polls) safe entered =
        let c = check F l p in
        let (kept, same) = check-IsSafe F l p safe in
        pass_fate c.0 c.1 (gef F (F.sub p.deadline_now start) timeout) polls
          (wait_loop F start timeout c.0 polls) kept (same ∙ entered)
          (wait_loop_fate c.0 polls kept (same ∙ entered))

  -- A wait for a token ends with as many waiters as it began with, whether it is granted or denied; it is
  -- never denied for an empty bucket, and the quota stays within its threshold and the breaker closed only
  -- below its limit of denials.
  pub wait_for_token_fate :
      (l : ServiceLimiter F) (queue_config : QueueConfig F) (start : F.Float)
      (polls : List (Poll F))
      → IsSafe F l
      → WaitEnds l (wait_for_token F l queue_config start polls)
  unfolding wait_for_token
  wait_for_token_fate l queue_config start polls safe =
      elim (Bool-cases (leb_ℤ queue_config.max_depth l.waiters)) [
        | inl crowded ↦ rw crowded (safe, refl, λ e. cc)
        | inr room ↦ rw room (
            wait_loop_fate l start queue_config.wait_timeout_seconds
              (record l { waiters = l.waiters +ℤ pos 1 }) polls
              (entered-IsSafe l (l.waiters +ℤ pos 1) safe) refl)
      ]

  -- The limiter after a poll that found the bucket empty.
  abbrev pub drained : ServiceLimiter F → Poll F → ServiceLimiter F
  drained l p = record l {
    quota = (quota_after F l p).0;
    bucket = (bucket_after F l p).0;
    dos = record_call F l.dos false;
  }

  module _ (start timeout : F.Float) where
    -- The quota has room, the bucket is empty and the deadline is ahead.
    abbrev pub finds_empty : ServiceLimiter F → Poll F → Bool
    finds_empty l p =
        (quota_after F l p).1
        && not (bucket_after F l p).1
        && not (gef F (F.sub p.deadline_now start) timeout)

    -- So it is in every one of the passes.
    abbrev pub is_starved : ServiceLimiter F → List (Poll F) → Bool
    is_starved l [] = true
    is_starved l (p ∷ polls) = finds_empty l p && is_starved (drained l p) polls

    wait_loop-empty :
        (l : ServiceLimiter F) (p : Poll F) (polls : List (Poll F))
        → l.dos.locked ≡ false
        → finds_empty l p ≡ true
        → wait_loop F start timeout l (p ∷ polls) ≡ wait_loop F start timeout (drained l p) polls
    unfolding wait_loop
    wait_loop-empty l p polls alive empty =
        let room : (quota_after F l p).1 ≡ true = ground arith in
        let dry : (bucket_after F l p).1 ≡ false = ground arith in
        let in_time : gef F (F.sub p.deadline_now start) timeout ≡ false = ground arith in
        let called = check-called F l p alive room in
        let why : (check F l p).1 ≡ some bucket_empty = ap (λ c. c.1) called ∙ rw dry refl in
        let after : (check F l p).0 ≡ drained l p = ap (λ c. c.0) called ∙ rw dry refl in
        rw (wait_loop, why, in_time, after) refl

    wait_loop-locked :
        (l : ServiceLimiter F) (p : Poll F) (polls : List (Poll F))
        → l.dos.locked ≡ true
        → wait_loop F start timeout l (p ∷ polls) ≡ denied dos_lock (leave F l) polls
    unfolding wait_loop
    wait_loop-locked l p polls shut =
        let why : (check F l p).1 ≡ some dos_lock = ap (λ c. c.1) (check-locked F l p shut) in
        let after : (check F l p).0 ≡ l = ap (λ c. c.0) (check-locked F l p shut) in
        rw (wait_loop, why, after) refl

    -- A wait on an empty bucket counts each of its polls as a denial: when the breaker is as many denials
    -- from its limit as there are polls, the last of them trips it, and the next poll is denied by the lock,
    -- although the deadline has not passed.
    pub wait_loop-starved :
        (polls : List (Poll F)) (l : ServiceLimiter F) (p q : Poll F) (rest : List (Poll F))
        → l.dos.locked ≡ false
        → l.dos.trip_after ≡ pos (l.dos.consecutive_denials + length (p ∷ polls))
        → is_starved l (p ∷ polls) ≡ true
        → (l' : ServiceLimiter F) × (wait_loop F start timeout l (p ∷ polls ++ (q ∷ rest))
            ≡ denied dos_lock l' rest)
          × (l'.dos.locked ≡ true)
    unfolding record_call
    wait_loop-starved [] l p q rest alive limit starved =
        let empty : finds_empty l p ≡ true = ground arith in
        let trips : (drained l p).dos.locked ≡ true = ground arith in
        (
          leave F (drained l p),
          wait_loop-empty l p (q ∷ rest) alive empty ∙ wait_loop-locked (drained l p) q rest trips,
          trips,
        )
    wait_loop-starved (p2 ∷ polls) l p q rest alive limit starved =
        let empty : finds_empty l p ≡ true = ground arith in
        let goes_on : is_starved (drained l p) (p2 ∷ polls) ≡ true = ground arith in
        let holds : (drained l p).dos.locked ≡ false = ground arith in
        let nearer : (drained l p).dos.trip_after
            ≡ pos ((drained l p).dos.consecutive_denials + length (p2 ∷ polls)) =
          ground arith in
        let (l', ends, shut) =
          wait_loop-starved polls (drained l p) p2 q rest holds nearer goes_on in
        (l', wait_loop-empty l p (p2 ∷ polls ++ (q ∷ rest)) alive empty ∙ ends, shut)
