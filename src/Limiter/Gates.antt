-- ===== src/Limiter/Gates.antt =====
-- What the gates of a service keep: the quota within its threshold, and the breaker unlocked only below
-- its limit of denials.
use p2p_thief.Prelude.{
  ◌≡◌, refl, Bool, true, false, not, if◌then◌else◌, none, some, arith, if_true, if_false, ap, ◌∙◌,
  Bool-cases, inl, inr,
}
use p2p_thief.Prelude.Int.{pos, ◌≤ℤ◌, ◌<ℤ◌}
use p2p_thief.Scent.Float.{Floats, gef}
use p2p_thief.Limiter.{
  dos_lock, quota_reached, bucket_empty, TokenBucket, QuotaManager, DosDetector, ServiceLimiter,
  Poll, allow_token, allow_quota, count_call, record_call, check,
}

module _ (F : Floats) where
  pub record IsSafe (l : ServiceLimiter F) : Type 0 where
    pub quota_floor : pos 0 ≤ℤ l.quota.threshold
    pub quota_room : pos l.quota.count ≤ℤ l.quota.threshold
    pub limit : pos 0 <ℤ l.dos.trip_after
    pub fuse : l.dos.locked ≡ false → pos l.dos.consecutive_denials <ℤ l.dos.trip_after

  count_call-room :
      (q : QuotaManager F)
      → pos q.count ≤ℤ q.threshold
      → (pos (count_call F q).0.count ≤ℤ q.threshold) × ((count_call F q).0.threshold ≡ q.threshold)
  count_call-room q h = ground arith

  allow_quota-room :
      (q : QuotaManager F) (now again : F.Float)
      → pos 0 ≤ℤ q.threshold
      → pos q.count ≤ℤ q.threshold
      → (pos (allow_quota F q now again).0.count ≤ℤ q.threshold)
        × ((allow_quota F q now again).0.threshold ≡ q.threshold)
  unfolding allow_quota
  allow_quota-room q now again floor room =
      elim (Bool-cases (gef F (F.sub now q.window_start) (F.lit 86400 0))) [
        | inl over ↦ rw over (count_call-room (record q { window_start = again; count = 0 }) floor)
        | inr early ↦ rw early (count_call-room q room)
      ]

  record_call-fuse :
      (d : DosDetector F) (b : Bool)
      → pos 0 <ℤ d.trip_after
      → (d.locked ≡ false → pos d.consecutive_denials <ℤ d.trip_after)
      → (record_call F d b).locked ≡ false
      → pos (record_call F d b).consecutive_denials <ℤ (record_call F d b).trip_after
  unfolding record_call
  record_call-fuse d true limit fuse open_yet = limit
  record_call-fuse d false limit fuse open_yet = ground arith

  record_call-limit : (d : DosDetector F) (b : Bool) → (record_call F d b).trip_after ≡ d.trip_after
  unfolding record_call
  record_call-limit d true = refl
  record_call-limit d false = refl

  -- A limiter whose quota and breaker have been through one call.
  called-IsSafe :
      (l : ServiceLimiter F) (q : QuotaManager F) (b : TokenBucket F) (passed : Bool)
      → IsSafe l
      → (pos q.count ≤ℤ l.quota.threshold) × (q.threshold ≡ l.quota.threshold)
      → IsSafe (record l { quota = q; bucket = b; dos = record_call F l.dos passed })
  called-IsSafe l q b passed safe (room, same) = record {
    quota_floor = rw same safe.quota_floor;
    quota_room = rw same room;
    limit = rw (record_call-limit l.dos passed) safe.limit;
    fuse = record_call-fuse l.dos passed safe.limit safe.fuse;
  }

  -- The three ways through the gates.
  module _ (l : ServiceLimiter F) (p : Poll F) where
    abbrev pub quota_after : QuotaManager F × Bool
    quota_after = allow_quota F l.quota p.quota_now p.quota_again

    abbrev pub bucket_after : TokenBucket F × Bool
    bucket_after = allow_token F l.bucket p.bucket_now

    pub check-locked : l.dos.locked ≡ true → check F l p ≡ (l, some dos_lock)
    unfolding check
    check-locked shut = if_true l.dos.locked _ _ shut

    pub check-full :
        l.dos.locked ≡ false
        → quota_after.1 ≡ false
        → check F l p ≡ (
          record l { quota = quota_after.0; dos = record_call F l.dos false },
          some quota_reached,
        )
    unfolding check
    check-full alive full =
        if_false l.dos.locked _ _ alive ∙ if_true (not quota_after.1) _ _ (ap not full)

    pub check-called :
        l.dos.locked ≡ false
        → quota_after.1 ≡ true
        → check F l p ≡ (
          record l {
            quota = quota_after.0;
            bucket = bucket_after.0;
            dos = record_call F l.dos bucket_after.1;
          },
          if bucket_after.1 then none else some bucket_empty,
        )
    unfolding check
    check-called alive room =
        if_false l.dos.locked _ _ alive ∙ if_false (not quota_after.1) _ _ (ap not room)

  -- The gates keep a limiter safe, and leave its queue alone.
  pub check-IsSafe :
      (l : ServiceLimiter F) (p : Poll F)
      → IsSafe l
      → IsSafe (check F l p).0 × ((check F l p).0.waiters ≡ l.waiters)
  check-IsSafe l p safe =
      let q = allow_quota F l.quota p.quota_now p.quota_again in
      let kept =
        allow_quota-room l.quota p.quota_now p.quota_again safe.quota_floor safe.quota_room in
      elim (Bool-cases l.dos.locked) [
        | inl shut ↦ rw (check-locked l p shut) (safe, refl)
        | inr alive ↦ elim (Bool-cases q.1) [
          | inr full ↦
              rw (check-full l p alive full) (called-IsSafe l q.0 l.bucket false safe kept, refl)
          | inl room ↦
              let b = allow_token F l.bucket p.bucket_now in
              rw (check-called l p alive room) (called-IsSafe l q.0 b.0 b.1 safe kept, refl)
        ]
      ]
