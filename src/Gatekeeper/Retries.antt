-- ===== src/Gatekeeper/Retries.antt =====
-- How often a call is tried, and what its log says of it.
use p2p_thief.Prelude.{
  ℕ, suc, zero, ◌+◌, ◌≡◌, ◌≤◌, refl, sym, ap, ◌∙◌, true, false, List, [], ◌∷◌, ◌++◌, arith,
  Bool-cases, inl, inr,
}
use p2p_thief.Prelude.Int.{pos, ltb_ℤ}
use p2p_thief.Scent.Float.{Floats}
use p2p_thief.Limiter.{
  ServiceLimiter, QueueConfig, Waited, granted, denied, polling, wait_for_token,
}
use p2p_thief.Limiter.Gates.{IsSafe}
use p2p_thief.Limiter.Queue.{WaitEnds, wait_for_token_fate}
use p2p_thief.Gatekeeper.{
  Call, returns, transient_error, other_error, LogEntry, Attempt, Executed, returned, failed,
  refused, raised, unfinished, execute_loop, execute,
}
use mathlib.Core.List.{append_assoc, append-nil}

-- The log of `n` failed attempts after the first `done`.
abbrev pub failures : ℕ → ℕ → List LogEntry
failures done zero = []
failures done (suc n) = record { attempt = done + 1; is_ok = false } ∷ failures (done + 1) n

abbrev pub success : ℕ → List LogEntry
success done = record { attempt = done + 1; is_ok = true } ∷ []

module _ (F : Floats) {A : Type 0} (r : ℕ) (queue_config : QueueConfig F) where
  -- What an execution that has tried `done` times may still log, beyond `log`.
  abbrev pub Logs : ℕ → List LogEntry → Executed F A → Type 0
  Logs done log (returned v l after) =
      (n : ℕ) × (done + n ≤ r)
      × (after ≡ log ++ (failures done n ++ success (done + n)))
      × IsSafe F l
  Logs done log (failed l after) =
      (n : ℕ) × (done + n ≡ r + 1) × (after ≡ log ++ failures done n) × IsSafe F l
  Logs done log (refused reason l after) =
      (n : ℕ) × (done + n ≤ r) × (after ≡ log ++ failures done n) × IsSafe F l
  Logs done log (raised l after) =
      (n : ℕ) × (done + n ≤ r) × (after ≡ log ++ failures done n) × IsSafe F l
  Logs done log (unfinished l after) =
      (n : ℕ) × (done + n ≤ r) × (after ≡ log ++ failures done n) × IsSafe F l

  -- One failed attempt more.
  later :
      (done : ℕ) (log : List LogEntry) (x : Executed F A)
      → Logs (done + 1) (log ++ failures done 1) x
      → Logs done log x
  later done log (returned v l after) (n, le, e, s) = (
    suc n,
    omega arith,
    e
        ∙ append_assoc log (failures done 1) _
        ∙ ap (λ k. log ++ (failures done (suc n) ++ success k)) next,
    s,
  )
    where
      next : done + 1 + n ≡ done + suc n
      next = omega arith
  later done log (failed l after) (n, eq, e, s) =
      (suc n, omega arith, e ∙ append_assoc log (failures done 1) _, s)
  later done log (refused reason l after) (n, le, e, s) =
      (suc n, omega arith, e ∙ append_assoc log (failures done 1) _, s)
  later done log (raised l after) (n, le, e, s) =
      (suc n, omega arith, e ∙ append_assoc log (failures done 1) _, s)
  later done log (unfinished l after) (n, le, e, s) =
      (suc n, omega arith, e ∙ append_assoc log (failures done 1) _, s)

  -- One attempt, from how its wait ends, what its call does and how the loop goes on.
  attempt-Logs :
      (done : ℕ) (l : ServiceLimiter F) (log : List LogEntry) (w : Waited F) (c : Call A)
      (resume : ServiceLimiter F → Executed F A)
      → done ≤ r
      → WaitEnds F l w
      → ((q : ServiceLimiter F)
          → IsSafe F q
          → done + 1 ≤ r
          → Logs (done + 1) (log ++ failures done 1) (resume q))
      → Logs done log (elim w [
        | polling q ↦ unfinished q log
        | denied reason q _ ↦ refused reason q log
        | granted q _ ↦ elim c [
          | returns v ↦ returned v q (log ++ success done)
          | other_error ↦ raised q log
          | transient_error ↦ elim (ltb_ℤ (pos r) (pos (done + 1))) [
            | true ↦ failed q (log ++ failures done 1)
            | false ↦ resume q
          ]
        ]
      ])
  attempt-Logs done l log (polling q) c resume le ends goes_on =
      (0, omega arith, sym (append-nil log), ends)
  attempt-Logs done l log (denied reason q rest) c resume le ends goes_on =
      (0, omega arith, sym (append-nil log), ends.0)
  attempt-Logs done l log (granted q rest) (returns v) resume le ends goes_on =
      (0, omega arith, ap (λ k. log ++ success k) none_more, ends.0)
    where
      none_more : done ≡ done + 0
      none_more = omega arith
  attempt-Logs done l log (granted q rest) other_error resume le ends goes_on =
      (0, omega arith, sym (append-nil log), ends.0)
  attempt-Logs done l log (granted q rest) transient_error resume le ends goes_on =
      elim (Bool-cases (ltb_ℤ (pos r) (pos (done + 1)))) [
        | inl last ↦ rw last (1, ground arith, refl, ends.0)
        | inr more ↦ rw more (later done log (resume q) (goes_on q ends.0 (ground arith)))
      ]

  execute_loop-Logs :
      (done : ℕ) (l : ServiceLimiter F) (log : List LogEntry) (attempts : List (Attempt F A))
      → done ≤ r
      → IsSafe F l
      → Logs done log (execute_loop F (pos r) queue_config done l log attempts)
  unfolding execute_loop
  execute_loop-Logs done l log [] le safe = (0, omega arith, sym (append-nil log), safe)
  execute_loop-Logs done l log (a ∷ rest) le safe =
      attempt-Logs done l log (wait_for_token F l queue_config a.start a.polls) a.call
        (λ q. execute_loop F (pos r) queue_config (done + 1) q (log ++ failures done 1) rest) le
        (wait_for_token_fate F l queue_config a.start a.polls safe)
        (λ q s more. execute_loop-Logs (done + 1) q (log ++ failures done 1) rest more s)

  -- A guarded call is tried at most once more than its retries. Each try that returns or fails by a
  -- transient error adds its entry to the log in order, numbered from 1: all failed but the last of a
  -- call that returns. A try that raises any other error ends the call and adds none. The call fails for
  -- good exactly after that many failures; however it ends, the gates are within their limits.
  pub execute-Logs :
      (l : ServiceLimiter F) (log : List LogEntry) (attempts : List (Attempt F A))
      → IsSafe F l
      → Logs 0 log (execute F (pos r) queue_config l log attempts)
  unfolding execute
  execute-Logs l log attempts safe = execute_loop-Logs 0 l log attempts (omega arith) safe
