-- ===== src/Gatekeeper.antt =====
-- src/p2p_thief/shared/gatekeeper.py: a call behind the gates, with bounded retries. What the clock, the
-- provider and the sleeping threads do in one attempt is an argument.
pub mod Retries
use p2p_thief.Prelude.{ℕ, ◌+◌, ◌≡◌, Bool, true, false, if◌then◌else◌, List, [], ◌∷◌, ◌++◌}
use p2p_thief.Prelude.Int.{ℤ, pos, ltb_ℤ}
use p2p_thief.Scent.Float.{Floats}
use p2p_thief.Limiter.{
  Denial, ServiceLimiter, QueueConfig, Poll, granted, denied, polling, wait_for_token,
}

-- What the guarded call does: it returns, fails for the moment, or raises anything else.
pub data Call (A : Type 0) : Type 0 where
  returns : A → Call A
  transient_error : Call A
  other_error : Call A

-- An entry of the call log.
pub record LogEntry : Type 0 where
  pub attempt : ℕ
  pub is_ok : Bool

module _ (F : Floats) where
  pub record Attempt (A : Type 0) : Type 0 where
    pub start : F.Float
    pub polls : List (Poll F)
    pub call : Call A

  -- How `execute` ends, with the limiter and the call log after it; `unfinished` where the given
  -- attempts or polls end first.
  pub data Executed (A : Type 0) : Type 0 where
    returned : A → ServiceLimiter F → List LogEntry → Executed A
    failed : ServiceLimiter F → List LogEntry → Executed A
    refused : Denial → ServiceLimiter F → List LogEntry → Executed A
    raised : ServiceLimiter F → List LogEntry → Executed A
    unfinished : ServiceLimiter F → List LogEntry → Executed A

  module _ {A : Type 0} (retries : ℤ) (queue_config : QueueConfig F) where
    -- The loop, from an attempt's number on.
    unfoldable pub execute_loop :
        ℕ → ServiceLimiter F → List LogEntry → List (Attempt A) → Executed A
    execute_loop attempt l log [] = unfinished l log
    execute_loop attempt l log (a ∷ rest) = elim (wait_for_token F l queue_config a.start a.polls) [
      | polling q ↦ unfinished q log
      | denied reason q _ ↦ refused reason q log
      | granted q _ ↦ elim a.call [
        | returns v ↦ returned v q (log ++ (record { attempt = attempt + 1; is_ok = true } ∷ []))
        | other_error ↦ raised q log
        | transient_error ↦
            let logged = log ++ (record { attempt = attempt + 1; is_ok = false } ∷ []) in
            elim (ltb_ℤ retries (pos (attempt + 1))) [
              | true ↦ failed q logged
              | false ↦ execute_loop (attempt + 1) q logged rest
            ]
      ]
    ]

    unfoldable pub execute : ServiceLimiter F → List LogEntry → List (Attempt A) → Executed A
    execute l log attempts = execute_loop 0 l log attempts
