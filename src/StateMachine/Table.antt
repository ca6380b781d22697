-- ===== src/StateMachine/Table.antt =====
-- The turn table of the rulebook as a relation, and what it reaches.
use p2p_thief.Prelude.{◌≡◌, refl, ◌⊎◌, inl, inr, ◌↔◌, true, arith}
use p2p_thief.Prelude.{ok, err, illegal_transition_error}
use p2p_thief.Primitives.{GamePhase, waiting_for_opponent, computing_move, committing}
use p2p_thief.Primitives.{awaiting_reveal, verifying}
use p2p_thief.StateMachine.{GamePhaseMachine, start, transition, is_terminal}

-- Chapter 8's table: one constructor for each arrow.
pub data Leads : GamePhase → GamePhase → Type 0 where
  opponent_done : Leads waiting_for_opponent computing_move
  move_chosen : Leads computing_move committing
  compute_lapsed : Leads computing_move GamePhase.technical_loss
  committed : Leads committing awaiting_reveal
  revealed : Leads awaiting_reveal verifying
  reveal_lapsed : Leads awaiting_reveal GamePhase.technical_loss
  verified : Leads verifying waiting_for_opponent

abbrev pub Allows : GamePhaseMachine → GamePhase → Type 0
Allows m target = Leads m.state target × (transition m target ≡ ok (record { state = target }))

abbrev pub Refuses : GamePhaseMachine → GamePhase → Type 0
Refuses m target = (¬ Leads m.state target) × (transition m target ≡ err illegal_transition_error)

-- For every phase and target, `transition` moves to the target exactly along an arrow of the table,
-- and raises everywhere else.
pub transition_decides :
    (s target : GamePhase)
    → Allows (record { state = s }) target ⊎ Refuses (record { state = s }) target
unfolding transition
transition_decides waiting_for_opponent computing_move = inl (opponent_done, refl)
transition_decides computing_move committing = inl (move_chosen, refl)
transition_decides computing_move GamePhase.technical_loss = inl (compute_lapsed, refl)
transition_decides committing awaiting_reveal = inl (committed, refl)
transition_decides awaiting_reveal verifying = inl (revealed, refl)
transition_decides awaiting_reveal GamePhase.technical_loss = inl (reveal_lapsed, refl)
transition_decides verifying waiting_for_opponent = inl (verified, refl)
transition_decides waiting_for_opponent waiting_for_opponent = inr (λ l. elim l [ ], refl)
transition_decides _ _ = inr (λ l. elim l [ ], refl)

-- The phases that successful calls of `transition` lead to.
pub data Reaches : GamePhaseMachine → GamePhaseMachine → Type 0 where
  here : {m : GamePhaseMachine} → Reaches m m
  next :
      {m n u : GamePhaseMachine} (target : GamePhase)
      → transition m target ≡ ok n
      → Reaches n u
      → Reaches m u

abbrev pub at : GamePhase → GamePhaseMachine
at s = record { state = s }

-- By calls of `transition`, every phase can come to the technical loss, and every phase but that one can
-- come back to waiting for the opponent. The technical loss alone is terminal, and every call from it
-- raises.
pub phase_fate :
    (s : GamePhase)
    → Reaches (at s) (at GamePhase.technical_loss)
      × ((s ≡ GamePhase.technical_loss) ⊎ Reaches (at s) start)
      × ((is_terminal (at s) ≡ true) ↔ (s ≡ GamePhase.technical_loss))
      × ((t : GamePhase)
          → transition (at GamePhase.technical_loss) t ≡ err illegal_transition_error)
unfolding is_terminal transition
phase_fate s = (lost s, returns s, (ground arith, ground arith), λ t. refl)
  where
    lost : (s : GamePhase) → Reaches (at s) (at GamePhase.technical_loss)
    lost waiting_for_opponent = next computing_move refl (next GamePhase.technical_loss refl here)
    lost computing_move = next GamePhase.technical_loss refl here
    lost committing = next awaiting_reveal refl (next GamePhase.technical_loss refl here)
    lost awaiting_reveal = next GamePhase.technical_loss refl here
    lost verifying =
        next waiting_for_opponent refl
          (next computing_move refl (next GamePhase.technical_loss refl here))
    lost GamePhase.technical_loss = here

    returns : (s : GamePhase) → (s ≡ GamePhase.technical_loss) ⊎ Reaches (at s) start
    returns waiting_for_opponent = inr here
    returns computing_move = inr (
        next committing refl
          (next awaiting_reveal refl (next verifying refl (next waiting_for_opponent refl here))))
    returns committing =
        inr (next awaiting_reveal refl (next verifying refl (next waiting_for_opponent refl here)))
    returns awaiting_reveal = inr (next verifying refl (next waiting_for_opponent refl here))
    returns verifying = inr (next waiting_for_opponent refl here)
    returns GamePhase.technical_loss = inl refl
