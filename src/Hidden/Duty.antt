-- ===== src/Hidden/Duty.antt =====
-- The thief's duty to answer a claim truthfully, and the closing message of a capture.
use p2p_thief.Prelude.{
  Bool, true, false, ◌&&◌, ◌||◌, ◌≡◌, refl, ap, ◌∙◌, ◌==◌, ◌∷◌, Option, none, some, ok,
  text_equality, arith, Bool-cases, ◌⊎◌, inl, inr, dict_get, has_key, ==_iff,
}
use p2p_thief.Prelude.Int.{pos, ◌+ℤ◌}
use p2p_thief.Primitives.{Cell, cell_equality, thief, role_equality, capture, stay, is_ongoing}
use p2p_thief.Json.{Dict, text}
use p2p_thief.Protocol.{move}
use p2p_thief.Scent.Float.{Floats}
use p2p_thief.OwnState.{ClaimResponse, i_am_captured, answer_capture_claim, concede_declaration}
use p2p_thief.Crypto.{Hashing, commit_hash, build_step_payload}
use p2p_thief.Sealing.{role_value}
use p2p_thief.Codec.{build_turn_message, final_caught_hint}
use p2p_thief.Hidden.{Runtime, done, ends, response_json, action_json}
use p2p_thief.Hidden.Exchange.{seal_step, seal_record, send_message}
use p2p_thief.Hidden.Turns.{Texts, Outside, send_concede, answer_claim, truth_duty}
use Prim.Native.String.{String}

module _ (F : Floats) (H : Hashing) (T : Texts F) (rt : Runtime F) (o : Outside) where
  -- A claim names the thief's cell.
  abbrev pub is_hit : Option Cell → Bool
  is_hit none = false
  is_hit (some c) = c == rt.own.cell

  -- The answer that is kept for the next own message, if the game goes on.
  abbrev pub kept_answer : Option Cell → Option (ClaimResponse F)
  kept_answer none = none
  kept_answer (some c) = some (record { claim = c; caught = c == rt.own.cell })

  -- The game has ended in a capture, and the one message pushed says so, naming the own cell and
  -- announcing the commitment of a record that steps nowhere.
  pub record Conceded (after : Runtime F) : Type 0 where
    pub message : Dict
    pub nonce : String
    pub commit : String
    pub ended : after.own ≡ record rt.own { outcome = capture }
    pub cleared : after.pending_claim_response ≡ none
    pub pushed : after.sent ≡ message ∷ rt.sent
    pub says :
        dict_get "claim_response" message
        ≡ some (response_json F (record { claim = rt.own.cell; caught = true }))
    pub sealed :
        commit_hash H
          (build_step_payload
            (rt.my_step +ℤ pos 1)
            (role_value rt.exchange.role)
            rt.exchange.sub_game
            (T.digest (record rt.own { outcome = capture }))
            (action_json (move stay))
            final_caught_hint
            true)
          nonce
        ≡ ok commit
    pub announced : dict_get "commit" message ≡ some (text commit)

  -- What the closing message is sent from.
  abbrev closing : Runtime F
  closing = record rt {
    own = record rt.own { outcome = capture };
    pending_claim_response = some (record { claim = rt.own.cell; caught = true });
  }

  concedes :
      o.delivered ≡ true
      → (after : Runtime F) × (send_concede F H T o closing ≡ done tt after) × Conceded after
  unfolding send_concede seal_step seal_record send_message commit_hash build_step_payload has_key
      dict_get build_turn_message
  concedes delivered = rw delivered (
    _,
    refl,
    record {
      message = _;
      nonce = o.nonce;
      commit = _;
      ended = refl;
      cleared = refl;
      pushed = refl;
      says = refl;
      sealed = refl;
      announced = refl;
    },
  )

  -- The closing runtime with the answer to a claim of the cell `c`.
  abbrev closing_on : Cell → Runtime F
  closing_on c = record closing {
    pending_claim_response = some (record { claim = c; caught = true });
  }

  module _ (owes : (rt.role == thief && is_ongoing rt.own.outcome) ≡ true)
      (clear : rt.pending_claim_response ≡ none) where
    duty-hit :
        (c : Cell)
        → (c == rt.own.cell) ≡ true
        → truth_duty F H T (some c) o rt ≡ send_concede F H T o (closing_on c)
    unfolding truth_duty answer_claim answer_capture_claim ends
    duty-hit c hit = rw (owes, hit) refl

    duty-walled :
        (claim : Option Cell)
        → is_hit claim ≡ false
        → i_am_captured F rt.own ≡ true
        → truth_duty F H T claim o rt ≡ send_concede F H T o closing
    unfolding truth_duty answer_claim answer_capture_claim ends concede_declaration
    duty-walled none miss walled = rw (owes, clear, walled) refl
    duty-walled (some c) miss walled = rw (owes, miss, walled) refl

    duty-free :
        (claim : Option Cell)
        → is_hit claim ≡ false
        → i_am_captured F rt.own ≡ false
        → truth_duty F H T claim o rt
          ≡ done tt (record rt { pending_claim_response = kept_answer claim })
    unfolding truth_duty answer_claim answer_capture_claim
    duty-free none miss free = rw (owes, clear, free) refl
    duty-free (some c) miss free = rw (owes, miss, free) refl

    duty-Conceded :
        (claim : Option Cell)
        → truth_duty F H T claim o rt ≡ send_concede F H T o closing
        → o.delivered ≡ true
        → (after : Runtime F) × (truth_duty F H T claim o rt ≡ done tt after) × Conceded after
    duty-Conceded claim same delivered =
        let (after, sent, conceded) = concedes delivered in (after, same ∙ sent, conceded)

    -- A thief in a game that goes on, with no answer left to send, concedes when the claim names its
    -- cell or a wall captures it: the game ends in a capture and the sealed closing message says so.
    -- Otherwise nothing is sent, and the truthful answer to the claim waits for the next message.
    pub truth_duty_fate :
        (claim : Option Cell)
        → o.delivered ≡ true
        → (((is_hit claim || i_am_captured F rt.own) ≡ true)
            × (after : Runtime F) × (truth_duty F H T claim o rt ≡ done tt after)
            × Conceded after)
          ⊎ (((is_hit claim || i_am_captured F rt.own) ≡ false)
              × (truth_duty F H T claim o rt
                  ≡ done tt (record rt { pending_claim_response = kept_answer claim })))
    truth_duty_fate claim delivered = elim (Bool-cases (is_hit claim)) [
      | inl hit ↦
          let (after, sent, conceded) = duty-Conceded claim (at claim hit) delivered in
          inl (rw hit refl, after, sent, conceded)
      | inr miss ↦ elim (Bool-cases (i_am_captured F rt.own)) [
        | inl walled ↦
            let (after, sent, conceded) =
              duty-Conceded claim (duty-walled claim miss walled) delivered in
            inl (rw (miss, walled) refl, after, sent, conceded)
        | inr free ↦ inr (rw (miss, free) refl, duty-free claim miss free)
      ]
    ]
      where
        at :
            (claim : Option Cell)
            → is_hit claim ≡ true
            → truth_duty F H T claim o rt ≡ send_concede F H T o closing
        at none hit = absurd (ground arith)
        at (some c) hit =
            duty-hit c hit
            ∙ ap (λ x. send_concede F H T o (closing_on x)) ((==_iff c rt.own.cell).0 hit)
