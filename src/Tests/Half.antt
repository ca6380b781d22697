-- ===== src/Tests/Half.antt =====
-- Runs of the half-turns of the hidden wire.
use p2p_thief.Prelude.{true, false, ◌≡◌, refl, ◌||◌, [], none, some, arith, ◌⊎◌}
use p2p_thief.Prelude.Int.{pos}
use p2p_thief.Primitives.{thief, north}
use p2p_thief.Json.{no_members}
use p2p_thief.Protocol.{move}
use p2p_thief.StateMachine.{start}
use p2p_thief.Crypto.{Hashing}
use p2p_thief.OwnState.{i_am_captured}
use p2p_thief.Hidden.{Runtime, done}
use p2p_thief.Hidden.Turns.{Texts, Outside, Decision, my_half_turn, truth_duty}
use p2p_thief.Hidden.Mine.{idle}
use p2p_thief.Hidden.Spoken.{Spoken, my_half_turn-Spoken}
use p2p_thief.Hidden.Duty.{Conceded, kept_answer, is_hit, truth_duty_fate}
use p2p_thief.Tests.Samples.{millionths}
use p2p_thief.Tests.Hidden.{small_thief, stepped_thief, wire_run}

abbrev plain_hashing : Hashing
plain_hashing = record { canonical = λ p. "p"; sha256_hex = λ s. s }

abbrev plain_texts : Texts millionths
plain_texts = record {
  int_of_text = λ t. none;
  write_scent = λ s. no_members;
  read_scent = λ m. [];
  digest = λ s. "d";
}

abbrev small_outside : Outside
small_outside = record { nonce = "n1"; timestamp = "noon"; delivered = true }

abbrev small_decision : Decision
small_decision = record { action = move north; hint = "near"; truth = true; plausible = true }

abbrev pub small_runtime : Runtime millionths
small_runtime = record {
  role = thief;
  own = small_thief;
  exchange = record {
    role = thief;
    sub_game = pos 1;
    pending_cap = pos 4;
    own_records = [];
    their_records = [];
    consumed = [];
    pending = [];
  };
  last_sent = none;
  expected_turn = pos 0;
  pending_claim_response = none;
  my_step = pos 0;
  their_step = pos 0;
  fsm = start;
  sent = [];
  inbox = [];
}

my_half_turn-Spoken_example :
    (after : Runtime millionths) × (my_half_turn millionths plain_hashing plain_texts small_decision
        small_outside
        (idle millionths plain_hashing plain_texts small_runtime small_decision small_outside)
      ≡ done tt after)
    × Spoken millionths plain_hashing plain_texts small_runtime small_decision small_outside
        stepped_thief.0 after
unfolding wire_run
my_half_turn-Spoken_example =
    my_half_turn-Spoken millionths plain_hashing plain_texts small_runtime small_decision
      small_outside stepped_thief.0 none refl (omega arith) refl refl

-- A claim of the thief's own cell.
truth_duty_fate_example :
    (((is_hit millionths plain_hashing plain_texts small_runtime small_outside (some (pos 2, pos 2))
          || i_am_captured millionths small_thief)
        ≡ true)
      × (after : Runtime millionths) × (truth_duty millionths plain_hashing plain_texts
            (some (pos 2, pos 2))
            small_outside
            small_runtime
          ≡ done tt after)
      × Conceded millionths plain_hashing plain_texts small_runtime small_outside after)
    ⊎ (((is_hit millionths plain_hashing plain_texts small_runtime small_outside
              (some (pos 2, pos 2))
            || i_am_captured millionths small_thief)
          ≡ false)
        × (truth_duty millionths plain_hashing plain_texts
              (some (pos 2, pos 2))
              small_outside
              small_runtime
            ≡ done tt (record small_runtime {
              pending_claim_response =
                  kept_answer millionths plain_hashing plain_texts small_runtime small_outside
                    (some (pos 2, pos 2));
            })))
truth_duty_fate_example =
    truth_duty_fate millionths plain_hashing plain_texts small_runtime small_outside refl refl
      (some (pos 2, pos 2)) refl
