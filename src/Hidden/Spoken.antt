-- ===== src/Hidden/Spoken.antt =====
-- What an own half-turn makes of the own state, and that the other peer accepts what it sends.
use p2p_thief.Prelude.{
  Bool, true, false, not, ◌&&◌, ◌||◌, ◌≡◌, refl, sym, ap, ◌∙◌, ◌==◌, [], ◌∷◌, ◌++◌, Option, none,
  some, ok, if◌then◌else◌, text_equality, inl, inr, dict_get, has_key,
}
use p2p_thief.Prelude.Int.{pos, ◌+ℤ◌, ◌≤ℤ◌, int_laws}
use p2p_thief.Primitives.{
  Cell, thief, role_equality, Outcome, capture, survival, waiting_for_opponent,
}
use p2p_thief.Json.{Dict, null, text, boolean, number}
use p2p_thief.Scent.Float.{Floats}
use p2p_thief.OwnState.{
  OwnState, ClaimResponse, apply_own_action, own_turn, i_am_captured, close_full_turn,
}
use p2p_thief.OwnState.Actions.{own_turn-ok}
use p2p_thief.Crypto.{Hashing, commit_hash, build_step_payload}
use p2p_thief.Sealing.{OwnRecord}
use p2p_thief.Codec.{build_turn_message, parse_turn_message}
use p2p_thief.Codec.Accepts.{IsCell, IsResponse, IsWin, NullOr}
use p2p_thief.Codec.Built.{parse_turn_message-built}
use p2p_thief.Hidden.{Runtime, done, cell_json, response_json, survival_claim, some_json}
use p2p_thief.Hidden.Turns.{Texts, Outside, Decision, my_half_turn}
use p2p_thief.Hidden.Mine.{
  idle, my_payload, my_commit, is_walled, moved, wins, judged, my_message, after_mine,
  my_half_turn-done,
}
use Prim.Native.String.{String}

cell_json-IsCell : (c : Option Cell) → NullOr IsCell (some_json cell_json c)
unfolding IsCell
cell_json-IsCell none = inl refl
cell_json-IsCell (some (row, col)) = inr (number row, number col, refl, refl, refl)

response_json-IsResponse :
    {F : Floats} (r : Option (ClaimResponse F)) → NullOr IsResponse (some_json (response_json F) r)
unfolding IsResponse IsCell
response_json-IsResponse none = inl refl
response_json-IsResponse (some r) =
    inr (_, refl, (boolean r.caught, refl), (number r.claim.0, number r.claim.1, refl, refl, refl))

survival-IsWin : (b : Bool) → NullOr IsWin (if b then survival_claim else null)
unfolding IsWin
survival-IsWin true = inr (_, refl, "survival", refl)
survival-IsWin false = inl refl

module _ (F : Floats) (H : Hashing) (T : Texts F) (rt : Runtime F) (d : Decision)
    (o : Outside) where
  -- The runtime after a half-turn that left the own state `s` but for its outcome.
  pub record Spoken (s : OwnState F) (after : Runtime F) : Type 0 where
    pub message : Dict
    pub kept : OwnRecord
    pub own : after.own ≡ record s { outcome = after.own.outcome }
    pub waits : after.fsm.state ≡ waiting_for_opponent
    pub answered : after.pending_claim_response ≡ none
    pub pushed : after.sent ≡ message ∷ rt.sent
    pub recorded : after.exchange.own_records ≡ rt.exchange.own_records ++ (kept ∷ [])
    pub sealed : commit_hash H kept.payload kept.nonce ≡ ok kept.commit
    pub announced : dict_get "commit" message ≡ some (text kept.commit)
    pub read : Dict
    pub accepted : parse_turn_message T.int_of_text message ≡ ok read
    pub faithful : (key : String) → dict_get key read ≡ dict_get key message

  own_turn-moved :
      (s : OwnState F) (placed : Option Cell)
      → rt.own.role ≡ rt.role
      → own_turn F rt.own d.action ≡ ok (s, placed)
      → (t : OwnState F) × (apply_own_action F rt.own d.action ≡ ok (t, placed))
        × (s ≡ moved F H T rt d o t placed)
  own_turn-moved s placed same h =
      let (t, acted, made) = own_turn-ok F rt.own d.action s placed h in
      (
        t,
        acted,
        made
            ∙ ap (λ r. if r == thief && not (i_am_captured F t) then close_full_turn F t else t)
                same
            ∙ twice (rt.role == thief) (i_am_captured F t) (close_full_turn F t) t,
      )
    where
      twice :
          (a b : Bool) (x y : OwnState F)
          → (if a && not b then x else y) ≡ (if a && not (a && b) then x else y)
      twice true b x y = refl
      twice false b x y = refl

  judged-outcome :
      (t : OwnState F) (placed : Option Cell)
      → let s = moved F H T rt d o t placed in
        let j = judged F H T rt d o t placed in j ≡ record s { outcome = j.outcome }
  judged-outcome t placed =
      either (is_walled F H T rt d o t placed || wins F H T rt d o t placed)
        (moved F H T rt d o t placed)
        (if is_walled F H T rt d o t placed then capture else survival)
    where
      either :
          (b : Bool) (s : OwnState F) (v : Outcome)
          → let j = (if b then record s { outcome = v } else s) in
            j ≡ record s { outcome = j.outcome }
      either true s v = refl
      either false s v = refl

  abbrev ended : Outcome → OwnState F → OwnState F
  ended v s = record s { outcome = v }

  hashed :
      (t : OwnState F) (placed : Option Cell)
      → let s = moved F H T rt d o t placed in
        commit_hash H (my_payload F H T rt d o s) o.nonce ≡ ok (my_commit F H T rt d o s)
  unfolding commit_hash build_step_payload has_key
  hashed t placed = refl

  headed :
      (t : OwnState F) (placed : Option Cell)
      → dict_get "commit" (my_message F H T rt d o t placed)
        ≡ some (text (my_commit F H T rt d o (moved F H T rt d o t placed)))
  unfolding dict_get build_turn_message
  headed t placed = refl

  -- A half-turn whose action the own state grants and whose push is delivered returns: the own state is
  -- what the action and the boundary make of it, but for the outcome; the phase machine waits again;
  -- the one message pushed announces the commitment of the one record sealed, whose payload and nonce
  -- hash to it; and the codec of the other peer accepts that message and reads it as it was built.
  pub my_half_turn-Spoken :
      (s : OwnState F) (placed : Option Cell)
      → rt.own.role ≡ rt.role
      → pos 0 ≤ℤ rt.my_step
      → own_turn F rt.own d.action ≡ ok (s, placed)
      → o.delivered ≡ true
      → (after : Runtime F) × (my_half_turn F H T d o (idle F H T rt d o) ≡ done tt after)
        × Spoken s after
  my_half_turn-Spoken s placed same counted turned delivered =
      let (t, acted, made) = own_turn-moved s placed same turned in
      let (q, accepted, keys) =
        parse_turn_message-built T.int_of_text (rt.my_step +ℤ pos 1) rt.role d.hint
          (my_commit F H T rt d o (moved F H T rt d o t placed)) o.timestamp
          (T.write_scent (moved F H T rt d o t placed).own_scent) _ _ _ _
          (omega (int_laws, counted)) (cell_json-IsCell placed) (cell_json-IsCell _)
          (response_json-IsResponse _) (survival-IsWin (wins F H T rt d o t placed)) in
      (
        after_mine F H T rt d o t placed,
        my_half_turn-done F H T rt d o t placed acted delivered,
        record {
          message = my_message F H T rt d o t placed;
          kept = _;
          own =
              judged-outcome t placed
              ∙ ap (ended (judged F H T rt d o t placed).outcome) (sym made);
          waits = refl;
          answered = refl;
          pushed = refl;
          recorded = refl;
          sealed = hashed t placed;
          announced = headed t placed;
          read = q;
          accepted = accepted;
          faithful = keys;
        },
      )
