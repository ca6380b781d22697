-- ===== src/Sealing/Relay.antt =====
-- A whole game between two honest exchanges, and its audit.
use p2p_thief.Prelude.{Bool, true, not, ◌&&◌, ◌≡◌, refl, sym, ◌∙◌, ap, suc, List, [], ◌∷◌, ◌++◌}
use p2p_thief.Prelude.{
  map, dict_get, has_key, arith, contains, length, eqb_refl, ==_refl, text_equality,
}
use p2p_thief.Prelude.{Result, ok, err, ◌>>=◌, game_rule_error}
use p2p_thief.Primitives.{rival}
use p2p_thief.Json.{boolean}
use p2p_thief.Crypto.{
  Hashing, verified_ok, audit_loop, audit_records, verify_record, verify_commit, commit_hash,
  build_step_payload,
}
use p2p_thief.Sealing.{Key, key_equality, SealedExchange, got, failed}
use p2p_thief.Sealing.Records.{
  send_sealed, receive_sealed, own_nonces, own_verdicts, verdicts_of, with_nonces,
}
use p2p_thief.Sealing.Records.{with_verdicts, audit_theirs, apply_revealed_verdicts}
use p2p_thief.Sealing.Honest.{HalfTurn, sealed_commit, own_record, stored, completed, opened, heard}
use p2p_thief.Sealing.Honest.{send_sealed-ok, receive_sealed-ok, public-verdict}
use mathlib.Core.List.{append_assoc, append-nil}

-- No half-turn's messages have been consumed, and no turn comes twice.
abbrev pub are_fresh : List HalfTurn → List Key → Bool
are_fresh [] seen = true
are_fresh (h ∷ hs) seen =
    not (contains ("commit", h.turn) seen)
    && not (contains ("reveal", h.turn) seen)
    && are_fresh hs (("reveal", h.turn) ∷ ("commit", h.turn) ∷ seen)

module _ (H : Hashing) where
  -- One side's half-turns: each is sent, and the other side waits for it.
  abbrev pub relay :
      SealedExchange → SealedExchange → List HalfTurn → Result (SealedExchange × SealedExchange)
  relay s r [] = ok (s, r)
  relay s r (h ∷ hs) =
      send_sealed H s h.turn h.nonce h.digest h.action h.hint h.verdict >>= λ (messages, t).
      elim (receive_sealed r h.turn messages) [
        | got _ q _ ↦ relay t q hs
        | failed e ↦ err e
        | _ ↦ err game_rule_error
      ]

  -- What the two exchanges hold after a relay.
  record Relayed (s r : SealedExchange) (hs : List HalfTurn) : Type 0 where
    sender : SealedExchange
    receiver : SealedExchange
    runs : relay s r hs ≡ ok (sender, receiver)
    own : sender.own_records ≡ s.own_records ++ map (own_record H s) hs
    their : receiver.their_records ≡ r.their_records ++ map (stored H s) hs

  relay-ok :
      (s r : SealedExchange) (hs : List HalfTurn)
      → r.role ≡ rival s.role
      → r.pending ≡ []
      → are_fresh hs r.consumed ≡ true
      → Relayed s r hs
  relay-ok s r [] other empty fresh = record {
    sender = s;
    receiver = r;
    runs = refl;
    own = sym (append-nil s.own_records);
    their = sym (append-nil r.their_records);
  }
  relay-ok s r (h ∷ hs) other empty fresh =
      let rest =
        relay-ok (record s { own_records = s.own_records ++ (own_record H s h ∷ []) })
          (heard H s r h) hs other empty (ground arith) in
      record {
        sender = rest.sender;
        receiver = rest.receiver;
        runs =
            rw
              (
                send_sealed-ok H s h,
                ◌>>=◌,
                receive_sealed-ok H s r h other empty (ground arith) (ground arith),
              )
              rest.runs;
        own =
            rest.own ∙ append_assoc s.own_records (own_record H s h ∷ []) (map (own_record H s) hs);
        their = rest.their ∙ append_assoc r.their_records (stored H s h ∷ []) (map (stored H s) hs);
      }

  module _ (s : SealedExchange) where
    opened-verifies : (h : HalfTurn) → verify_record H (opened H s h) h.nonce ≡ true
    unfolding verify_record verify_commit commit_hash build_step_payload has_key
    opened-verifies h = ==_refl (sealed_commit H s h)

    audit-opened :
        (hs : List HalfTurn)
        → audit_loop H (map (opened H s) hs) (map (λ h. h.nonce) hs) ≡ verified_ok
    unfolding audit_loop
    audit-opened [] = refl
    audit-opened (h ∷ hs) = rw (opened-verifies h) (audit-opened hs)

    -- The rival adds what the audit discloses.
    with_verdicts-stored :
        (hs : List HalfTurn)
        → with_verdicts (map (stored H s) hs) (map (λ h. boolean h.verdict) hs)
          ≡ ok (map (completed H s) hs)
    with_verdicts-stored [] = refl
    with_verdicts-stored (h ∷ hs) = rw (with_verdicts-stored hs, public-verdict H s h) refl

    with_nonces-completed :
        (hs : List HalfTurn)
        → with_nonces (map (completed H s) hs) (map (λ h. h.nonce) hs) ≡ map (opened H s) hs
    with_nonces-completed [] = refl
    with_nonces-completed (h ∷ hs) = rw (with_nonces-completed hs) refl

    verdicts_of-own :
        (hs : List HalfTurn)
        → verdicts_of (map (own_record H s) hs) ≡ map (λ h. boolean h.verdict) hs
    unfolding build_step_payload dict_get
    verdicts_of-own [] = refl
    verdicts_of-own (h ∷ hs) = rw (verdicts_of-own hs) refl

    nonces-own :
        (hs : List HalfTurn) → map (λ r. r.nonce) (map (own_record H s) hs) ≡ map (λ h. h.nonce) hs
    nonces-own [] = refl
    nonces-own (h ∷ hs) = rw (nonces-own hs) refl

    length-disclosed :
        {A : Type 0} (f : HalfTurn → A) {B : Type 0} (g : HalfTurn → B) (hs : List HalfTurn)
        → length (map f hs) ≡ length (map g hs)
    length-disclosed f g [] = refl
    length-disclosed f g (h ∷ hs) = ap suc (length-disclosed f g hs)

  -- What the disclosure makes of the rival's records, and the verdict on them.
  module _ (s t q : SealedExchange) (hs : List HalfTurn) where
    verdicts-applied :
        t.own_records ≡ map (own_record H s) hs
        → q.their_records ≡ map (stored H s) hs
        → apply_revealed_verdicts q (own_verdicts t)
          ≡ ok (record q { their_records = map (completed H s) hs })
    unfolding apply_revealed_verdicts own_verdicts
    verdicts-applied own their =
        rw
          (
            own,
            their,
            verdicts_of-own s hs,
            length-disclosed s (λ h. boolean h.verdict) (stored H s) hs,
            eqb_refl (length (map (stored H s) hs)),
            with_verdicts-stored s hs,
          )
          refl

    audit-completed :
        t.own_records ≡ map (own_record H s) hs
        → (audit_theirs H (record q { their_records = map (completed H s) hs }) (own_nonces t)).1
          ≡ verified_ok
    unfolding audit_theirs own_nonces audit_records
    audit-completed own =
        rw
          (
            own,
            nonces-own s hs,
            length-disclosed s (λ h. h.nonce) (completed H s) hs,
            eqb_refl (length (map (completed H s) hs)),
            with_nonces-completed s hs,
            length-disclosed s (opened H s) (completed H s) hs,
            eqb_refl (length (map (completed H s) hs)),
          )
          (audit-opened s hs)

  -- The half-turns of a peer, sealed and sent in turn to a rival that waits for each, are all
  -- received, when no turn comes twice and the rival's buffer is empty; the verdicts then disclosed complete the
  -- rival's records, and the audit with the nonces then disclosed verifies.
  pub relay-verified :
      (s r : SealedExchange) (hs : List HalfTurn)
      → r.role ≡ rival s.role
      → s.own_records ≡ []
      → r.their_records ≡ []
      → r.pending ≡ []
      → are_fresh hs r.consumed ≡ true
      → (t q z : SealedExchange) × (relay s r hs ≡ ok (t, q))
        × (apply_revealed_verdicts q (own_verdicts t) ≡ ok z)
        × ((audit_theirs H z (own_nonces t)).1 ≡ verified_ok)
  relay-verified s r hs other none_own none_their empty fresh =
      let after = relay-ok s r hs other empty fresh in
      let own : after.sender.own_records ≡ map (own_record H s) hs =
        after.own ∙ ap (λ rs. rs ++ map (own_record H s) hs) none_own in
      let their : after.receiver.their_records ≡ map (stored H s) hs =
        after.their ∙ ap (λ rs. rs ++ map (stored H s) hs) none_their in
      (
        after.sender,
        after.receiver,
        _,
        after.runs,
        verdicts-applied s after.sender after.receiver hs own their,
        audit-completed s after.sender after.receiver hs own,
      )
