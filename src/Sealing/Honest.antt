-- ===== src/Sealing/Honest.antt =====
-- Two exchanges that follow the flow: what the one seals and sends, the other stores, and the audit
-- at the end verifies.
use p2p_thief.Prelude.{Bool, false, ◌≡◌, refl, List, [], ◌∷◌, ◌++◌, none, some}
use p2p_thief.Prelude.{◌==◌, contains, text_equality, dict_get, has_key, without, dict_set}
use p2p_thief.Prelude.{ok}
use p2p_thief.Prelude.Int.{ℤ}
use p2p_thief.Primitives.{Role, rival, police, thief}
use p2p_thief.Json.{Json, Dict, boolean}
use p2p_thief.Crypto.{Hashing, RivalRecord, build_step_payload, commit_hash, material}
use p2p_thief.Sealing.{
  Message, key_of, key_equality, SealedExchange, OwnRecord, got, next, next_loop, role_value,
}
use p2p_thief.Sealing.Delivery.{take_message-hit}
use p2p_thief.Sealing.Records.{
  commit_message, reveal_message, send_sealed, receive_sealed, store_reveal,
}
use Prim.Native.String.{String}

-- What a peer chooses for one of its half-turns.
pub record HalfTurn : Type 0 where
  pub turn : ℤ
  pub nonce : String
  pub digest : String
  pub action : Json
  pub hint : String
  pub verdict : Bool

module _ (H : Hashing) where
  module _ (s : SealedExchange) (h : HalfTurn) where
    abbrev pub sealed_payload : Dict
    sealed_payload =
        build_step_payload h.turn (role_value s.role) s.sub_game h.digest h.action h.hint h.verdict

    abbrev pub sealed_commit : String
    sealed_commit = H.sha256_hex (material H sealed_payload h.nonce)

    abbrev pub own_record : OwnRecord
    own_record = record { payload = sealed_payload; nonce = h.nonce; commit = sealed_commit }

    abbrev pub public : Dict
    public = without "verdict" sealed_payload

    pub send_sealed-ok :
        send_sealed H s h.turn h.nonce h.digest h.action h.hint h.verdict
        ≡ ok (
          commit_message h.turn (role_value s.role) sealed_commit
              ∷ reveal_message h.turn (role_value s.role) public
              ∷ [],
          record s { own_records = s.own_records ++ (own_record ∷ []) },
        )
    unfolding send_sealed commit_hash build_step_payload has_key without
    send_sealed-ok = refl

    -- What the rival stores of it, and what that becomes when the verdict and the nonce are known.
    abbrev pub stored : RivalRecord
    stored = record { payload = some public; commit = sealed_commit; nonce = none; declared = none }

    abbrev pub completed : RivalRecord
    completed = record stored { payload = some sealed_payload }

    abbrev pub opened : RivalRecord
    opened = record completed { nonce = some h.nonce }

    pub public-verdict : dict_set "verdict" (boolean h.verdict) public ≡ sealed_payload
    unfolding without dict_set build_step_payload
    public-verdict = refl

next-direct :
    (x : SealedExchange) (kind : String) (t : ℤ) (m : Message) (rest : List Message)
    → x.pending ≡ []
    → contains (kind, t) x.consumed ≡ false
    → m.unreadable ≡ none
    → key_of m ≡ (kind, t)
    → next x kind t (m ∷ rest) ≡ got m (record x { consumed = key_of m ∷ x.consumed }) rest
unfolding next next_loop dict_get
next-direct x kind t m rest empty fresh fine hit =
    let unheld : dict_get (kind, t) x.pending ≡ none = rw empty refl in
    rw (unheld, next_loop, take_message-hit x (kind, t) m fine hit fresh) refl

role_value-rival : (a : Role) → (role_value a == role_value (rival a)) ≡ false
role_value-rival police = refl
role_value-rival thief = refl

module _ (H : Hashing) where
  -- A half-turn of `s` as the rival `r` hears it.
  module _ (s r : SealedExchange) (h : HalfTurn) where
    abbrev pub commit_msg : Message
    commit_msg = commit_message h.turn (role_value s.role) (sealed_commit H s h)

    abbrev pub reveal_msg : Message
    reveal_msg = reveal_message h.turn (role_value s.role) (public H s h)

    abbrev pub heard : SealedExchange
    heard = record r {
      consumed = ("reveal", h.turn) ∷ ("commit", h.turn) ∷ r.consumed;
      their_records = r.their_records ++ (stored H s h ∷ []);
    }

    pub receive_sealed-ok :
        r.role ≡ rival s.role
        → r.pending ≡ []
        → contains ("commit", h.turn) r.consumed ≡ false
        → contains ("reveal", h.turn) r.consumed ≡ false
        → receive_sealed r h.turn (commit_msg ∷ reveal_msg ∷ []) ≡ got (public H s h) heard []
    unfolding receive_sealed store_reveal build_step_payload without has_key contains
    receive_sealed-ok other empty fresh_commit fresh_reveal =
        rw
          (
            receive_sealed,
            next-direct r "commit" h.turn commit_msg (reveal_msg ∷ []) empty fresh_commit refl refl,
            next-direct (record r { consumed = ("commit", h.turn) ∷ r.consumed }) "reveal" h.turn
                reveal_msg [] empty fresh_reveal refl refl,
            other,
            role_value-rival s.role,
          )
          refl
