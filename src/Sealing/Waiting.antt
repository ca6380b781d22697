-- ===== src/Sealing/Waiting.antt =====
-- The wait for one message: every way it can end, and when it ends with the message.
use p2p_thief.Prelude.{◌⊎◌, sym, some, ℕ, zero, suc, ◌+◌, ◌<◌, false, ◌≡◌, refl, ◌∙◌, inl, inr}
use p2p_thief.Prelude.{List, [], ◌∷◌, none, ==_refl, contains, length, arith, Option-cases}
use p2p_thief.Prelude.{
  Error, game_rule_error, dict_get, without, dict_get-without, length-without-le,
}
use p2p_thief.Prelude.Int.{ℤ}
use p2p_thief.Sealing.{
  Message, Key, key_of, key_equality, SealedExchange, Pass, returned, continues, raised,
}
use p2p_thief.Sealing.{take_message, Wait, got, failed, expired, spent, next_loop, next}
use p2p_thief.Sealing.Receiver.{
  IsValid, Since, Since-refl, take_message-returned, take_message-continues, take_message-raised,
}
use Prim.Native.String.{String}

-- A return of the expected message: it had not been consumed, it is now, and nothing else but the
-- buffer has changed.
pub record Received (x : SealedExchange) (expected : Key) (m : Message) (y : SealedExchange)
    : Type 0 where
  pub key : key_of m ≡ expected
  pub fresh : contains expected x.consumed ≡ false
  pub consumed : y.consumed ≡ expected ∷ x.consumed
  pub role : y.role ≡ x.role
  pub cap : y.pending_cap ≡ x.pending_cap
  pub own : y.own_records ≡ x.own_records
  pub their : y.their_records ≡ x.their_records
  pub valid : IsValid y

-- A delivery has a turn that `int` refuses with this exception.
abbrev pub IsRefused : Error → List Message → Type 0
IsRefused e [] = ⊥
IsRefused e (m ∷ ms) = (m.unreadable ≡ some e) ⊎ IsRefused e ms

-- The ways a wait may end.
abbrev pub Ends : SealedExchange → Key → List Message → Wait Message → Type 0
Ends x expected stream (got m y rest) = Received x expected m y
Ends x expected stream (failed e) = (e ≡ game_rule_error) ⊎ IsRefused e stream
Ends x expected stream (expired y) = Since x y
Ends x expected stream spent = ⊥

Ends-later :
    (x : SealedExchange) (k : Key) (m : Message) (stream : List Message) (w : Wait Message)
    → Ends x k stream w
    → Ends x k (m ∷ stream) w
Ends-later x k m stream (got n y rest) ends = ends
Ends-later x k m stream (failed e) (inl rule) = inl rule
Ends-later x k m stream (failed e) (inr refused) = inr (inr refused)
Ends-later x k m stream (expired y) ends = ends
Ends-later x k m stream spent ends = ends

-- The exchange while its buffered message is handled.
abbrev pub unbuffered : SealedExchange → Key → SealedExchange
unbuffered x k = record x { pending = without k x.pending }

unbuffered-Since : (x : SealedExchange) (k : Key) → IsValid x → Since x (unbuffered x k)
unbuffered-Since x k v = record {
  role = refl;
  cap = refl;
  own = refl;
  their = refl;
  consumed = refl;
  valid = record {
    room = ground (arith, v.room, length-without-le k x.pending);
    floor = v.floor;
    keyed = λ j m e. ground (arith, v.keyed j m, dict_get-without k j x.pending);
    readable = λ j m e. ground (arith, v.readable j m, dict_get-without k j x.pending);
  };
}

-- What one pass gives, from what its three results give.
pass-Ends :
    (x : SealedExchange) (k : Key) (p : Pass) (m : Message) (rest : List Message)
    (resume : SealedExchange → Wait Message) (stream : List Message)
    → ((y : SealedExchange) → p ≡ returned y → Received x k m y)
    → ((y : SealedExchange) → p ≡ continues y → Ends x k stream (resume y))
    → ((e : Error) → p ≡ raised e → (e ≡ game_rule_error) ⊎ IsRefused e stream)
    → Ends x k stream
        (elim p [ returned y ↦ got m y rest | continues y ↦ resume y | raised e ↦ failed e ])
pass-Ends x k (returned y) m rest resume stream f g h = f y refl
pass-Ends x k (continues y) m rest resume stream f g h = g y refl
pass-Ends x k (raised e) m rest resume stream f g h = h e refl

returned-Received :
    (x0 x y : SealedExchange) (k : Key) (m : Message)
    → Since x0 x
    → take_message x k m ≡ returned y
    → Received x0 k m y
returned-Received x0 x y k m s h =
    let (hit, fresh, e) = take_message-returned x k m y h in
    rw e (record {
      key = hit;
      fresh = rw (← s.consumed) fresh;
      consumed = rw s.consumed refl;
      role = s.role;
      cap = s.cap;
      own = s.own;
      their = s.their;
      valid = record {
        room = s.valid.room;
        floor = s.valid.floor;
        keyed = s.valid.keyed;
        readable = s.valid.readable;
      };
    })

-- A wait whose message is not in the buffer.
stream-Ends :
    (x0 x : SealedExchange) (k : Key) (fuel : ℕ) (stream : List Message)
    → Since x0 x
    → dict_get k x.pending ≡ none
    → length stream < fuel
    → Ends x0 k stream (next_loop fuel x k stream)
unfolding next_loop
stream-Ends x0 x k zero stream s empty enough = absurd (omega arith)
stream-Ends x0 x k (suc fuel) [] s empty enough = rw (empty, next_loop, Ends) s
stream-Ends x0 x k (suc fuel) (m ∷ rest) s empty enough =
    rw (empty, next_loop, Ends)
      (pass-Ends x0 k (take_message x k m) m rest (λ y. next_loop fuel y k rest) (m ∷ rest)
        (λ y h. returned-Received x0 x y k m s h)
        (λ y h.
          let (since, same) = take_message-continues x k m y x0 s h in
          Ends-later x0 k m rest (next_loop fuel y k rest)
            (stream-Ends x0 y k fuel rest since (same ∙ empty) (omega arith)))
        (λ e h. elim (take_message-raised x k m x e h) [
          | inl rule ↦ inl rule
          | inr bad ↦ inr (inl bad)
        ]))

-- A wait for a message ends in one of four ways. It returns a message of the expected kind and turn,
-- which had not been consumed before and is from now on; or it raises a rule error; or it raises what
-- `int` raises on the turn of one of the deliveries; or the deadline passes. In the first and the last
-- the role, the cap and the records are as before, and the buffer is within its cap. One more pass than
-- there are deliveries, and one for the buffer, are enough.
pub next_fate :
    (x : SealedExchange) (kind : String) (turn_index : ℤ) (stream : List Message)
    → IsValid x
    → Ends x (kind, turn_index) stream (next x kind turn_index stream)
unfolding next next_loop
next_fate x kind turn_index stream v = elim (Option-cases (dict_get (kind, turn_index) x.pending)) [
  | inl empty ↦
      stream-Ends x x (kind, turn_index) (suc (length stream + 1)) stream (Since-refl x v) empty
        (omega arith)
  | inr (m, held) ↦
      rw (held, next_loop, Ends)
        (pass-Ends x k (take_message (unbuffered x k) k m) m stream
          (λ y. next_loop (length stream + 1) y k stream) stream
          (λ y h. returned-Received x (unbuffered x k) y k m (unbuffered-Since x k v) h)
          (λ y h.
            let (since, same) =
              take_message-continues (unbuffered x k) k m y x (unbuffered-Since x k v) h in
            stream-Ends x y k (length stream + 1) stream since
              (same ∙ dict_get-without k k x.pending ∙ rw (==_refl k) refl) (omega arith))
          (λ e h. elim (take_message-raised (unbuffered x k) k m x e h) [
            | inl rule ↦ inl rule
            | inr bad ↦ absurd (clash (sym (v.readable k m held) ∙ bad))
          ]))
]
  where
    k : Key
    k = (kind, turn_index)

    clash : {e : Error} → none ≡ some e → ⊥
    clash h = cc
