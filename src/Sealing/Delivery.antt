-- ===== src/Sealing/Delivery.antt =====
-- When a wait ends with its message.
use p2p_thief.Prelude.{
  ℕ, zero, suc, ◌+◌, ◌<◌, Bool, true, false, not, ◌&&◌, ◌≡◌, refl, ◌∙◌, inl, inr,
}
use p2p_thief.Prelude.{
  List, [], ◌∷◌, Option, none, some, ◌==◌, ==_iff, contains, length, all, arith, Bool-cases,
  Option-cases,
}
use p2p_thief.Prelude.{if◌then◌else◌, dict_get, dict_set, dict_get-set, length-dict_set-le}
use p2p_thief.Prelude.Int.{ℤ, pos, ◌≤ℤ◌, leb_ℤ}
use p2p_thief.Sealing.{Message, Key, key_of, key_equality, SealedExchange, returned, continues}
use p2p_thief.Sealing.{take_keyed, take_message, is_conflict, got, next_loop, next}
use p2p_thief.Sealing.Receiver.{IsValid, take_message-readable}
use p2p_thief.Sealing.Waiting.{unbuffered}
use Prim.Native.String.{String}

-- The first delivery with a key.
abbrev pub first_arrival : Key → List Message → Option Message
first_arrival k [] = none
first_arrival k (m ∷ ms) = if key_of m == k then some m else first_arrival k ms

abbrev pub is_readable : Message → Bool
is_readable m = elim m.unreadable [ none ↦ true | some e ↦ false ]

-- Every delivery has a turn that `int` reads, and none is a second, different commit for a consumed
-- step.
abbrev pub is_honest : SealedExchange → List Message → Bool
is_honest x ms =
    all (λ m. is_readable m && not (contains (key_of m) x.consumed && is_conflict x m)) ms

readable_none : (m : Message) → is_readable m ≡ true → m.unreadable ≡ none
readable_none m h = ground arith

-- The message an exchange holds or is about to receive.
abbrev pub arrival : SealedExchange → Key → List Message → Option Message
arrival x k stream = elim (dict_get k x.pending) [ some m ↦ some m | none ↦ first_arrival k stream ]

-- What a pass does with a message that is not in conflict, while there is room.
pub take_message-hit :
    (x : SealedExchange) (k : Key) (m : Message)
    → m.unreadable ≡ none
    → key_of m ≡ k
    → contains k x.consumed ≡ false
    → take_message x k m ≡ returned (record x { consumed = key_of m ∷ x.consumed })
unfolding take_keyed
take_message-hit x k m fine hit fresh =
    take_message-readable x k m x fine
    ∙ let unseen : contains (key_of m) x.consumed ≡ false = rw hit fresh in
      rw (unseen, (==_iff (key_of m) k).1 hit) refl

honest_buffer :
    (x : SealedExchange) (held : List (Key × Message)) (ms : List Message)
    → is_honest (record x { pending = held }) ms ≡ is_honest x ms
unfolding is_conflict
honest_buffer x held ms = refl

take_message-duplicate :
    (x : SealedExchange) (k : Key) (m : Message)
    → m.unreadable ≡ none
    → contains (key_of m) x.consumed ≡ true
    → is_conflict x m ≡ false
    → take_message x k m ≡ continues x
unfolding take_keyed
take_message-duplicate x k m fine seen same =
    take_message-readable x k m x fine ∙ rw (seen, same) refl

take_message-other :
    (x : SealedExchange) (k : Key) (m : Message)
    → m.unreadable ≡ none
    → contains (key_of m) x.consumed ≡ false
    → (key_of m == k) ≡ false
    → leb_ℤ x.pending_cap (pos (length x.pending)) ≡ false
    → take_message x k m ≡ continues (record x { pending = dict_set (key_of m) m x.pending })
unfolding take_keyed
take_message-other x k m fine unseen other free =
    take_message-readable x k m x fine ∙ rw (unseen, other, free) refl

abbrev consuming : SealedExchange → Message → SealedExchange
consuming x m = record x { consumed = key_of m ∷ x.consumed }

module _ (k : Key) (m : Message) where
  -- A delivery from the transport.
  delivered :
      (x : SealedExchange) (fuel : ℕ) (stream : List Message)
      → dict_get k x.pending ≡ none
      → contains k x.consumed ≡ false
      → pos (length x.pending + length stream) ≤ℤ x.pending_cap
      → is_honest x stream ≡ true
      → first_arrival k stream ≡ some m
      → length stream < fuel
      → (y : SealedExchange) × (rest : List Message) × (next_loop fuel x k stream ≡ got m y rest)
  unfolding next_loop
  delivered x zero stream empty fresh room honest here enough = absurd (omega arith)
  delivered x (suc fuel) [] empty fresh room honest here enough = absurd (cc)
  delivered x (suc fuel) (n ∷ rest) empty fresh room honest here enough =
      elim (Bool-cases (key_of n == k)) [
        | inl hit ↦
            rw
              (
                empty,
                next_loop,
                take_message-hit x k n (readable_none n (ground arith))
                    ((==_iff (key_of n) k).0 hit) fresh,
              )
              (consuming x n, rest, ground arith)
        | inr other ↦ elim (Bool-cases (contains (key_of n) x.consumed)) [
          | inl seen ↦
              rw
                (
                  empty,
                  next_loop,
                  take_message-duplicate x k n (readable_none n (ground arith)) seen (ground arith),
                )
                (delivered x fuel rest empty fresh (omega arith) (ground arith) (ground arith)
                  (omega arith))
          | inr unseen ↦
              let held = dict_set (key_of n) n x.pending in
              rw
                (
                  empty,
                  next_loop,
                  take_message-other x k n (readable_none n (ground arith)) unseen other
                      (ground arith),
                )
                (delivered (record x { pending = held }) fuel rest
                  (dict_get-set (key_of n) k n x.pending ∙ rw other empty) fresh
                  (ground (arith, length-dict_set-le (key_of n) n x.pending))
                  (honest_buffer x held rest ∙ ground arith) (ground arith) (omega arith))
        ]
      ]

-- A message that is in the buffer or among the deliveries before the deadline is returned by the wait
-- for it, if its key has not been consumed, the buffer has room for all deliveries, and every delivery
-- has a turn that `int` reads and is no second, different commit for a played step: duplicates, late copies and messages in another
-- order do no harm.
pub next_delivers :
    (x : SealedExchange) (kind : String) (turn_index : ℤ) (stream : List Message) (m : Message)
    → IsValid x
    → contains (kind, turn_index) x.consumed ≡ false
    → pos (length x.pending + length stream) ≤ℤ x.pending_cap
    → is_honest x stream ≡ true
    → arrival x (kind, turn_index) stream ≡ some m
    → (y : SealedExchange) × (rest : List Message) × (next x kind turn_index stream ≡ got m y rest)
unfolding next next_loop
next_delivers x kind turn_index stream m v fresh room honest here =
    elim (Option-cases (dict_get (kind, turn_index) x.pending)) [
      | inl empty ↦
          delivered (kind, turn_index) m x (suc (length stream + 1)) stream empty fresh room honest
            (ground arith) (omega arith)
      | inr (n, held) ↦
          let returns =
            take_message-hit (unbuffered x k) k n (v.readable k n held) (v.keyed k n held) fresh in
          let same : n ≡ m = ground arith in
          rw (held, next_loop, returns) (consuming (unbuffered x k) n, stream, rw same refl)
    ]
  where
    k : Key
    k = (kind, turn_index)
