-- ===== src/Sealing/Receiver.antt =====
-- The receiver: what it returns, that it never returns a message twice, that its buffer is bounded,
-- and that a message which arrives is returned.
use p2p_thief.Prelude.{Bool, true, false, ◌≡◌, refl, ◌∙◌, ◌⊎◌, inl, inr}
use p2p_thief.Prelude.{◌∷◌, some, ◌==◌, ==_iff, contains, length, arith}
use p2p_thief.Prelude.{ok, Error, game_rule_error, if◌then◌else◌}
use p2p_thief.Prelude.{dict_get, dict_set, dict_get-set, length-dict_set-le}
use p2p_thief.Prelude.Int.{ℤ, pos, leb_ℤ, ◌≤ℤ◌}
use p2p_thief.Sealing.{
  Message, Key, key_of, key_equality, SealedExchange, new, Pass, returned, continues, raised,
}
use p2p_thief.Sealing.{take_keyed, take_message, is_conflict, min_pending_cap}
use p2p_thief.Prelude.{none, sym, Option-cases}

-- The buffer is within its cap, the cap is at least the floor, and each buffered message stands
-- under its own key, which could be read.
pub record IsValid (x : SealedExchange) : Type 0 where
  pub room : pos (length x.pending) ≤ℤ x.pending_cap
  pub floor : pos min_pending_cap ≤ℤ x.pending_cap
  pub keyed : (k : Key) (m : Message) → dict_get k x.pending ≡ some m → key_of m ≡ k
  pub readable : (k : Key) (m : Message) → dict_get k x.pending ≡ some m → m.unreadable ≡ none

pub new-IsValid : (r : _) (sub cap : ℤ) (x : SealedExchange) → new r sub cap ≡ ok x → IsValid x
unfolding new dict_get
new-IsValid r sub cap x h = record {
  room = ground arith;
  floor = ground arith;
  keyed = λ k m e. ground arith;
  readable = λ k m e. ground arith;
}

-- An exchange that has waited since `x` without a return: only its buffer has changed.
pub record Since (x y : SealedExchange) : Type 0 where
  pub role : y.role ≡ x.role
  pub cap : y.pending_cap ≡ x.pending_cap
  pub own : y.own_records ≡ x.own_records
  pub their : y.their_records ≡ x.their_records
  pub consumed : y.consumed ≡ x.consumed
  pub valid : IsValid y

pub Since-refl : (x : SealedExchange) → IsValid x → Since x x
Since-refl x v = record {
  role = refl;
  cap = refl;
  own = refl;
  their = refl;
  consumed = refl;
  valid = v;
}

-- The tests of one pass, with their values as variables.
module _ (seen conflict hit full : Bool) (x a b y : SealedExchange) where
  abbrev pass : Pass
  pass =
      if seen
      then (if conflict then raised game_rule_error else continues x)
      else if hit
      then returned a
      else if full
      then raised game_rule_error
      else continues b

  pass-returned : pass ≡ returned y → (seen ≡ false) × (hit ≡ true) × (y ≡ a)
  pass-returned h = ground arith

  pass-continues :
      pass ≡ continues y → (y ≡ x) ⊎ ((seen ≡ false) × (hit ≡ false) × (full ≡ false) × (y ≡ b))
  pass-continues h = ground arith

module _ (x : SealedExchange) (expected : Key) (m : Message) (y : SealedExchange) where
  open x use {consumed, pending}

  abbrev seen : Bool
  seen = contains (key_of m) consumed

  abbrev full : Bool
  full = leb_ℤ x.pending_cap (pos (length pending))

  abbrev consuming : SealedExchange
  consuming = record x { consumed = key_of m ∷ consumed }

  abbrev buffering : SealedExchange
  buffering = record x { pending = dict_set (key_of m) m pending }

  take_keyed-returned :
      take_keyed x expected m ≡ returned y
      → (key_of m ≡ expected)
        × (contains expected consumed ≡ false)
        × (y ≡ record x { consumed = expected ∷ consumed })
  unfolding take_keyed
  take_keyed-returned h =
      let (fresh, hit, e) =
        pass-returned seen (is_conflict x m) (key_of m == expected) full x consuming buffering y
          h in
      let same = (==_iff (key_of m) expected).0 hit in (same, rw (← same) fresh, rw (← same) e)

  buffering-IsValid : m.unreadable ≡ none → full ≡ false → IsValid x → IsValid buffering
  buffering-IsValid fine free v = record {
    room = ground (arith, length-dict_set-le (key_of m) m pending);
    floor = v.floor;
    keyed = λ k n e.
        ground (arith, ==_iff (key_of m) k, v.keyed k n, dict_get-set (key_of m) k m pending);
    readable = λ k n e. ground (arith, fine, v.readable k n, dict_get-set (key_of m) k m pending);
  }

  take_keyed-continues :
      (x0 : SealedExchange)
      → m.unreadable ≡ none
      → Since x0 x
      → take_keyed x expected m ≡ continues y
      → Since x0 y × (dict_get expected y.pending ≡ dict_get expected pending)
  unfolding take_keyed
  take_keyed-continues x0 fine s h =
      elim (pass-continues seen (is_conflict x m) (key_of m == expected) full x consuming buffering
        y h) [
          | inl e ↦ rw e (s, refl)
          | inr (_, other, free, e) ↦ rw e (
            record {
              role = s.role;
              cap = s.cap;
              own = s.own;
              their = s.their;
              consumed = s.consumed;
              valid = buffering-IsValid fine free s.valid;
            },
            dict_get-set (key_of m) expected m pending ∙ rw other refl,
          )
        ]

  take_keyed-raised : (e : Error) → take_keyed x expected m ≡ raised e → e ≡ game_rule_error
  unfolding take_keyed
  take_keyed-raised e h = ground arith

  pub take_message-readable :
      m.unreadable ≡ none → take_message x expected m ≡ take_keyed x expected m
  unfolding take_message
  take_message-readable fine = rw fine refl

  take_message-unreadable :
      (e : Error) → m.unreadable ≡ some e → take_message x expected m ≡ raised e
  unfolding take_message
  take_message-unreadable e bad = rw bad refl

  pub take_message-returned :
      take_message x expected m ≡ returned y
      → (key_of m ≡ expected)
        × (contains expected consumed ≡ false)
        × (y ≡ record x { consumed = expected ∷ consumed })
  take_message-returned h = elim (Option-cases m.unreadable) [
    | inl fine ↦ take_keyed-returned (sym (take_message-readable fine) ∙ h)
    | inr (e, bad) ↦ absurd (clash (sym (take_message-unreadable e bad) ∙ h))
  ]
    where
      clash : {e : Error} → raised e ≡ returned y → ⊥
      clash h = cc

  pub take_message-continues :
      (x0 : SealedExchange)
      → Since x0 x
      → take_message x expected m ≡ continues y
      → Since x0 y × (dict_get expected y.pending ≡ dict_get expected pending)
  take_message-continues x0 s h = elim (Option-cases m.unreadable) [
    | inl fine ↦ take_keyed-continues x0 fine s (sym (take_message-readable fine) ∙ h)
    | inr (e, bad) ↦ absurd (clash (sym (take_message-unreadable e bad) ∙ h))
  ]
    where
      clash : {e : Error} → raised e ≡ continues y → ⊥
      clash h = cc

  pub take_message-raised :
      (e : Error)
      → take_message x expected m ≡ raised e
      → (e ≡ game_rule_error) ⊎ (m.unreadable ≡ some e)
  take_message-raised e h = elim (Option-cases m.unreadable) [
    | inl fine ↦ inl (take_keyed-raised e (sym (take_message-readable fine) ∙ h))
    | inr (f, bad) ↦ inr (bad ∙ same (sym (take_message-unreadable f bad) ∙ h))
  ]
    where
      same : {f : Error} → raised f ≡ raised e → some f ≡ some e
      same h = cc
