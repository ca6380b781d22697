-- ===== src/Codec/Checked.antt =====
-- The checks of the codec in the order of the source, and what a message that passes them is.
use p2p_thief.Prelude.{Bool, true, false, not, ◌&&◌, ◌||◌, ◌≡◌, refl, ◌↔◌, ◌⊎◌, inl, inr}
use p2p_thief.Prelude.{Bool-cases, Option, none, some, All, arith, subst}
use p2p_thief.Prelude.{Result, ok, err, raise_if, ◌>>=◌, ◌>>◌, game_rule_error, overflow_error}
use p2p_thief.Prelude.Int.{ℤ, pos, ltb_ℤ, ◌≤ℤ◌}
use p2p_thief.Primitives.{Role}
use p2p_thief.Json.{Json, Dict, Members, null, infinite, is_infinite, text, object, field}
use p2p_thief.Sealing.{role_value}
use p2p_thief.Codec.{
  required_keys, is_null, is_cell, is_response, is_win, int_of, read_int, normalised,
  parse_turn_message,
}
use p2p_thief.Codec.Accepts.{
  IsCell, is_cell_iff, IsResponse, is_response_iff, IsWin, is_win_iff, is_role_iff, is_text_iff,
  is_object_iff, IsKnown, HasKey, IsKnown-iff, required_iff, NullOr,
}
use Prim.Native.String.{String}

-- Either everything passes and `Good` holds, or the error of the rules is raised and it does not.
abbrev pub Decides {ℓ} : {T : Type ℓ} → Result T → (T → Type 0) → Type ℓ
Decides {T = T} r Good =
    ((t : T) × (r ≡ ok t) × Good t) ⊎ ((r ≡ err game_rule_error) × ((t : T) → ¬ Good t))

-- A check before the rest, for a property `P` that the check tests.
then-Decides {ℓ} :
    {T : Type ℓ} {P : Type 0} {Good : T → Type 0} (b : Bool) (rest : Result T)
    → (b ≡ false) ↔ P
    → Decides rest Good
    → Decides (raise_if b game_rule_error >> rest) (λ t. P × Good t)
then-Decides true rest (f, g) d = inr (refl, λ t (p, good). absurd (ground (arith, g p)))
then-Decides false rest (f, g) (inl (t, e, good)) = inl (t, e, (f refl, good))
then-Decides false rest (f, g) (inr (e, bad)) = inr (e, λ t (p, good). bad t good)

-- As `Decides`, but for the error that the step raises when `Bad` holds.
abbrev pub Settles {ℓ} : {T : Type ℓ} → Result T → (T → Type 0) → Type 0 → Type ℓ
Settles r Good Bad = Decides r Good ⊎ ((r ≡ err overflow_error) × Bad)

then-Settles {ℓ} :
    {T : Type ℓ} {P Bad : Type 0} {Good : T → Type 0} (b : Bool) (rest : Result T)
    → (b ≡ false) ↔ P
    → Settles rest Good Bad
    → Settles (raise_if b game_rule_error >> rest) (λ t. P × Good t) (P × Bad)
then-Settles b rest tests (inl d) = inl (then-Decides b rest tests d)
then-Settles true rest (f, g) (inr (e, bad)) =
    inl (inr (refl, λ t (p, good). absurd (ground (arith, g p))))
then-Settles false rest (f, g) (inr (e, bad)) = inr (e, (f refl, bad))

is_infinite-eq : (v : Json) → is_infinite v ≡ true → v ≡ infinite
is_infinite-eq infinite h = refl
is_infinite-eq _ h = absurd (ground arith)

-- The test on an optional key.
optional_iff :
    {P : Json → Type 0} (test : Json → Bool)
    → ((v : Json) → (test v ≡ true) ↔ P v)
    → (v : Json) → ((not (is_null v) && not (test v)) ≡ false) ↔ NullOr P v
optional_iff test law null = (λ _. inl refl, λ _. refl)
optional_iff test law v = (
  λ h. inr ((law v).0 (ground arith)),
  λ e. elim e [ inl empty ↦ absurd (ground arith) | inr holds ↦ rw ((law v).1 holds) refl ],
)

not_iff : {P : Type 0} (b : Bool) → (b ≡ true) ↔ P → (not b ≡ false) ↔ P
not_iff b (f, g) = (λ h. f (ground arith), λ x. rw (g x) refl)

both_iff :
    {P Q : Type 0} (a b : Bool)
    → (a ≡ true) ↔ P
    → (b ≡ true) ↔ Q
    → ((not a || not b) ≡ false) ↔ (P × Q)
both_iff a b (f, g) (h, k) =
    (λ e. (f (ground arith), h (ground arith)), λ (x, y). rw (g x, k y) refl)

positive_iff : (n : ℤ) → (ltb_ℤ n (pos 1) ≡ false) ↔ (pos 1 ≤ℤ n)
positive_iff n = (ground arith, ground arith)

-- What the keys of an accepted message hold, once its step is read.
pub record Holds (p : Dict) (step : ℤ) : Type 0 where
  pub sender : (r : Role) × (field "sender" p ≡ text (role_value r))
  pub positive : pos 1 ≤ℤ step
  pub texts :
      ((t : String) × (field "hint" p ≡ text t)) × ((t : String) × (field "commit" p ≡ text t))
  pub smell_grid : (m : Members) × (field "smell_grid" p ≡ object m)
  pub barrier_placed : NullOr IsCell (field "barrier_placed" p)
  pub capture_claim : NullOr IsCell (field "capture_claim" p)
  pub claim_response : NullOr IsResponse (field "claim_response" p)
  pub win_claim : NullOr IsWin (field "win_claim" p)

module _ (int_of_text : String → Option ℤ) where
  -- A message in the shape that the wire allows: its keys are known, the required ones are there, and
  -- each holds a value of its type.
  pub record IsTurnMessage (p : Dict) (step : ℤ) : Type 0 where
    pub known : All (λ entry. IsKnown entry.0) p
    pub required : All (HasKey p) required_keys
    pub numbered : int_of int_of_text (field "step" p) ≡ some step
    pub holds : Holds p step

  int-Settles {ℓ} :
      {T : Type ℓ} {Good : ℤ → T → Type 0} (v : Json) (rest : ℤ → Result T)
      → ((n : ℤ) → Decides (rest n) (Good n))
      → Settles
          (read_int int_of_text v >>= rest)
          (λ t. (n : ℤ) × (int_of int_of_text v ≡ some n) × Good n t)
          (v ≡ infinite)
  int-Settles {T = T} {Good = Good} v rest each = elim (Bool-cases (is_infinite v)) [
    | inl endless ↦ inr (rw endless refl, is_infinite-eq v endless)
    | inr finite ↦ inl (rw finite (go (int_of int_of_text v)))
  ]
    where
      go :
          (o : Option ℤ)
          → Decides
              ((elim o [ none ↦ err game_rule_error | some n ↦ ok n ]) >>= rest)
              (λ t. (n : ℤ) × (o ≡ some n) × Good n t)
      go none = inr (refl, λ t (n, e, good). absurd (ground arith))
      go (some n) = elim (each n) [
        | inl (t, e, good) ↦ inl (t, e, (n, refl, good))
        | inr (e, bad) ↦
            inr (e, λ t (m, same, good). bad t (subst (λ k. Good k t) (ground arith) good))
      ]

  -- The properties in the order of the checks.
  abbrev Parts : Dict → ℤ → Dict → Type 0
  Parts p step q =
      ((r : Role) × (field "sender" p ≡ text (role_value r)))
      × ((pos 1 ≤ℤ step)
          × ((((t : String) × (field "hint" p ≡ text t))
                × ((t : String) × (field "commit" p ≡ text t)))
              × (((m : Members) × (field "smell_grid" p ≡ object m))
                  × (NullOr IsCell (field "barrier_placed" p)
                      × (NullOr IsCell (field "capture_claim" p)
                          × (NullOr IsResponse (field "claim_response" p)
                              × (NullOr IsWin (field "win_claim" p)
                                  × (q ≡ normalised int_of_text p step))))))))

  done {ℓ} : {T : Type ℓ} {P : T → Type 0} (t : T) → P t → Decides (ok t) P
  done t holds = inl (t, refl, holds)

  Parts-Settles :
      (p : Dict)
      → Settles
          (parse_turn_message int_of_text p)
          (λ q.
            All (λ entry. IsKnown entry.0) p
            × (All (HasKey p) required_keys
                × ((step : ℤ) × (int_of int_of_text (field "step" p) ≡ some step)
                    × Parts p step q)))
          (All (λ entry. IsKnown entry.0) p
            × (All (HasKey p) required_keys × (field "step" p ≡ infinite)))
  unfolding parse_turn_message
  Parts-Settles p = then-Settles _ _ (IsKnown-iff p) (
      then-Settles _ _ (required_iff required_keys p) (
        int-Settles (field "step" p) _ (λ step.
          then-Decides _ _ (not_iff _ (is_role_iff (field "sender" p))) (
            then-Decides _ _ (positive_iff step) (
              then-Decides _ _
                (both_iff _ _ (is_text_iff (field "hint" p)) (is_text_iff (field "commit" p)))
                (then-Decides _ _ (not_iff _ (is_object_iff (field "smell_grid" p))) (
                  then-Decides _ _ (optional_iff is_cell is_cell_iff (field "barrier_placed" p)) (
                    then-Decides _ _ (optional_iff is_cell is_cell_iff (field "capture_claim" p)) (
                      then-Decides _ _
                        (optional_iff is_response is_response_iff (field "claim_response" p))
                        (then-Decides _ _ (optional_iff is_win is_win_iff (field "win_claim" p))
                          (done (normalised int_of_text p step) refl)))))))))))

  -- The codec accepts exactly the messages in the shape that the wire allows and returns their keys,
  -- the missing ones as `None` and the step as an integer; every other message raises the rules' error,
  -- but for one that has the keys of the wire and an infinite float as its step, which raises an
  -- OverflowError.
  pub parse_turn_message-Settles :
      (p : Dict)
      → Settles
          (parse_turn_message int_of_text p)
          (λ q. (step : ℤ) × IsTurnMessage p step × (q ≡ normalised int_of_text p step))
          (All (λ entry. IsKnown entry.0) p
            × (All (HasKey p) required_keys × (field "step" p ≡ infinite)))
  parse_turn_message-Settles p = elim (Parts-Settles p) [
    | inr overflows ↦ inr overflows
    | inl
          (inl (
            q,
            e,
            (known, (required, (step, numbered, (s, (n, (t, (g, (b, (c, (r, (w, made))))))))))),
          )) ↦
        inl (
          inl (
            q,
            e,
            (
              step,
              record {
                known = known;
                required = required;
                numbered = numbered;
                holds = record {
                  sender = s;
                  positive = n;
                  texts = t;
                  smell_grid = g;
                  barrier_placed = b;
                  capture_claim = c;
                  claim_response = r;
                  win_claim = w;
                };
              },
              made,
            ),
          ))
    | inl (inr (e, bad)) ↦ inl (
        inr (
          e,
          λ q (step, m, made).
              let h = m.holds in
              bad q (
                m.known,
                (
                  m.required,
                  (
                    step,
                    m.numbered,
                    (
                      h.sender,
                      (
                        h.positive,
                        (
                          h.texts,
                          (
                            h.smell_grid,
                            (
                              h.barrier_placed,
                              (h.capture_claim, (h.claim_response, (h.win_claim, made))),
                            ),
                          ),
                        ),
                      ),
                    ),
                  ),
                ),
              ),
        ))
  ]
