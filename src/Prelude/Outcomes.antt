-- ===== src/Prelude/Outcomes.antt =====
-- The exceptions of domain/errors.py and those of Python as values, and the result of code that may raise.
-- An exception's message is not kept.
use mathlib.Core.Path.{◌≡◌, refl}
use mathlib.Core.Bool.{Bool, true, false}

pub data Error : Type 0 where
  game_rule_error illegal_move_error illegal_barrier_error : Error
  illegal_transition_error rival_breach_error value_error key_error type_error attribute_error
        deadline_expired_error settlement_error resume_error overflow_error :
      Error

-- `err e` is a raise of `e`.
pub data Result {ℓ} (T : Type ℓ) : Type ℓ where
  err : Error → Result T
  ok : T → Result T

infixl 5 ◌>>=◌ ◌>>◌
abbrev pub ◌>>=◌ {ℓ κ} : {S : Type ℓ} {T : Type κ} → Result S → (S → Result T) → Result T
err raised >>= after = err raised
ok value >>= after = after value

abbrev pub ◌>>◌ {κ} : {T : Type κ} → Result (Unit {0}) → Result T → Result T
err raised >> after = err raised
ok _ >> after = after

-- `if test: raise e`
abbrev pub raise_if : Bool → Error → Result (Unit {0})
raise_if true e = err e
raise_if false e = ok tt

-- When a sequence returns, its first step has returned, and the rest has from there.
pub bind-eq-ok {ℓ κ} :
    {S : Type ℓ} {T : Type κ} (first : Result S) (after : S → Result T) {t : T}
    → (first >>= after) ≡ ok t
    → (s : S) × (first ≡ ok s) × (after s ≡ ok t)
bind-eq-ok (err raised) after returned = cc
bind-eq-ok (ok s) after returned = (s, refl, returned)

pub then-eq-ok {κ} :
    {T : Type κ} (first : Result (Unit {0})) (after : Result T) {t : T}
    → (first >> after) ≡ ok t
    → (first ≡ ok tt) × (after ≡ ok t)
then-eq-ok (err raised) after returned = cc
then-eq-ok (ok _) after returned = (refl, returned)

pub ok_inj {ℓ} : {A : Type ℓ} {a b : A} → ok a ≡ ok b → a ≡ b
ok_inj h = cc
