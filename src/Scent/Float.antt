-- ===== src/Scent/Float.antt =====
-- Python's float arithmetic, as far as the program uses it: the operations, and the laws of IEEE
-- comparison, which hold at a NaN too.
use p2p_thief.Prelude.{ℕ, ◌≡◌, Bool, true, false, ◌||◌}
use p2p_thief.Prelude.{if◌then◌else◌}

pub record Floats : Type 1 where
  pub Float : Type 0
  pub zero_float : Float
  -- The literal m / 10 ^ e.
  pub lit : ℕ → ℕ → Float
  pub add : Float → Float → Float
  pub sub : Float → Float → Float
  pub mul : Float → Float → Float
  pub div : Float → Float → Float
  pub ltf : Float → Float → Bool
  pub eqf : Float → Float → Bool
  pub ltf_irrefl : (a : Float) → ltf a a ≡ false
  pub ltf_asym : (a b : Float) → ltf a b ≡ true → ltf b a ≡ false

module _ (F : Floats) where
  open F use {Float, ltf}

  -- Python's `min(a, b)` and `max(a, b)`.
  abbrev pub min_float : Float → Float → Float
  min_float a b = if ltf b a then b else a

  abbrev pub max_float : Float → Float → Float
  max_float a b = if ltf a b then b else a

  -- Python's `a >= b`.
  abbrev pub gef : Float → Float → Bool
  gef a b = ltf b a || F.eqf a b
