-- ===== src/Foreign/Counted.antt =====
-- The check of the step numbers, in terms of how often each number occurs.
use p2p_thief.Prelude.{ℕ, ◌+◌, Bool, ◌≡◌, ◌==◌}
use p2p_thief.Prelude.{List, [], ◌∷◌, All, length, if◌then◌else◌}
use p2p_thief.Prelude.Int.{ℤ, pos, leb_ℤ, ◌≤ℤ◌, ℤ_equality}
use p2p_thief.Foreign.Steps.{positive_steps}

abbrev once_if : Bool → ℕ
once_if b = if b then 1 else 0

-- How often a number occurs.
abbrev pub occurrences : ℤ → List ℤ → ℕ
occurrences k [] = 0
occurrences k (n ∷ ns) = (if n == k then 1 else 0) + occurrences k ns

abbrev IsSorted : List ℤ → Type 0
IsSorted [] = Unit {0}
IsSorted (n ∷ ns) = All (λ m. n ≤ℤ m) ns × IsSorted ns

-- The steps of at least 1 are 1, ..., N, each of them once.
abbrev pub CountsOnce : List ℤ → Type 0
CountsOnce steps =
    (k : ℤ)
    → pos 1 ≤ℤ k
    → occurrences k steps ≡ (if leb_ℤ k (pos (length (positive_steps steps))) then 1 else 0)
