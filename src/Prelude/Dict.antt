-- ===== src/Prelude/Dict.antt =====
-- Python dictionaries as association lists: a key that is set again keeps its place.
use p2p_thief.Prelude.Tests.{Equality, ◌==◌, if◌then◌else◌}
use Prim.Native.Nat.{◌+◌, ◌≤◌}
use mathlib.Core.Path.{◌≡◌, refl}
use mathlib.Core.Bool.{Bool, false, ◌||◌}
use mathlib.Core.List.{List, [], ◌∷◌}
use mathlib.Core.Option.{Option, none, some}
use native.Mathlib.Omega.{arith}
use p2p_thief.Prelude.Lists.{length}

module _ {ℓ κ} {K : Type ℓ} {V : Type κ} ⦃eq : Equality K⦄ where
  -- `d.get(k)`
  unfoldable pub dict_get : K → List (K × V) → Option V
  dict_get k [] = none
  dict_get k ((j, v) ∷ d) = if j == k then some v else dict_get k d

  -- `k in d`
  unfoldable pub has_key : K → List (K × V) → Bool
  has_key k [] = false
  has_key k ((j, v) ∷ d) = j == k || has_key k d

  -- `d[k] = v`
  unfoldable pub dict_set : K → V → List (K × V) → List (K × V)
  dict_set k v [] = (k, v) ∷ []
  dict_set k v ((j, w) ∷ d) = if j == k then (j, v) ∷ d else (j, w) ∷ dict_set k v d

  -- `d.pop(k, None)`, and `{...}` over the other keys.
  unfoldable pub without : K → List (K × V) → List (K × V)
  without k [] = []
  without k ((j, v) ∷ d) = let rest = without k d in if j == k then rest else (j, v) ∷ rest

  pub dict_get-set :
      (k j : K) (v : V) (d : List (K × V))
      → dict_get j (dict_set k v d) ≡ (if k == j then some v else dict_get j d)
  unfolding dict_get dict_set
  dict_get-set k j v [] = refl
  dict_get-set k j v ((i, w) ∷ d) =
      ground (arith, eq.test_iff k j, eq.test_iff i k, eq.test_iff i j, dict_get-set k j v d)

  pub dict_get-without :
      (k j : K) (d : List (K × V))
      → dict_get j (without k d) ≡ (if k == j then none else dict_get j d)
  unfolding dict_get without
  dict_get-without k j [] = ground arith
  dict_get-without k j ((i, w) ∷ d) =
      ground (arith, eq.test_iff k j, eq.test_iff i k, eq.test_iff i j, dict_get-without k j d)

  pub length-dict_set-le :
      (k : K) (v : V) (d : List (K × V)) → length (dict_set k v d) ≤ length d + 1
  unfolding dict_set
  length-dict_set-le k v [] = omega arith
  length-dict_set-le k v ((j, w) ∷ d) = ground (arith, length-dict_set-le k v d)

  pub length-without-le : (k : K) (d : List (K × V)) → length (without k d) ≤ length d
  unfolding without
  length-without-le k [] = omega arith
  length-without-le k ((j, v) ∷ d) = ground (arith, length-without-le k d)
