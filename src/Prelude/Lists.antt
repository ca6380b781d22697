-- ===== src/Prelude/Lists.antt =====
-- Lists measured by native numbers, membership tests, and association lists for dictionaries.
use Prim.Native.Nat.{ℕ, zero, suc, ◌+◌}
use mathlib.Core.Path.{◌≡◌, refl}
use mathlib.Core.Bool.{Bool, true, false, ◌&&◌, ◌||◌}
use mathlib.Core.List.{List, [], ◌∷◌, ◌++◌, map}
use mathlib.Core.Option.{Option, none, some}
use native.Mathlib.Omega.{arith}
use p2p_thief.Prelude.Tests.{Equality, ◌==◌, ==_refl, ==_iff, if◌then◌else◌}

module _ {ℓ} {A : Type ℓ} where
  abbrev pub length : List A → ℕ
  length [] = 0
  length (x ∷ xs) = suc (length xs)

  pub length-append : (xs ys : List A) → length (xs ++ ys) ≡ length xs + length ys
  length-append [] ys = omega arith
  length-append (x ∷ xs) ys = omega (arith, length-append xs ys)

  -- Python's `all(test(x) for x in xs)` and `any(...)`.
  abbrev pub all : (A → Bool) → List A → Bool
  all p [] = true
  all p (x ∷ xs) = p x && all p xs

  abbrev pub any : (A → Bool) → List A → Bool
  any p [] = false
  any p (x ∷ xs) = p x || any p xs

  abbrev pub All {κ} : (A → Type κ) → List A → Type κ
  All P [] = Unit
  All P (x ∷ xs) = P x × All P xs

-- The members of a list that pass a test, in order.
unfoldable pub passing {ℓ} : {A : Type ℓ} → (A → Bool) → List A → List A
passing test [] = []
passing test (a ∷ as') = let others = passing test as' in if test a then a ∷ others else others

-- Python's `[y for x in xs for y in f(x)]`.
unfoldable pub flat_map {ℓ κ} : {A : Type ℓ} {B : Type κ} → (A → List B) → List A → List B
flat_map f [] = []
flat_map f (x ∷ xs) = f x ++ flat_map f xs

module _ {ℓ} {A : Type ℓ} ⦃e : Equality A⦄ where
  -- Python's `x in xs`.
  unfoldable pub contains : A → List A → Bool
  contains a [] = false
  contains a (x ∷ xs) = a == x || contains a xs

  pub contains_self : (a : A) (xs : List A) → contains a (a ∷ xs) ≡ true
  unfolding contains
  contains_self a xs = ground (arith, ==_refl a)

  pub contains-cons : (a x : A) (xs : List A) → contains a xs ≡ true → contains a (x ∷ xs) ≡ true
  unfolding contains
  contains-cons a x xs h = ground arith

  pub contains-append :
      (a : A) (xs ys : List A) → contains a (xs ++ ys) ≡ (contains a xs || contains a ys)
  unfolding contains
  contains-append a [] ys = refl
  contains-append a (x ∷ xs) ys = ground (arith, contains-append a xs ys)

  pub contains-passing :
      (test : A → Bool) (a : A) (xs : List A)
      → contains a (passing test xs) ≡ (contains a xs && test a)
  unfolding contains passing
  contains-passing test a [] = refl
  contains-passing test a (x ∷ xs) = ground (arith, contains-passing test a xs, ==_iff a x)

module _ {ℓ κ} {A : Type ℓ} {B : Type κ} ⦃e : Equality A⦄ ⦃d : Equality B⦄ where
  pub contains-map :
      (f : A → B) (a : A) (xs : List A) → contains a xs ≡ true → contains (f a) (map f xs) ≡ true
  unfolding contains
  contains-map f a [] h = cc
  contains-map f a (x ∷ xs) h = ground (arith, contains-map f a xs, ==_iff a x, ==_iff (f a) (f x))

  pub contains-flat_map :
      (f : A → List B) (a : A) (b : B) (xs : List A)
      → contains a xs ≡ true
      → contains b (f a) ≡ true
      → contains b (flat_map f xs) ≡ true
  unfolding contains flat_map
  contains-flat_map f a b [] h k = cc
  contains-flat_map f a b (x ∷ xs) h k =
      ground
        (arith, contains-append b (f x) (flat_map f xs), contains-flat_map f a b xs, ==_iff a x)

module _ {ℓ} {A : Type ℓ} where
  abbrev pub get_elem? : List A → ℕ → Option A
  get_elem? [] i = none
  get_elem? (x ∷ xs) zero = some x
  get_elem? (x ∷ xs) (suc i) = get_elem? xs i

  abbrev pub get_or : List A → ℕ → A → A
  get_or [] i d = d
  get_or (x ∷ xs) zero d = x
  get_or (x ∷ xs) (suc i) d = get_or xs i d

  abbrev pub take : ℕ → List A → List A
  take zero xs = []
  take (suc n) [] = []
  take (suc n) (x ∷ xs) = x ∷ take n xs

  abbrev pub drop : ℕ → List A → List A
  drop zero xs = xs
  drop (suc n) [] = []
  drop (suc n) (x ∷ xs) = drop n xs

  abbrev pub replicate : ℕ → A → List A
  replicate zero a = []
  replicate (suc n) a = a ∷ replicate n a

module _ {ℓ κ} {A : Type ℓ} (P : A → Type κ) where
  pub All-replicate : (n : ℕ) (a : A) → P a → All P (replicate n a)
  All-replicate zero a h = tt
  All-replicate (suc n) a h = (h, All-replicate n a h)
