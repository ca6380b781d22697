-- ===== src/Codec/Accepts.antt =====
-- Which messages the codec accepts, in terms of what their keys hold.
use p2p_thief.Prelude.{
  Bool, true, false, not, ◌||◌, ◌≡◌, refl, ◌↔◌, ◌⊎◌, inl, inr, ◌==◌, ==_iff, List, [], ◌∷◌,
}
use p2p_thief.Prelude.{
  Option, none, some, any, All, dict_get, has_key, contains, arith, text_equality, &&-true,
  ||-false, ap, subst, sym,
}
use p2p_thief.Prelude.{Bool-cases}
use p2p_thief.Primitives.{Role, police, thief}
use p2p_thief.Json.{
  Json, Dict, Members, null, text, array, object, no_items, item, is_int, is_text, is_object,
  or_null, member_get,
}
use p2p_thief.Sealing.{role_value}
use p2p_thief.Codec.{
  required_keys, optional_keys, is_cell, is_response, is_win, is_role, is_unknown,
}
use Prim.Native.String.{String}

-- A pair of integers.
unfoldable pub IsCell : Json → Type 0
IsCell v =
    (a : Json) × (b : Json) × (v ≡ array (item a (item b no_items)))
    × (is_int a ≡ true)
    × (is_int b ≡ true)

-- An answer to a claim, and the claim of a win.
unfoldable pub IsResponse : Json → Type 0
IsResponse v =
    (m : Members) × (v ≡ object m)
    × ((c : Json) × (member_get "caught" m ≡ some c))
    × IsCell (or_null (member_get "claim" m))

unfoldable pub IsWin : Json → Type 0
IsWin v = (m : Members) × (v ≡ object m) × (t : String) × (member_get "type" m ≡ some (text t))

abbrev pub NullOr : (Json → Type 0) → Json → Type 0
NullOr P v = (v ≡ null) ⊎ P v

pub is_cell_iff : (v : Json) → (is_cell v ≡ true) ↔ IsCell v
unfolding IsCell
is_cell_iff (array (item a (item b no_items))) = (
  λ h. let (x, y) = &&-true (is_int a) (is_int b) h in (a, b, refl, x, y),
  λ (c, d, e, x, y). ground arith,
)
is_cell_iff _ = (λ h. absurd (ground arith), λ (c, d, e, x, y). absurd (ground arith))

pub is_response_iff : (v : Json) → (is_response v ≡ true) ↔ IsResponse v
unfolding IsResponse
is_response_iff (object m) = (
  λ h.
      let (x, y) = &&-true _ (is_cell (or_null (member_get "claim" m))) h in
      (m, refl, answered (member_get "caught" m) x, (is_cell_iff _).0 y),
  λ (n, e, (c, caught), cell).
      let same : n ≡ m = ground arith in
      subst (λ k. is_response (object k) ≡ true) same
        (rw (caught, (is_cell_iff (or_null (member_get "claim" n))).1 cell) refl),
)
  where
    answered :
        (o : Option Json)
        → elim o [ none ↦ false | some _ ↦ true ] ≡ true
        → (c : Json) × (o ≡ some c)
    answered none h = absurd (ground arith)
    answered (some c) h = (c, refl)
is_response_iff _ = (λ h. absurd (ground arith), λ (m, e, c, r). absurd (ground arith))

pub is_win_iff : (v : Json) → (is_win v ≡ true) ↔ IsWin v
unfolding IsWin
is_win_iff (object m) = (
  λ h. let (t, e) = typed (member_get "type" m) h in (m, refl, t, e),
  λ (n, e, t, typed).
      let same : n ≡ m = ground arith in subst (λ k. is_win (object k) ≡ true) same (rw typed refl),
)
  where
    typed : (o : Option Json) → is_text (or_null o) ≡ true → (t : String) × (o ≡ some (text t))
    typed none h = absurd (ground arith)
    typed (some (text t)) h = (t, refl)
    typed (some _) h = absurd (ground arith)
is_win_iff _ = (λ h. absurd (ground arith), λ (m, e, t, r). absurd (ground arith))

is_role-role_value : (r : Role) → is_role (text (role_value r)) ≡ true
is_role-role_value police = refl
is_role-role_value thief = refl

pub is_role_iff : (v : Json) → (is_role v ≡ true) ↔ ((r : Role) × (v ≡ text (role_value r)))
is_role_iff (text t) = (
  λ h. elim (Bool-cases (t == "police")) [
    | inl e ↦ (police, ap text ((==_iff t "police").0 e))
    | inr e ↦ (thief, ap text ((==_iff t "thief").0 (ground arith)))
  ],
  λ (r, e). subst (λ v. is_role v ≡ true) (sym e) (is_role-role_value r),
)
is_role_iff _ = (λ h. absurd (ground arith), λ (r, e). absurd (ground arith))

pub is_text_iff : (v : Json) → (is_text v ≡ true) ↔ ((t : String) × (v ≡ text t))
is_text_iff (text t) = (λ h. (t, refl), λ e. refl)
is_text_iff _ = (λ h. absurd (ground arith), λ (t, e). absurd (ground arith))

pub is_object_iff : (v : Json) → (is_object v ≡ true) ↔ ((m : Members) × (v ≡ object m))
is_object_iff (object m) = (λ h. (m, refl), λ e. refl)
is_object_iff _ = (λ h. absurd (ground arith), λ (m, e). absurd (ground arith))

-- A known key, and every required key.
abbrev pub IsKnown : String → Type 0
IsKnown key = (contains key required_keys ≡ true) ⊎ (contains key optional_keys ≡ true)

abbrev pub HasKey : Dict → String → Type 0
HasKey p key = (v : Json) × (dict_get key p ≡ some v)

pub IsKnown-iff :
    (p : Dict) → (any (λ entry. is_unknown entry.0) p ≡ false) ↔ All (λ entry. IsKnown entry.0) p
IsKnown-iff [] = (λ _. tt, λ _. refl)
IsKnown-iff ((key, v) ∷ p) =
    let rest = IsKnown-iff p in
    (
      λ h.
          let (x, y) = ||-false (is_unknown key) (any (λ entry. is_unknown entry.0) p) h in
          (either (contains key required_keys) (contains key optional_keys) x, rest.0 y),
      λ (k, ks). rw (rest.1 ks) (back (contains key required_keys) (contains key optional_keys) k),
    )
  where
    either : (a b : Bool) → not (a || b) ≡ false → (a ≡ true) ⊎ (b ≡ true)
    either true b h = inl refl
    either false true h = inr refl
    either false false h = absurd (ground arith)

    back : (a b : Bool) → (a ≡ true) ⊎ (b ≡ true) → (not (a || b) || false) ≡ false
    back a b h = ground arith

has_key_iff : (key : String) (p : Dict) → (has_key key p ≡ true) ↔ HasKey p key
unfolding has_key dict_get
has_key_iff key [] = (λ h. absurd (ground arith), λ (v, e). absurd (ground arith))
has_key_iff key ((name, w) ∷ p) = elim (Bool-cases (name == key)) [
  | inl here ↦ rw here (λ _. (w, refl), λ _. refl)
  | inr away ↦ rw away (has_key_iff key p)
]

pub required_iff :
    (keys : List String) (p : Dict)
    → (any (λ key. not (has_key key p)) keys ≡ false) ↔ All (HasKey p) keys
required_iff [] p = (λ _. tt, λ _. refl)
required_iff (key ∷ keys) p =
    let rest = required_iff keys p in
    (
      λ h.
          let (x, y) = ||-false (not (has_key key p)) (any (λ k. not (has_key k p)) keys) h in
          ((has_key_iff key p).0 (ground arith), rest.0 y),
      λ (k, ks). rw ((has_key_iff key p).1 k, rest.1 ks) refl,
    )
