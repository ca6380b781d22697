-- ===== src/Foreign/Moved.antt =====
-- The check of the revealed movement, in terms of the moves of the game.
use p2p_thief.Prelude.{
  zero, suc, ◌+◌, true, false, not, ◌&&◌, ◌≡◌, refl, sym, ◌∙◌, ap, subst, ◌↔◌, ◌==◌, ==_iff, List,
  [], ◌∷◌, none, some, ok, All, arith, Bool-cases, ◌⊎◌, inl, inr, &&-true, ltb,
}
use p2p_thief.Prelude.Int.{ℤ, pos, negsuc, ◌+ℤ◌, ◌-ℤ◌, abs, int_laws, ℤ_equality}
use p2p_thief.Primitives.{
  Cell, Move, north, south, east, west, stay, applied_to, delta, cell_equality,
}
use p2p_thief.Board.Laws.{Inside}
use p2p_thief.Foreign.{LiveRecord}
use p2p_thief.Foreign.Steps.{
  Stepped, by_step, int_position, on_board, seen, track_of, distance, adjacent_ok, movement_ok,
}
use p2p_thief.Foreign.Captures.{Shows}

add_sub : (a d : ℤ) → (a +ℤ d) -ℤ a ≡ d
add_sub a d = omega int_laws

sub_add : (a c : ℤ) → a +ℤ (c -ℤ a) ≡ c
sub_add a c = omega int_laws

-- Two cells are a move apart.
abbrev pub Reaches : Cell → Cell → Type 0
Reaches a b = (m : Move) × (applied_to m a ≡ b)

distance-delta :
    (m : Move) (a : Cell) → distance a (applied_to m a) ≡ abs (delta m).0 + abs (delta m).1
unfolding applied_to
distance-delta m (a, b) = rw (add_sub a (delta m).0, add_sub b (delta m).1) refl

delta-short : (m : Move) → ltb 1 (abs (delta m).0 + abs (delta m).1) ≡ false
delta-short north = refl
delta-short south = refl
delta-short east = refl
delta-short west = refl
delta-short stay = refl

-- A vector of length at most 1 is that of a move.
unit_move :
    (x y : ℤ) → ltb 1 (abs x + abs y) ≡ false → (m : Move) × ((delta m).0 ≡ x) × ((delta m).1 ≡ y)
unit_move (pos zero) (pos zero) h = (stay, refl, refl)
unit_move (pos zero) (pos (suc zero)) h = (east, refl, refl)
unit_move (pos zero) (negsuc zero) h = (west, refl, refl)
unit_move (pos (suc zero)) (pos zero) h = (south, refl, refl)
unit_move (negsuc zero) (pos zero) h = (north, refl, refl)
unit_move _ _ h = absurd (ground arith)

distance_iff : (a b : Cell) → (ltb 1 (distance a b) ≡ false) ↔ Reaches a b
unfolding applied_to
distance_iff (a, b) (c, d) = (
  λ h.
      let (m, x, y) = unit_move (c -ℤ a) (d -ℤ b) h in
      (m, pair (ap (λ n. a +ℤ n) x ∙ sub_add a c) (ap (λ n. b +ℤ n) y ∙ sub_add b d)),
  λ (m, e).
      subst (λ p. ltb 1 (distance (a, b) p) ≡ false) e
        (ap (ltb 1) (distance-delta m (a, b)) ∙ delta-short m),
)
  where
    pair : {p q r s : ℤ} → p ≡ r → q ≡ s → ◌≡◌ {A = Cell} (p, q) (r, s)
    pair {q = q} {r = r} e f = ap (λ x. (x, q)) e ∙ ap (λ y. (r, y)) f

-- Positions of neighbouring steps are a move apart.
abbrev pub IsWalk : List (ℤ × Cell) → Type 0
IsWalk [] = Unit {0}
IsWalk (a ∷ []) = Unit {0}
IsWalk (a ∷ b ∷ ps) = (b.0 ≡ a.0 +ℤ pos 1 → Reaches a.1 b.1) × IsWalk (b ∷ ps)

step_iff :
    (n m : ℤ) (a b : Cell)
    → (not (m == n +ℤ pos 1 && ltb 1 (distance a b)) ≡ true) ↔ (m ≡ n +ℤ pos 1 → Reaches a b)
step_iff n m a b = elim (Bool-cases (m == n +ℤ pos 1)) [
  | inr later ↦
      rw later (λ _ e. absurd (clash (sym later ∙ (==_iff m (n +ℤ pos 1)).1 e)), λ _. refl)
  | inl next ↦ rw next (
    λ h _. (distance_iff a b).0 (ground arith),
    λ walks. rw ((distance_iff a b).1 (walks ((==_iff m (n +ℤ pos 1)).0 next))) refl,
  )
]
  where
    clash : false ≡ true → ⊥
    clash h = cc

adjacent_ok_iff : (ps : List (ℤ × Cell)) → (adjacent_ok ps ≡ true) ↔ IsWalk ps
adjacent_ok_iff [] = (λ _. tt, λ _. refl)
adjacent_ok_iff (a ∷ []) = (λ _. tt, λ _. refl)
adjacent_ok_iff ((n, a) ∷ (m, b) ∷ ps) =
    let here = step_iff n m a b in
    let rest = adjacent_ok_iff ((m, b) ∷ ps) in
    (
      λ h. let (x, y) = &&-true _ (adjacent_ok ((m, b) ∷ ps)) h in (here.0 x, rest.0 y),
      λ (x, y). rw (here.1 x, rest.1 y) refl,
    )

-- Every position has its row and its column between 0 and the side of the grid.
abbrev pub IsOn : ℤ → List (ℤ × Cell) → Type 0
IsOn grid ps = All (λ p. Inside grid p.1) ps

on_board_iff : (grid : ℤ) (c : Cell) → (on_board grid c ≡ true) ↔ Inside grid c
on_board_iff grid (row, col) = (λ h. ground arith, λ h. ground arith)

-- The track of records that show positions is these positions, if none is off the board.
track_of-IsOn :
    (grid : ℤ) (es : List Stepped) (ps : List (ℤ × Cell))
    → Shows es ps
    → ((track_of grid es ≡ some ps) × IsOn grid ps) ⊎ ((track_of grid es ≡ none) × (¬ IsOn grid ps))
track_of-IsOn grid [] [] shows = inl (refl, tt)
track_of-IsOn grid [] (p ∷ ps) shows = absurd shows
track_of-IsOn grid (e ∷ es) [] shows = absurd shows
track_of-IsOn grid ((step, m) ∷ es) ((at, (row, col)) ∷ ps) (same, position, shows) =
    let here : track_of grid ((step, m) ∷ es) ≡ seen grid at (some (row, col)) (track_of grid es) =
      ap (λ v. seen grid step (int_position v) (track_of grid es)) position
      ∙ ap (λ n. seen grid n (some (row, col)) (track_of grid es)) same in
    elim (track_of-IsOn grid es ps shows) [
      | inr (e, bad) ↦ inr (here ∙ ap (seen grid at (some (row, col))) e, λ (on, rest). bad rest)
      | inl (e, rest) ↦
          let kept = here ∙ ap (seen grid at (some (row, col))) e in
          elim (Bool-cases (on_board grid (row, col))) [
            | inr off ↦ inr (
              kept ∙ rw off refl,
              λ (on, all). absurd (clash (sym off ∙ (on_board_iff grid (row, col)).1 on)),
            )
            | inl on ↦ inl (kept ∙ rw on refl, ((on_board_iff grid (row, col)).0 on, rest))
          ]
    ]
  where
    clash : false ≡ true → ⊥
    clash h = cc

-- On records that show positions of integers, the check of the movement holds exactly when every
-- position is on the board and those of neighbouring steps are a move of the game apart; otherwise it
-- fails, and it raises nothing.
pub movement_ok_iff :
    (rs : List LiveRecord) (grid : ℤ) (es : List Stepped) (ps : List (ℤ × Cell))
    → by_step rs ≡ ok es
    → Shows es ps
    → ((movement_ok rs grid ≡ ok true) × IsOn grid ps × IsWalk ps)
      ⊎ ((movement_ok rs grid ≡ ok false) × (¬ (IsOn grid ps × IsWalk ps)))
unfolding movement_ok
movement_ok_iff rs grid es ps sorted shows = elim (track_of-IsOn grid es ps shows) [
  | inr (e, bad) ↦ rw (sorted, e) (inr (refl, λ (on, walk). bad on))
  | inl (e, on) ↦ elim (Bool-cases (adjacent_ok ps)) [
    | inl walks ↦ rw (sorted, e, walks) (inl (refl, on, (adjacent_ok_iff ps).0 walks))
    | inr stops ↦
        rw (sorted, e, stops)
          (inr (refl, λ (on_it, walk). absurd (clash (sym stops ∙ (adjacent_ok_iff ps).1 walk))))
  ]
]
  where
    clash : false ≡ true → ⊥
    clash h = cc
