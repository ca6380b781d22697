-- ===== src/Endgame/Reach.antt =====
-- The hypothetical boards of strategy/endgame.py against the boards of the engine.
use p2p_thief.Prelude.{◌≤◌, ◌≡◌, ◌⊎◌, inl, inr, refl, ap, Bool, true, false, not}
use p2p_thief.Prelude.{◌&&◌, ◌||◌, arith, Bool-cases}
use p2p_thief.Prelude.{List, [], ◌∷◌, all, any, contains, Equality, ==_iff, ◌==◌, ok}
use p2p_thief.Prelude.Int.{ℤ, pos, negsuc, ◌+ℤ◌, ◌-ℤ◌, abs}
use mathlib.Core.Path.{fun_ext}
use p2p_thief.Primitives.{
  Cell, cell_equality, eqb_cell, eqb_cell_iff, Move, north, south, east, west, stay, applied_to,
}
use p2p_thief.Board
use p2p_thief.Board.{Board, in_bounds, is_barrier, orthogonal_moves, apply_move}
use p2p_thief.Board.Laws.{applied_to-stay}
use p2p_thief.Rules.{distance}
use p2p_thief.Endgame.{View, is_passable, is_surrounded, with_wall, is_stay, wall_cells}
use p2p_thief.Endgame.Plain.{view_of}

module _ {ℓ} {A : Type ℓ} ⦃e : Equality A⦄ (p : A → Bool) where
  pub all-contains : (xs : List A) (a : A) → all p xs ≡ true → contains a xs ≡ true → p a ≡ true
  unfolding contains
  all-contains [] a h here = cc
  all-contains (x ∷ xs) a h here = ground (arith, ==_iff a x, all-contains xs a)

pub any-some {ℓ} :
    {A : Type ℓ} (p : A → Bool) (xs : List A) → any p xs ≡ true → (a : A) × (p a ≡ true)
any-some p [] h = cc
any-some p (x ∷ xs) h = elim (Bool-cases (p x)) [
  | inl found ↦ (x, found)
  | inr other ↦ any-some p xs (ground arith)
]

eqb_cell_refl : (c : Cell) → eqb_cell c c ≡ true
eqb_cell_refl c = (eqb_cell_iff c c).1 refl

-- Integers at a distance of one at most.
gap-cases :
    (a b : ℤ)
    → abs (a -ℤ b) ≤ 1
    → ((b ≡ a +ℤ pos 0) × (abs (a -ℤ b) ≡ 0))
      ⊎ ((abs (a -ℤ b) ≡ 1) × ((b ≡ a +ℤ pos 1) ⊎ (b ≡ a +ℤ negsuc 0)))
unfolding ◌-ℤ◌ ◌+ℤ◌
gap-cases (pos a) (pos b) h = ground arith
gap-cases (pos a) (negsuc b) h = ground arith
gap-cases (negsuc a) (pos b) h = ground arith
gap-cases (negsuc a) (negsuc b) h = ground arith

-- So are cells at a distance of one at most: one is a move away from the other.
near-move : (cop target : Cell) → distance cop target ≤ 1 → (m : Move) × (target ≡ applied_to m cop)
unfolding applied_to
near-move (r, c) (r', c') h =
    let row = gap-cases r r' (omega arith) in
    let col = gap-cases c c' (omega arith) in
    elim row [
      | inl (e, flat) ↦ elim col [
        | inl (e', _) ↦ (stay, ground arith)
        | inr (_, inl e') ↦ (east, ground arith)
        | inr (_, inr e') ↦ (west, ground arith)
      ]
      | inr (far, step) ↦ elim col [
        | inl (e', _) ↦ elim step [ inl e ↦ (south, ground arith) | inr e ↦ (north, ground arith) ]
        | inr (far', _) ↦ absurd (omega arith)
      ]
    ]

contains-wall_cells : (cop : Cell) (m : Move) → contains (applied_to m cop) (wall_cells cop) ≡ true
unfolding contains
contains-wall_cells cop stay = ground (arith, eqb_cell_refl cop, applied_to-stay cop)
contains-wall_cells cop north = ground (arith, eqb_cell_refl (applied_to north cop))
contains-wall_cells cop south = ground (arith, eqb_cell_refl (applied_to south cop))
contains-wall_cells cop east = ground (arith, eqb_cell_refl (applied_to east cop))
contains-wall_cells cop west = ground (arith, eqb_cell_refl (applied_to west cop))

-- The cells in the law's reach are the five that the search tries.
pub near-contains :
    (cop target : Cell) → distance cop target ≤ 1 → contains target (wall_cells cop) ≡ true
near-contains cop target h = let (m, e) = near-move cop target h in rw e (contains-wall_cells cop m)

-- A board and a view on which the same cells are passable.
abbrev pub SameCells : Board → View → Type 0
SameCells b v = (c : Cell) → Board.is_passable b c ≡ is_passable v c

pub is_surrounded-same :
    (b : Board) (v : View) (c : Cell) → SameCells b v → Board.is_surrounded b c ≡ is_surrounded v c
unfolding Board.is_surrounded is_surrounded
is_surrounded-same b v c same =
    ap (λ (f : Cell → Bool). all (λ m. not (f (applied_to m c))) orthogonal_moves) (fun_ext same)

pub contains-with_wall :
    (c w : Cell) (cs : List Cell) → contains c (with_wall w cs) ≡ (c == w || contains c cs)
unfolding contains with_wall
contains-with_wall c w [] = refl
contains-with_wall c w (d ∷ cs) = ground (arith, contains-with_wall c w cs)

-- The same wall on both.
pub SameCells-wall :
    (b : Board) (board : Board) (w : Cell) (extra : List Cell)
    → SameCells b (view_of board extra)
    → SameCells (record b { barriers = w ∷ b.barriers }) (view_of board (with_wall w extra))
unfolding Board.is_passable is_passable is_barrier in_bounds contains
SameCells-wall b board w extra same c = ground (arith, same c, contains-with_wall c w extra)

pub apply_move-grants :
    (b : Board) (c : Cell) (m : Move)
    → (not (is_stay m) && not (Board.is_passable b (applied_to m c))) ≡ false
    → apply_move b c m ≡ ok (applied_to m c)
unfolding apply_move Board.is_passable
apply_move-grants b c stay h = refl
apply_move-grants b c north h = ground arith
apply_move-grants b c south h = ground arith
apply_move-grants b c east h = ground arith
apply_move-grants b c west h = ground arith

pub apply_move-granted :
    (b : Board) (c : Cell) (m : Move) (cell : Cell)
    → apply_move b c m ≡ ok cell
    → (cell ≡ applied_to m c)
      × ((not (is_stay m) && not (Board.is_passable b (applied_to m c))) ≡ false)
unfolding apply_move Board.is_passable
apply_move-granted b c stay cell h = ground arith
apply_move-granted b c north cell h = ground arith
apply_move-granted b c south cell h = ground arith
apply_move-granted b c east cell h = ground arith
apply_move-granted b c west cell h = ground arith
