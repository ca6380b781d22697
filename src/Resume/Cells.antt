-- ===== src/Resume/Cells.antt =====
-- Cells in order, as wire/hidden_resume.py writes and reads the barriers.
use p2p_thief.Prelude.{suc, ◌+◌, ◌≡◌, refl, sym, ap, ◌∙◌, inl, inr, true, false, ◌||◌}
use p2p_thief.Prelude.{
  arith, List, [], ◌∷◌, length, All, contains, ◌==◌, ==_comm, Bool-cases, ok, if_true, if_false,
  subst, ||-false,
}
use p2p_thief.Prelude.Int.{ℤ, eqb_ℤ_iff}
use p2p_thief.Primitives.{Cell, cell_equality}
use p2p_thief.Board.{Board, in_bounds, is_barrier, add_barrier}
use p2p_thief.Board.Laws
use p2p_thief.Board.Laws.{IsDistinct}
use p2p_thief.Endgame.{precedes, with_wall}
use p2p_thief.Endgame.Reach.{contains-with_wall}
use p2p_thief.Endgame.Memo.{length-with_wall}
use p2p_thief.Resume.{sorted_cells, restore_barriers}

-- The order of the cells is strict and total.
precedes_trans : (a b c : Cell) → precedes a b ≡ true → precedes b c ≡ true → precedes a c ≡ true
precedes_trans (a, a') (b, b') (c, c') h k = ground arith

precedes_asym : (a b : Cell) → precedes a b ≡ true → precedes b a ≡ false
precedes_asym (a, a') (b, b') h = ground arith

precedes_total : (a b : Cell) → precedes a b ≡ false → precedes b a ≡ false → a ≡ b
precedes_total (a, a') (b, b') h k = ground (arith, eqb_ℤ_iff a b, eqb_ℤ_iff a' b')

with_wall-first :
    (a c : Cell) (cs : List Cell) → precedes a c ≡ true → with_wall a (c ∷ cs) ≡ a ∷ c ∷ cs
unfolding with_wall
with_wall-first a c cs h = if_true (precedes a c) _ _ h

with_wall-later :
    (a c : Cell) (cs : List Cell) → precedes a c ≡ false → with_wall a (c ∷ cs) ≡ c ∷ with_wall a cs
unfolding with_wall
with_wall-later a c cs h = if_false (precedes a c) _ _ h

-- Two cells in their order, put into a list one after the other.
module _ (a b : Cell) (before : precedes a b ≡ true) where
  after : precedes b a ≡ false
  after = precedes_asym a b before

  with_wall_swap : (cs : List Cell) → with_wall a (with_wall b cs) ≡ with_wall b (with_wall a cs)
  unfolding with_wall
  with_wall_swap [] = with_wall-first a b [] before ∙ sym (with_wall-later b a [] after)
  with_wall_swap (c ∷ cs) = elim (Bool-cases (precedes b c)) [
    | inl bc ↦
        let ac = precedes_trans a b c before bc in
        ap (with_wall a) (with_wall-first b c cs bc)
        ∙ with_wall-first a b (c ∷ cs) before
        ∙ sym (
            ap (with_wall b) (with_wall-first a c cs ac)
            ∙ with_wall-later b a (c ∷ cs) after
            ∙ ap (λ (r : List Cell). a ∷ r) (with_wall-first b c cs bc))
    | inr cb ↦ elim (Bool-cases (precedes a c)) [
      | inl ac ↦
          ap (with_wall a) (with_wall-later b c cs cb)
          ∙ with_wall-first a c (with_wall b cs) ac
          ∙ sym (
              ap (with_wall b) (with_wall-first a c cs ac)
              ∙ with_wall-later b a (c ∷ cs) after
              ∙ ap (λ (r : List Cell). a ∷ r) (with_wall-later b c cs cb))
      | inr ca ↦
          ap (with_wall a) (with_wall-later b c cs cb)
          ∙ with_wall-later a c (with_wall b cs) ca
          ∙ ap (λ (r : List Cell). c ∷ r) (with_wall_swap cs)
          ∙ sym (
              ap (with_wall b) (with_wall-later a c cs ca)
              ∙ with_wall-later b c (with_wall a cs) cb)
    ]
  ]

with_wall_comm :
    (a b : Cell) (cs : List Cell) → with_wall a (with_wall b cs) ≡ with_wall b (with_wall a cs)
with_wall_comm a b cs = elim (Bool-cases (precedes a b)) [
  | inl ab ↦ with_wall_swap a b ab cs
  | inr ba ↦ elim (Bool-cases (precedes b a)) [
    | inl before ↦ sym (with_wall_swap b a before cs)
    | inr ab ↦ rw (precedes_total a b ba ab) refl
  ]
]

-- Every cell of a list put into another.
put_all : List Cell → List Cell → List Cell
put_all [] cs = cs
put_all (x ∷ xs) cs = with_wall x (put_all xs cs)

put_all-with_wall :
    (x : Cell) (xs cs : List Cell) → put_all xs (with_wall x cs) ≡ with_wall x (put_all xs cs)
unfolding put_all
put_all-with_wall x [] cs = refl
put_all-with_wall x (y ∷ xs) cs =
    ap (with_wall y) (put_all-with_wall x xs cs) ∙ with_wall_comm y x (put_all xs cs)

-- The cells of one list before another, turned round.
unfoldable pub onto : List Cell → List Cell → List Cell
onto [] cs = cs
onto (x ∷ xs) cs = onto xs (x ∷ cs)

sorted_cells-onto : (xs cs : List Cell) → sorted_cells (onto xs cs) ≡ put_all xs (sorted_cells cs)
unfolding onto put_all sorted_cells
sorted_cells-onto [] cs = refl
sorted_cells-onto (x ∷ xs) cs =
    sorted_cells-onto xs (x ∷ cs) ∙ put_all-with_wall x xs (sorted_cells cs)

sorted_cells-with_wall :
    (c : Cell) (cs : List Cell) → sorted_cells (with_wall c cs) ≡ with_wall c (sorted_cells cs)
unfolding sorted_cells with_wall
sorted_cells-with_wall c [] = refl
sorted_cells-with_wall c (d ∷ cs) = elim (Bool-cases (precedes c d)) [
  | inl first ↦ ap sorted_cells (with_wall-first c d cs first)
  | inr later ↦
      ap sorted_cells (with_wall-later c d cs later)
      ∙ ap (with_wall d) (sorted_cells-with_wall c cs)
      ∙ with_wall_comm d c (sorted_cells cs)
]

put_all-nil : (xs : List Cell) → put_all xs [] ≡ sorted_cells xs
unfolding put_all sorted_cells
put_all-nil [] = refl
put_all-nil (x ∷ xs) = ap (with_wall x) (put_all-nil xs)

sorted_cells_idem : (cs : List Cell) → sorted_cells (sorted_cells cs) ≡ sorted_cells cs
unfolding sorted_cells
sorted_cells_idem [] = refl
sorted_cells_idem (c ∷ cs) =
    sorted_cells-with_wall c (sorted_cells cs) ∙ ap (with_wall c) (sorted_cells_idem cs)

contains-sorted_cells : (c : Cell) (cs : List Cell) → contains c (sorted_cells cs) ≡ contains c cs
unfolding sorted_cells contains
contains-sorted_cells c [] = refl
contains-sorted_cells c (d ∷ cs) =
    contains-with_wall c d (sorted_cells cs) ∙ ap (λ t. c == d || t) (contains-sorted_cells c cs)

length-sorted_cells : (cs : List Cell) → length (sorted_cells cs) ≡ length cs
unfolding sorted_cells
length-sorted_cells [] = refl
length-sorted_cells (d ∷ cs) =
    length-with_wall d (sorted_cells cs) ∙ ap suc (length-sorted_cells cs)

contains-onto :
    (c : Cell) (xs cs : List Cell) → contains c (onto xs cs) ≡ (contains c xs || contains c cs)
unfolding onto contains
contains-onto c [] cs = refl
contains-onto c (x ∷ xs) cs = ground (arith, contains-onto c xs (x ∷ cs))

length-onto : (xs cs : List Cell) → length (onto xs cs) ≡ length xs + length cs
unfolding onto
length-onto [] cs = omega arith
length-onto (x ∷ xs) cs = omega (arith, length-onto xs (x ∷ cs))

All-with_wall {κ} :
    (P : Cell → Type κ) (c : Cell) (cs : List Cell) → P c → All P cs → All P (with_wall c cs)
unfolding with_wall
All-with_wall P c [] p ps = (p, tt)
All-with_wall P c (d ∷ cs) p (q, ps) = elim (Bool-cases (precedes c d)) [
  | inl first ↦ subst (All P) (sym (with_wall-first c d cs first)) (p, (q, ps))
  | inr later ↦ subst (All P) (sym (with_wall-later c d cs later)) (q, All-with_wall P c cs p ps)
]

All-sorted_cells {κ} : (P : Cell → Type κ) (cs : List Cell) → All P cs → All P (sorted_cells cs)
unfolding sorted_cells
All-sorted_cells P [] ps = tt
All-sorted_cells P (c ∷ cs) (p, ps) =
    All-with_wall P c (sorted_cells cs) p (All-sorted_cells P cs ps)

with_wall-IsDistinct :
    (c : Cell) (cs : List Cell)
    → contains c cs ≡ false
    → IsDistinct cs
    → IsDistinct (with_wall c cs)
unfolding with_wall contains
with_wall-IsDistinct c [] new distinct = (refl, tt)
with_wall-IsDistinct c (d ∷ cs) new (lone, distinct) = elim (Bool-cases (precedes c d)) [
  | inl first ↦ subst IsDistinct (sym (with_wall-first c d cs first)) (new, (lone, distinct))
  | inr later ↦
      let (apart, others) = ||-false (c == d) (contains c cs) new in
      subst IsDistinct (sym (with_wall-later c d cs later)) (
        contains-with_wall d c cs ∙ ap (λ t. t || contains d cs) (==_comm d c ∙ apart) ∙ lone,
        with_wall-IsDistinct c cs others distinct,
      )
]

sorted_cells-IsDistinct : (cs : List Cell) → IsDistinct cs → IsDistinct (sorted_cells cs)
unfolding sorted_cells
sorted_cells-IsDistinct [] distinct = tt
sorted_cells-IsDistinct (c ∷ cs) (lone, distinct) =
    with_wall-IsDistinct c (sorted_cells cs) (contains-sorted_cells c cs ∙ lone)
      (sorted_cells-IsDistinct cs distinct)

-- A wall more, next to cells that are not it.
All-free :
    (x : Cell) (bs xs : List Cell)
    → contains x xs ≡ false
    → All (λ y. contains y bs ≡ false) xs
    → All (λ y. contains y (x ∷ bs) ≡ false) xs
unfolding contains
All-free x bs [] lone free = tt
All-free x bs (y ∷ ys) lone (f, free) =
    let (apart, others) = ||-false (x == y) (contains x ys) lone in
    (ap (λ t. t || contains y bs) (==_comm y x ∙ apart) ∙ f, All-free x bs ys others free)

add_barrier-new :
    (b : Board) (c : Cell)
    → in_bounds b c ≡ true
    → contains c b.barriers ≡ false
    → add_barrier b c ≡ ok (record b { barriers = c ∷ b.barriers })
unfolding add_barrier is_barrier
add_barrier-new b c inside free = rw (inside, free) refl

restore_barriers-onto :
    (g : ℤ) (xs bs : List Cell)
    → All (λ c. in_bounds (record { grid_size = g; barriers = [] }) c ≡ true) xs
    → IsDistinct xs
    → All (λ c. contains c bs ≡ false) xs
    → restore_barriers xs (record { grid_size = g; barriers = bs })
      ≡ ok (record { grid_size = g; barriers = onto xs bs })
unfolding restore_barriers onto in_bounds
restore_barriers-onto g [] bs inside distinct free = refl
restore_barriers-onto g (x ∷ xs) bs (i, inside) (lone, distinct) (f, free) =
    rw (add_barrier-new (record { grid_size = g; barriers = bs }) x i f)
      (restore_barriers-onto g xs (x ∷ bs) inside distinct (All-free x bs xs lone free))

All-nil : (cs : List Cell) → All (λ c. contains c [] ≡ false) cs
unfolding contains
All-nil [] = tt
All-nil (c ∷ cs) = (refl, All-nil cs)

-- The barriers of a board as they are read back: in another order.
unfoldable pub restored : List Cell → List Cell
restored cs = onto (sorted_cells cs) []

module _ (b : Board) (valid : Laws.IsValid b) where
  pub restore_barriers-restored :
      restore_barriers (sorted_cells b.barriers) (record { grid_size = b.grid_size; barriers = [] })
      ≡ ok (record { grid_size = b.grid_size; barriers = restored b.barriers })
  unfolding restored in_bounds
  restore_barriers-restored =
      restore_barriers-onto b.grid_size (sorted_cells b.barriers) []
        (All-sorted_cells _ b.barriers valid.inside)
        (sorted_cells-IsDistinct b.barriers valid.distinct) (All-nil (sorted_cells b.barriers))

pub contains-restored : (c : Cell) (cs : List Cell) → contains c (restored cs) ≡ contains c cs
unfolding restored contains
contains-restored c cs =
    contains-onto c (sorted_cells cs) [] ∙ ground (arith, contains-sorted_cells c cs)

pub length-restored : (cs : List Cell) → length (restored cs) ≡ length cs
unfolding restored
length-restored cs = omega (arith, length-onto (sorted_cells cs) [], length-sorted_cells cs)

-- The digest, which takes the barriers in order, is the same after the restoration.
pub sorted_cells-restored : (cs : List Cell) → sorted_cells (restored cs) ≡ sorted_cells cs
unfolding restored sorted_cells
sorted_cells-restored cs =
    sorted_cells-onto (sorted_cells cs) [] ∙ put_all-nil (sorted_cells cs) ∙ sorted_cells_idem cs
