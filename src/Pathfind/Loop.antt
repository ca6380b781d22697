-- ===== src/Pathfind/Loop.antt =====
-- The loop of domain/pathfind.py, layer by layer, to an empty queue.
use p2p_thief.Prelude.{ℕ, zero, suc, ◌+◌, ◌≤◌, ◌<◌, ◌≡◌, ◌≢◌, refl, sym, ap, subst, ◌∙◌, inl, inr}
use p2p_thief.Prelude.{
  Bool, true, false, ◌||◌, arith, Bool-cases, List, [], ◌∷◌, ◌++◌, length, length-append,
}
use p2p_thief.Prelude.{All, contains, ◌==◌, ==_iff, Option, none, some, some_inj, dict_get}
use p2p_thief.Primitives.{Cell, cell_equality, Move, north, south, east, west, stay, applied_to}
use p2p_thief.Board.{Board, is_passable, orthogonal_moves}
use p2p_thief.Pathfind.{Distances, Progress, visit_all, bfs_loop, grid_cells}
use p2p_thief.Pathfind.Walk.{Walk, here, onward}
use p2p_thief.Prelude.{contains-append}
use p2p_thief.Pathfind.Visit.{
  undiscovered, Within, Known, Grown, Grown-Within, visit_all-Grown, append_assoc, All-append,
  layer-kept,
}

steps : All (λ m. m ≢ stay) orthogonal_moves
steps = ((λ e. cc), ((λ e. cc), ((λ e. cc), ((λ e. cc), tt))))

at_move {κ} : (P : Move → Type κ) (m : Move) → m ≢ stay → All P orthogonal_moves → P m
at_move P north moves (n, _) = n
at_move P south moves (_, (s, _)) = s
at_move P east moves (_, (_, (e, _))) = e
at_move P west moves (_, (_, (_, (w, _)))) = w
at_move P stay moves _ = absurd (moves refl)

append_nil : (q : List Cell) → q ++ [] ≡ q
append_nil [] = refl
append_nil (x ∷ q) = ap (λ (r : List Cell). x ∷ r) (append_nil q)

nowhere : (x : Cell) → contains x [] ≡ false
unfolding contains
nowhere x = refl

pub undiscovered-le : (d : Distances) (cs : List Cell) → undiscovered d cs ≤ length cs
unfolding undiscovered
undiscovered-le d [] = omega arith
undiscovered-le d (c ∷ cs) = ground (arith, undiscovered-le d cs)

pub at_most_one : (j : ℕ) → 0 ≡ j → j ≤ 0 + 1
at_most_one j h = omega (arith, h)

pub none-some {ℓ} : {A : Type ℓ} {a : A} → none ≡ some a → ⊥
none-some h = cc

pub true-false : true ≡ false → ⊥
true-false h = cc

in_queue :
    (x : Cell) (near far new : List Cell)
    → contains x new ≡ true
    → contains x (near ++ (far ++ new)) ≡ true
in_queue x near far new h =
    contains-append x near (far ++ new)
    ∙ ap (λ t. contains x near || t) (contains-append x far new)
    ∙ ground arith

away_before :
    (x c : Cell) (near far new : List Cell)
    → (x == c) ≡ false
    → contains x (near ++ (far ++ new)) ≡ false
    → contains x (c ∷ (near ++ far)) ≡ false
unfolding contains
away_before x c near far new other away =
    ap (λ t. t || contains x (near ++ far)) other
    ∙ contains-append x near far
    ∙ away_from (contains x near) (contains x far) (contains x new) (
        sym (
          contains-append x near (far ++ new)
          ∙ ap (λ t. contains x near || t) (contains-append x far new))
        ∙ away)
  where
    away_from : (a b n : Bool) → (a || (b || n)) ≡ false → (a || b) ≡ false
    away_from a b n h = ground arith

module _ (board : Board) (source : Cell) where
  -- The passable neighbours of a cell at distance `j` have distances of `j + 1` at most.
  abbrev pub Closed : Distances → Cell → ℕ → Type 0
  Closed d x j =
      (m : Move)
      → m ≢ stay
      → is_passable board (applied_to m x) ≡ true
      → (i : ℕ) × (dict_get (applied_to m x) d ≡ some i) × (i ≤ j + 1)

  -- The queue holds cells at distance `h`, then cells at distance `h + 1`.
  pub record Layered (d : Distances) (h : ℕ) (near far : List Cell) : Type 0 where
    pub at_source : dict_get source d ≡ some 0
    pub sound : (x : Cell) (j : ℕ) → dict_get x d ≡ some j → Walk board source j x
    pub bound : Within (h + 1) d
    pub at_near : All (λ x. dict_get x d ≡ some h) near
    pub at_far : All (λ x. dict_get x d ≡ some (h + 1)) far
    pub closed :
        (x : Cell) (j : ℕ) → dict_get x d ≡ some j → contains x (near ++ far) ≡ false → Closed d x j

  -- Every cell that a walk reaches has a distance, and each distance is the length of a walk.
  pub record IsComplete (d : Distances) : Type 0 where
    pub at_source : dict_get source d ≡ some 0
    pub sound : (x : Cell) (j : ℕ) → dict_get x d ≡ some j → Walk board source j x
    pub closed : (x : Cell) (j : ℕ) → dict_get x d ≡ some j → Closed d x j

  pub complete-least :
      (d : Distances) {j : ℕ} {x : Cell}
      → IsComplete d
      → Walk board source j x
      → (k : ℕ) × (dict_get x d ≡ some k) × (k ≤ j)
  complete-least d whole here = (0, whole.at_source, omega arith)
  complete-least d whole (onward next m w moves e free) =
      let (k, there, le) = complete-least d whole w in
      let (i, found, near) =
        whole.closed _ k there m moves (subst (λ y. is_passable board y ≡ true) e free) in
      (i, ap (λ y. dict_get y d) e ∙ found, omega (arith, near, le))

  bfs_loop-cons :
      (fuel : ℕ) (d : Distances) (c : Cell) (q : List Cell) (k : ℕ)
      → dict_get c d ≡ some k
      → bfs_loop (suc fuel) board (d, c ∷ q)
        ≡ bfs_loop fuel board (visit_all board c k orthogonal_moves (d, q))
  unfolding bfs_loop
  bfs_loop-cons fuel d c q k e =
      subst
        (λ (o : Option ℕ).
          elim o [
            | none ↦ none
            | some k ↦ bfs_loop fuel board (visit_all board c k orthogonal_moves (d, q))
          ]
          ≡ bfs_loop fuel board (visit_all board c k orthogonal_moves (d, q)))
        (sym e) refl

  -- One pass over a cell of the nearer layer.
  module _ (d : Distances) (h : ℕ) (c : Cell) (near far : List Cell)
      (k : Layered d h (c ∷ near) far) (s' : Progress)
      (g : Grown board c h (d, near ++ far) s' orthogonal_moves) where
    pass-Layered : Layered s'.0 h near (far ++ g.new)
    pass-Layered = record {
      at_source = g.kept source 0 k.at_source;
      sound = λ x j e. elim (g.found x j e) [
        | inl old ↦ k.sound x j old
        | inr (far_one, _, (m, moves, there, free)) ↦
            subst (λ n. Walk board source n x) (omega (arith, far_one))
              (onward x m (k.sound c h k.at_near.0) moves there free)
      ];
      bound = Grown-Within board c h (d, near ++ far) s' orthogonal_moves g k.bound;
      at_near = layer-kept board c h h d s'.0 near g.kept k.at_near.1;
      at_far =
          All-append _ far g.new (layer-kept board c h (h + 1) d s'.0 far g.kept k.at_far) g.layer;
      closed = λ x j e away. elim (g.found x j e) [
        | inr (_, queued, _) ↦ absurd (true-false (sym (in_queue x near far g.new queued) ∙ away))
        | inl old ↦ elim (Bool-cases (x == c)) [
          | inl same ↦
              let at_c = (==_iff x c).0 same in
              let j_is : j ≡ h = some_inj (sym old ∙ ap (λ y. dict_get y d) at_c ∙ k.at_near.0) in
              λ m moves free.
                let (i, there, le) =
                  at_move (Known board c h s'.0) m moves g.known
                    (subst (λ y. is_passable board (applied_to m y) ≡ true) at_c free) in
                (i, ap (λ y. dict_get (applied_to m y) s'.0) at_c ∙ there, omega (arith, le, j_is))
          | inr other ↦ λ m moves free.
              let (i, there, le) =
                k.closed x j old (away_before x c near far g.new other away) m moves free in
              (i, g.kept (applied_to m x) i there, le)
        ]
      ];
    }

  empty : (fuel : ℕ) (d : Distances) → bfs_loop (suc fuel) board (d, []) ≡ some d
  unfolding bfs_loop
  empty fuel d = refl

  -- What the loop returns, from a queue in two layers.
  abbrev pub Returns : ℕ → Distances → List Cell → Type 0
  Returns fuel d q = (d' : Distances) × (bfs_loop fuel board (d, q) ≡ some d') × IsComplete d'

  abbrev pub Enough : ℕ → Distances → List Cell → Type 0
  Enough fuel d q = undiscovered d (grid_cells board) + length q < fuel

  pass-Returns :
      (fuel : ℕ)
      → ((d : Distances) (h : ℕ) (near far q : List Cell)
          → q ≡ near ++ far
          → Enough fuel d q
          → Layered d h near far
          → Returns fuel d q)
      → (d : Distances) (h : ℕ) (c : Cell) (near far q : List Cell) → q ≡ near ++ far
      → Enough (suc fuel) d (c ∷ q)
      → Layered d h (c ∷ near) far
      → Returns (suc fuel) d (c ∷ q)
  pass-Returns fuel later d h c near far q e enough k =
      let s' = visit_all board c h orthogonal_moves (d, near ++ far) in
      let g : Grown board c h (d, near ++ far) s' orthogonal_moves =
        visit_all-Grown board c h orthogonal_moves (d, near ++ far) steps k.bound in
      let queue : s'.1 ≡ near ++ (far ++ g.new) = g.queued ∙ append_assoc near far g.new in
      let left : length s'.1 ≡ length q + length g.new =
        ap length g.queued
        ∙ length-append (near ++ far) g.new
        ∙ ap (λ (x : List Cell). length x + length g.new) (sym e) in
      let (d', returned, whole) =
        later s'.0 h near (far ++ g.new) s'.1 queue (omega (arith, g.fewer, left))
          (pass-Layered d h c near far k s' g) in
      (
        d',
        ap (λ (x : List Cell). bfs_loop (suc fuel) board (d, c ∷ x)) e
            ∙ bfs_loop-cons fuel d c (near ++ far) h k.at_near.0
            ∙ returned,
        whole,
      )

  -- The further layer becomes the nearer one.
  next-Layered :
      (d : Distances) (h : ℕ) (far : List Cell) → Layered d h [] far → Layered d (h + 1) far []
  next-Layered d h far k = record {
    at_source = k.at_source;
    sound = k.sound;
    bound = λ x j e. omega (arith, k.bound x j e);
    at_near = k.at_far;
    at_far = tt;
    closed = λ x j e away.
        k.closed x j e (subst (λ (q : List Cell). contains x q ≡ false) (append_nil far) away);
  }

  pub bfs_loop-Returns :
      (fuel : ℕ) (d : Distances) (h : ℕ) (near far q : List Cell)
      → q ≡ near ++ far
      → Enough fuel d q
      → Layered d h near far
      → Returns fuel d q
  bfs_loop-Returns zero d h near far q e enough k = absurd (omega arith)
  bfs_loop-Returns (suc fuel) d h (c ∷ near) far q e enough k =
      subst (Returns (suc fuel) d) (sym e) (
        pass-Returns fuel (bfs_loop-Returns fuel) d h c near far (near ++ far) refl
          (subst (Enough (suc fuel) d) e enough) k)
  bfs_loop-Returns (suc fuel) d h [] (c ∷ far) q e enough k = subst (Returns (suc fuel) d) (sym e) (
      pass-Returns fuel (bfs_loop-Returns fuel) d (h + 1) c far [] far (sym (append_nil far))
        (subst (Enough (suc fuel) d) e enough) (next-Layered d h (c ∷ far) k))
  bfs_loop-Returns (suc fuel) d h [] [] q e enough k = subst (Returns (suc fuel) d) (sym e) (
    d,
    empty fuel d,
    record {
      at_source = k.at_source;
      sound = k.sound;
      closed = λ x j found. k.closed x j found (nowhere x);
    },
  )
