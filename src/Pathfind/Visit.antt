-- ===== src/Pathfind/Visit.antt =====
-- One cell of the queue of domain/pathfind.py: its neighbours.
use p2p_thief.Prelude.{ℕ, suc, ◌+◌, ◌≤◌, ◌≡◌, ◌≢◌, ◌⊎◌, refl, sym, ap, subst, ◌∙◌, inl, inr}
use p2p_thief.Prelude.{
  Bool, true, false, not, ◌&&◌, ◌||◌, arith, Bool-cases, if◌then◌else◌, if_true, if_false,
}
use p2p_thief.Prelude.{
  List, [], ◌∷◌, ◌++◌, length, length-append, All, contains, contains_self, ◌==◌, ==_iff, ==_refl,
}
use p2p_thief.Prelude.{none, some, some_inj, has_key, dict_get, dict_set, dict_get-set, Equality}
use p2p_thief.Primitives.{Cell, cell_equality, Move, stay, applied_to}
use p2p_thief.Board.{Board, in_bounds, is_passable}
use p2p_thief.Pathfind.{Distances, Progress, visit, visit_all, grid_cells}
use p2p_thief.Pathfind.Walk.{contains-grid_cells}
use p2p_thief.Prelude.{contains-append}

module _ {ℓ κ} {K : Type ℓ} {V : Type κ} ⦃e : Equality K⦄ where
  has_key-none : (c : K) (d : List (K × V)) → has_key c d ≡ false → dict_get c d ≡ none
  unfolding has_key dict_get
  has_key-none c [] h = refl
  has_key-none c ((j, v) ∷ d) h = ground (arith, has_key-none c d)

  has_key-some : (c : K) (d : List (K × V)) → has_key c d ≡ true → (k : V) × (dict_get c d ≡ some k)
  unfolding has_key dict_get
  has_key-some c [] h = cc
  has_key-some c ((j, v) ∷ d) h = elim (Bool-cases (j == c)) [
    | inl same ↦ (v, if_true (j == c) _ _ same)
    | inr other ↦
        let (k, found) = has_key-some c d (ground arith) in (k, if_false (j == c) _ _ other ∙ found)
  ]

  -- The cells of a list that have no distance yet.
  unfoldable pub undiscovered : List (K × V) → List K → ℕ
  undiscovered d [] = 0
  undiscovered d (c ∷ cs) = if has_key c d then undiscovered d cs else suc (undiscovered d cs)

  has_key-dict_set :
      (c x : K) (k : V) (d : List (K × V)) → has_key x (dict_set c k d) ≡ (c == x || has_key x d)
  unfolding has_key dict_set
  has_key-dict_set c x k [] = refl
  has_key-dict_set c x k ((j, v) ∷ d) =
      ground (arith, e.test_iff j c, e.test_iff c x, e.test_iff j x, has_key-dict_set c x k d)

  undiscovered-dict_set-le :
      (c : K) (k : V) (d : List (K × V)) (cs : List K)
      → undiscovered (dict_set c k d) cs ≤ undiscovered d cs
  unfolding undiscovered
  undiscovered-dict_set-le c k d [] = omega arith
  undiscovered-dict_set-le c k d (x ∷ cs) =
      ground (arith, has_key-dict_set c x k d, undiscovered-dict_set-le c k d cs)

  -- A cell that gets its first distance is one fewer.
  undiscovered-dict_set :
      (c : K) (k : V) (d : List (K × V)) (cs : List K)
      → contains c cs ≡ true
      → has_key c d ≡ false
      → undiscovered (dict_set c k d) cs + 1 ≤ undiscovered d cs
  unfolding undiscovered contains
  undiscovered-dict_set c k d [] here new = cc
  undiscovered-dict_set c k d (x ∷ cs) here new = elim (Bool-cases (c == x)) [
    | inl same ↦
        ground (arith, has_key-dict_set c x k d, undiscovered-dict_set-le c k d cs, ==_iff c x)
    | inr other ↦ ground (arith, has_key-dict_set c x k d, undiscovered-dict_set c k d cs)
  ]

true-false : true ≡ false → ⊥
true-false h = cc

le_refl : (n : ℕ) → n ≤ n
le_refl n = omega arith

or_true : (a b : Bool) → b ≡ true → (a || b) ≡ true
or_true a b h = ground arith

pub append_assoc {ℓ} : {A : Type ℓ} (xs ys zs : List A) → (xs ++ ys) ++ zs ≡ xs ++ (ys ++ zs)
append_assoc [] ys zs = refl
append_assoc (x ∷ xs) ys zs = ap (λ (r : List _). x ∷ r) (append_assoc xs ys zs)

pub All-append {ℓ κ} :
    {A : Type ℓ} (P : A → Type κ) (xs ys : List A) → All P xs → All P ys → All P (xs ++ ys)
All-append P [] ys ps qs = qs
All-append P (x ∷ xs) ys (p, ps) qs = (p, All-append P xs ys ps qs)

none-some {ℓ} : {A : Type ℓ} {a : A} → none ≡ some a → ⊥
none-some h = cc

passable-in_bounds : (b : Board) (c : Cell) → is_passable b c ≡ true → in_bounds b c ≡ true
unfolding is_passable
passable-in_bounds b c h = ground arith

-- All distances are at most `k`.
abbrev pub Within : ℕ → Distances → Type 0
Within k d = (x : Cell) (j : ℕ) → dict_get x d ≡ some j → j ≤ k

module _ (board : Board) (cell : Cell) (k : ℕ) where
  abbrev pub Stepped : Cell → Type 0
  Stepped x = (m : Move) × (m ≢ stay) × (x ≡ applied_to m cell) × (is_passable board x ≡ true)

  abbrev pub Known : Distances → Move → Type 0
  Known d m =
      is_passable board (applied_to m cell) ≡ true
      → (j : ℕ) × (dict_get (applied_to m cell) d ≡ some j) × (j ≤ k + 1)

  -- What visiting moves from a cell at distance `k` makes of the dictionary and the queue.
  pub record Grown (s s' : Progress) (ms : List Move) : Type 0 where
    pub kept : (x : Cell) (j : ℕ) → dict_get x s.0 ≡ some j → dict_get x s'.0 ≡ some j
    pub new : List Cell
    pub queued : s'.1 ≡ s.1 ++ new
    pub layer : All (λ x. dict_get x s'.0 ≡ some (k + 1)) new
    pub found :
        (x : Cell) (j : ℕ)
        → dict_get x s'.0 ≡ some j
        → (dict_get x s.0 ≡ some j) ⊎ ((j ≡ k + 1) × (contains x new ≡ true) × Stepped x)
    pub known : All (Known s'.0) ms
    pub fewer :
        undiscovered s'.0 (grid_cells board) + length new ≤ undiscovered s.0 (grid_cells board)

  append-nil : (q : List Cell) → q ≡ q ++ []
  append-nil [] = refl
  append-nil (x ∷ q) = ap (λ (r : List Cell). x ∷ r) (append-nil q)

  stays_put : (s : Progress) (m : Move) → Known s.0 m → Grown s s (m ∷ [])
  stays_put s m knows = record {
    kept = λ x j h. h;
    new = [];
    queued = append-nil s.1;
    layer = tt;
    found = λ x j h. inl h;
    known = (knows, tt);
    fewer = omega arith;
  }

  discovers :
      (d : Distances) (q : List Cell) (m : Move)
      → m ≢ stay
      → is_passable board (applied_to m cell) ≡ true
      → has_key (applied_to m cell) d ≡ false
      → Grown
          (d, q)
          (dict_set (applied_to m cell) (k + 1) d, q ++ (applied_to m cell ∷ []))
          (m ∷ [])
  discovers d q m moves free fresh =
      let n = applied_to m cell in
      let unset = has_key-none n d fresh in
      let set_here : dict_get n (dict_set n (k + 1) d) ≡ some (k + 1) =
        dict_get-set n n (k + 1) d ∙ if_true (n == n) _ _ (==_refl n) in
      record {
        kept = λ x j h. elim (Bool-cases (n == x)) [
          | inl same ↦
              absurd (none-some (sym unset ∙ ap (λ y. dict_get y d) ((==_iff n x).0 same) ∙ h))
          | inr other ↦ dict_get-set n x (k + 1) d ∙ if_false (n == x) _ _ other ∙ h
        ];
        new = n ∷ [];
        queued = refl;
        layer = (set_here, tt);
        found = λ x j h. elim (Bool-cases (n == x)) [
          | inl same ↦
              let e = (==_iff n x).0 same in
              inr (
                some_inj (sym h ∙ ap (λ y. dict_get y (dict_set n (k + 1) d)) (sym e) ∙ set_here),
                subst (λ y. contains y (n ∷ []) ≡ true) e (contains_self n []),
                (m, moves, sym e, subst (λ y. is_passable board y ≡ true) e free),
              )
          | inr other ↦ inl (sym (dict_get-set n x (k + 1) d ∙ if_false (n == x) _ _ other) ∙ h)
        ];
        known = (λ _. (k + 1, set_here, omega arith), tt);
        fewer =
            undiscovered-dict_set n (k + 1) d (grid_cells board)
              (contains-grid_cells board n (passable-in_bounds board n free)) fresh;
      }

  visit-Grown :
      (s : Progress) (m : Move)
      → m ≢ stay
      → Within (k + 1) s.0
      → Grown s (visit board cell k m s) (m ∷ [])
  unfolding visit
  visit-Grown (d, q) m moves bound =
      let n = applied_to m cell in
      elim (Bool-cases (is_passable board n)) [
        | inr blocked ↦
            subst (λ s'. Grown (d, q) s' (m ∷ []))
              (sym (if_false (is_passable board n && not (has_key n d)) _ _ (rw blocked)))
              (stays_put (d, q) m (λ free. absurd (true-false (sym free ∙ blocked))))
        | inl free ↦ elim (Bool-cases (has_key n d)) [
          | inl old ↦
              let (j, there) = has_key-some n d old in
              subst (λ s'. Grown (d, q) s' (m ∷ []))
                (sym (if_false (is_passable board n && not (has_key n d)) _ _ (rw (free, old))))
                (stays_put (d, q) m (λ _. (j, there, bound n j there)))
          | inr fresh ↦
              subst (λ s'. Grown (d, q) s' (m ∷ []))
                (sym (if_true (is_passable board n && not (has_key n d)) _ _ (rw (free, fresh))))
                (discovers d q m moves free fresh)
        ]
      ]

  pub Grown-Within :
      (s s' : Progress) (ms : List Move) → Grown s s' ms → Within (k + 1) s.0 → Within (k + 1) s'.0
  Grown-Within s s' ms g bound x j h = elim (g.found x j h) [
    | inl old ↦ bound x j old
    | inr (e, _, _) ↦ rw e (le_refl (k + 1))
  ]

  Known-kept :
      (d d' : Distances) (m : Move)
      → ((x : Cell) (j : ℕ) → dict_get x d ≡ some j → dict_get x d' ≡ some j)
      → Known d m
      → Known d' m
  Known-kept d d' m kept knows free =
      let (j, there, near) = knows free in (j, kept (applied_to m cell) j there, near)

  pub layer-kept :
      (v : ℕ) (d d' : Distances) (xs : List Cell)
      → ((x : Cell) (j : ℕ) → dict_get x d ≡ some j → dict_get x d' ≡ some j)
      → All (λ x. dict_get x d ≡ some v) xs
      → All (λ x. dict_get x d' ≡ some v) xs
  layer-kept v d d' [] kept here = tt
  layer-kept v d d' (x ∷ xs) kept (h, here) = (kept x v h, layer-kept v d d' xs kept here)

  Grown-cons :
      (s s' s'' : Progress) (m : Move) (ms : List Move)
      → Grown s s' (m ∷ [])
      → Grown s' s'' ms
      → Grown s s'' (m ∷ ms)
  Grown-cons s s' s'' m ms a b = record {
    kept = λ x j h. b.kept x j (a.kept x j h);
    new = a.new ++ b.new;
    queued = b.queued ∙ ap (λ q. q ++ b.new) a.queued ∙ append_assoc s.1 a.new b.new;
    layer = All-append _ a.new b.new (layer-kept (k + 1) s'.0 s''.0 a.new b.kept a.layer) b.layer;
    found = λ x j h. elim (b.found x j h) [
      | inl old ↦ elim (a.found x j old) [
        | inl older ↦ inl older
        | inr (e, new, stepped) ↦
            inr (e, contains-append x a.new b.new ∙ ap (λ t. t || contains x b.new) new, stepped)
      ]
      | inr (e, new, stepped) ↦
          inr (e, contains-append x a.new b.new ∙ or_true (contains x a.new) _ new, stepped)
    ];
    known = (Known-kept s'.0 s''.0 m b.kept a.known.0, b.known);
    fewer = omega (arith, a.fewer, b.fewer, length-append a.new b.new);
  }

  pub visit_all-Grown :
      (ms : List Move) (s : Progress)
      → All (λ m. m ≢ stay) ms
      → Within (k + 1) s.0
      → Grown s (visit_all board cell k ms s) ms
  unfolding visit_all
  visit_all-Grown [] s moves bound = record {
    kept = λ x j h. h;
    new = [];
    queued = append-nil s.1;
    layer = tt;
    found = λ x j h. inl h;
    known = tt;
    fewer = omega arith;
  }
  visit_all-Grown (m ∷ ms) s (moves, others) bound =
      let first = visit-Grown s m moves bound in
      Grown-cons s (visit board cell k m s) _ m ms first (
        visit_all-Grown ms (visit board cell k m s) others
          (Grown-Within s (visit board cell k m s) (m ∷ []) first bound))
