-- ===== src/Pathfind/Shortest.antt =====
-- The distances of domain/pathfind.py are those of the shortest walks.
use p2p_thief.Prelude.{ℕ, ◌+◌, ◌≤◌, ◌≡◌, ◌↔◌, ◌⊎◌, refl, sym, ap, subst, ◌∙◌, inl, inr}
use p2p_thief.Prelude.{true, arith, Bool-cases, [], ◌∷◌, length}
use p2p_thief.Prelude.{
  contains, contains_self, ◌==◌, ==_iff, ==_refl, Option, none, some, some_inj, dict_get,
}
use p2p_thief.Prelude.{Option-cases, if_true, if_false}
use p2p_thief.Prelude.Int.{ℤ, pos}
use p2p_thief.Primitives.{Cell, cell_equality}
use p2p_thief.Board.{Board}
use p2p_thief.Pathfind.{Distances, grid_cells, bfs_distances, distance_between, unreachable}
use p2p_thief.Pathfind.Walk.{Walk, here}
use p2p_thief.Pathfind.Loop.{
  Layered, IsComplete, bfs_loop-Returns, undiscovered-le, true-false, none-some, at_most_one,
  complete-least,
}

module _ (board : Board) (source : Cell) where
  only_source : (x : Cell) (j : ℕ) → dict_get x ((source, 0) ∷ []) ≡ some j → (source ≡ x) × (0 ≡ j)
  unfolding dict_get
  only_source x j h = elim (Bool-cases (source == x)) [
    | inl same ↦ ((==_iff source x).0 same, some_inj (sym (if_true (source == x) _ _ same) ∙ h))
    | inr other ↦ absurd (none-some (sym (if_false (source == x) _ _ other) ∙ h))
  ]

  start_Layered : Layered board source ((source, 0) ∷ []) 0 (source ∷ []) []
  unfolding dict_get
  start_Layered =
      let here_now : dict_get source ((source, 0) ∷ []) ≡ some 0 =
        if_true (source == source) _ _ (==_refl source) in
      record {
        at_source = here_now;
        sound = λ x j h.
            let (at, zero_steps) = only_source x j h in
            subst (λ y. Walk board source j y) at
              (subst (λ n. Walk board source n source) zero_steps here);
        bound = λ x j h. at_most_one j (only_source x j h).1;
        at_near = (here_now, tt);
        at_far = tt;
        closed = λ x j h away. absurd (
            true-false (
              sym (
                subst (λ y. contains y (source ∷ []) ≡ true) (only_source x j h).0
                  (contains_self source []))
              ∙ away));
      }

  measured :
      (d : Distances)
      → IsComplete board source d
      → (x : Cell) (k : ℕ)
      → (dict_get x d ≡ some k)
        ↔ (Walk board source k x × ((j : ℕ) → Walk board source j x → k ≤ j))
  measured d whole x k = (
    λ found. (
      whole.sound x k found,
      λ j w.
          let (i, there, le) = complete-least board source d whole w in
          omega (arith, le, some_inj (sym found ∙ there)),
    ),
    λ (w, least).
        let (i, there, le) = complete-least board source d whole w in
        let same : i ≡ k = omega (arith, le, least i (whole.sound x i there)) in
        there ∙ ap (λ (n : ℕ). some n) same,
  )

  bfs_whole : (d : Distances) × (bfs_distances board source ≡ some d) × IsComplete board source d
  unfolding bfs_distances
  bfs_whole =
      bfs_loop-Returns board source (length (grid_cells board) + 2) ((source, 0) ∷ []) 0
        (source ∷ []) [] (source ∷ []) refl
        (omega (arith, undiscovered-le ((source, 0) ∷ []) (grid_cells board))) start_Layered

  -- The search returns, and gives a distance to exactly the cells that a walk over passable cells reaches
  -- from the source: the length of a shortest one.
  pub bfs_distances-shortest :
      (d : Distances) × (bfs_distances board source ≡ some d)
      × ((x : Cell) (k : ℕ)
          → (dict_get x d ≡ some k)
            ↔ (Walk board source k x × ((j : ℕ) → Walk board source j x → k ≤ j)))
  bfs_distances-shortest =
      let (d, returned, whole) = bfs_whole in (d, returned, λ x k. measured d whole x k)

  answer : Option ℕ → Option ℤ
  answer none = some unreachable
  answer (some k) = some (pos k)

  distance_between-answer :
      (target : Cell) (d : Distances)
      → bfs_distances board source ≡ some d
      → distance_between board source target ≡ answer (dict_get target d)
  unfolding distance_between answer
  distance_between-answer target d e =
      subst
        (λ (o : Option Distances).
          elim o [
            | none ↦ none
            | some distances ↦ elim (dict_get target distances) [
              | none ↦ some unreachable
              | some k ↦ some (pos k)
            ]
          ]
          ≡ answer (dict_get target d))
        (sym e) (given (dict_get target d))
    where
      given : (o : Option ℕ) → elim o [ none ↦ some unreachable | some k ↦ some (pos k) ] ≡ answer o
      given none = refl
      given (some k) = refl

  -- The distance of a target is the length of a shortest walk to it, and it is -1 exactly when no walk
  -- over passable cells reaches it.
  pub distance_between_fate :
      (target : Cell)
      → ((k : ℕ) × (distance_between board source target ≡ some (pos k))
          × Walk board source k target
          × ((j : ℕ) → Walk board source j target → k ≤ j))
        ⊎ ((distance_between board source target ≡ some unreachable)
            × ((j : ℕ) → ¬ Walk board source j target))
  unfolding answer
  distance_between_fate target =
      let (d, returned, whole) = bfs_whole in
      elim (Option-cases (dict_get target d)) [
        | inr (k, there) ↦
            let (w, least) = (measured d whole target k).0 there in
            inl (k, distance_between-answer target d returned ∙ ap answer there, w, least)
        | inl missing ↦ inr (
          distance_between-answer target d returned ∙ ap answer missing,
          λ j w.
              let (i, there, _) = complete-least board source d whole w in
              none-some (sym missing ∙ there),
        )
      ]
