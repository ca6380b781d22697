-- ===== src/Tests/Paths.antt =====
-- Runs of the shortest paths.
use p2p_thief.Prelude.{
  ℕ, none, ◌≡◌, ◌↔◌, ◌≤◌, ◌⊎◌, refl, [], ◌∷◌, some, contains, dict_get, dict_set,
}
use p2p_thief.Prelude.{has_key}
use p2p_thief.Prelude.Int.{ℤ, pos, ◌+ℤ◌, ◌-ℤ◌}
use p2p_thief.Primitives.{Cell, cell_equality, applied_to}
use p2p_thief.Board.{Board, in_bounds, is_barrier, is_passable}
use p2p_thief.Pathfind.{
  Distances, unreachable, visit, visit_all, bfs_loop, grid_cells, bfs_distances, distance_between,
}
use p2p_thief.Pathfind.Walk.{Walk}
use p2p_thief.Pathfind.Shortest.{bfs_distances-shortest, distance_between_fate}

-- A wall over two of the three rows.
abbrev bent : Board
bent = record { grid_size = pos 3; barriers = (pos 0, pos 1) ∷ (pos 1, pos 1) ∷ [] }

distance_of : Cell → Cell → ℤ
unfolding distance_between bfs_distances bfs_loop visit_all visit grid_cells is_passable in_bounds
    is_barrier contains applied_to dict_get dict_set has_key ◌+ℤ◌ ◌-ℤ◌
distance_of a b = elim (distance_between bent a b) [ none ↦ pos 99 | some k ↦ k ]

around : distance_of (pos 0, pos 0) (pos 0, pos 2) ≡ pos 6
unfolding distance_of
around = refl

walled_cell : distance_of (pos 0, pos 0) (pos 0, pos 1) ≡ unreachable
unfolding distance_of
walled_cell = refl

bfs_distances-shortest_example :
    (d : Distances) × (bfs_distances bent (pos 0, pos 0) ≡ some d)
    × ((x : Cell) (k : ℕ)
        → (dict_get x d ≡ some k)
          ↔ (Walk bent (pos 0, pos 0) k x × ((j : ℕ) → Walk bent (pos 0, pos 0) j x → k ≤ j)))
bfs_distances-shortest_example = bfs_distances-shortest bent (pos 0, pos 0)

distance_between_fate_example :
    ((k : ℕ) × (distance_between bent (pos 0, pos 0) (pos 0, pos 2) ≡ some (pos k))
      × Walk bent (pos 0, pos 0) k (pos 0, pos 2)
      × ((j : ℕ) → Walk bent (pos 0, pos 0) j (pos 0, pos 2) → k ≤ j))
    ⊎ ((distance_between bent (pos 0, pos 0) (pos 0, pos 2) ≡ some unreachable)
        × ((j : ℕ) → ¬ Walk bent (pos 0, pos 0) j (pos 0, pos 2)))
distance_between_fate_example = distance_between_fate bent (pos 0, pos 0) (pos 0, pos 2)
