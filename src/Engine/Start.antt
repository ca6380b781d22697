-- ===== src/Engine/Start.antt =====
-- A fresh engine keeps the invariant, when the two agents start apart.
use p2p_thief.Prelude.{ℕ, ◌≡◌, ◌≢◌, ◌⊎◌, inl, inr, true, false}
use p2p_thief.Prelude.{◌==◌, ==_ne, Bool-cases, arith, [], ok, contains}
use p2p_thief.Prelude.Int.{ℤ, pos, negsuc, ◌≤ℤ◌, ◌+ℤ◌, +ℤ_parts, ltb_ℤ}
use p2p_thief.Primitives.{Cell, cell_equality, north, south, applied_to, police, ongoing}
use p2p_thief.Board
use p2p_thief.Board.{Board, in_bounds, is_barrier, is_passable, is_surrounded}
use p2p_thief.Board.Laws
use p2p_thief.Board.Laws.{Inside, in_bounds_iff}
use p2p_thief.Rules
use p2p_thief.Rules.{RuleSet}
use p2p_thief.Scent.Float.{Floats}
use p2p_thief.Engine.{GameEngine, new}
use p2p_thief.Engine.Invariant.{IsValid}

-- On a bare board of two rows or more a cell has a free neighbour above or below.
is_passable-bare :
    (b : Board) (c : Cell) → b.barriers ≡ [] → Inside b.grid_size c → is_passable b c ≡ true
unfolding is_passable is_barrier contains in_bounds
is_passable-bare b c bare h = rw (bare, (in_bounds_iff b c).1 h)

bare_neighbour :
    (b : Board) (c : Cell)
    → b.barriers ≡ []
    → pos 2 ≤ℤ b.grid_size
    → in_bounds b c ≡ true
    → (is_passable b (applied_to north c) ≡ true) ⊎ (is_passable b (applied_to south c) ≡ true)
unfolding applied_to
bare_neighbour b c bare wide inside =
    let h = (in_bounds_iff b c).0 inside in
    elim (Bool-cases (ltb_ℤ (c.0 +ℤ pos 1) b.grid_size)) [
      | inl room ↦
          inr
            (is_passable-bare b _ bare (ground (arith, +ℤ_parts c.0 (pos 1), +ℤ_parts c.1 (pos 0))))
      | inr edge ↦ inl (
          is_passable-bare b _ bare
            (ground (arith, +ℤ_parts c.0 (negsuc 0), +ℤ_parts c.0 (pos 1), +ℤ_parts c.1 (pos 0))))
    ]

pub is_surrounded-bare :
    (b : Board) (c : Cell)
    → b.barriers ≡ []
    → pos 2 ≤ℤ b.grid_size
    → in_bounds b c ≡ true
    → is_surrounded b c ≡ false
unfolding is_surrounded
is_surrounded-bare b c bare wide inside = ground (arith, bare_neighbour b c bare wide inside)

module _ (F : Floats) (g : ℤ) (cop robber : Cell) (rules : RuleSet) (center decay : F.Float)
    (side : ℕ) (e : GameEngine F) where
  -- What the constructor has checked, and what it builds.
  pub new-ok :
      new F g cop robber rules center decay side ≡ ok e
      → (Board.new g ≡ ok e.board)
        × (is_passable e.board cop ≡ true)
        × (is_passable e.board robber ≡ true)
        × (e.positions ≡ record { of_police = cop; of_thief = robber })
        × (e.rules ≡ rules)
        × (e.turns_completed ≡ 0)
        × (e.outcome ≡ ongoing)
        × (e.next_actor ≡ police)
  unfolding new
  new-ok h = ground arith

  pub new-IsValid :
      Rules.post_init rules ≡ ok rules
      → cop ≢ robber
      → new F g cop robber rules center decay side ≡ ok e
      → IsValid F e
  unfolding Rules.post_init is_passable is_barrier contains
  new-IsValid legal apart h =
      let (built, cop_free, robber_free, places, same, turns, on, _) = new-ok h in
      let (board_valid, bare) = Laws.new-IsValid g e.board built in
      let cop_inside : in_bounds e.board cop ≡ true = ground (arith, cop_free) in
      let thief_inside : in_bounds e.board robber ≡ true = ground (arith, robber_free) in
      let free = is_surrounded-bare e.board robber bare board_valid.wide thief_inside in
      let distinct : (cop == robber) ≡ false = ==_ne cop robber apart in
      record {
        board_valid = board_valid;
        cop_inside = rw places cop_inside;
        thief_inside = rw places thief_inside;
        quota = rw (bare, same) (ground arith);
        decided = rw (places, turns, on, same, distinct, free, bare) (ground arith);
      }
