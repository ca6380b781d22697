-- ===== src/Endgame/Lock.antt =====
-- What `SurvivalCertificate.lock` of strategy/endgame.py promises of the move that it returns.
use p2p_thief.Prelude.{ℕ, zero, suc, ◌+◌, ◌-◌, ◌≤◌, ◌≡◌, ◌↔◌, refl, sym, ap, Bool, true, false}
use p2p_thief.Prelude.{arith, List, [], ◌∷◌, length, All, contains, some}
use p2p_thief.Prelude.{Equality, ==_iff, subst, Bool-cases, inl, inr, ◌==◌}
use p2p_thief.Prelude.Int.{ℤ, pos, pos_part, ◌-ℤ◌, ◌≤ℤ◌, -ℤ_parts, negsuc}
use p2p_thief.Primitives.{Cell, cell_equality, Move, thief, ongoing}
use p2p_thief.Scent.Float.{Floats}
use p2p_thief.Engine.{GameEngine}
use p2p_thief.Protocol.{move}
use p2p_thief.Endgame.{SurvivalCertificate, support_cells, certified_move, lock, is_passable}
use p2p_thief.Endgame.Plain.{view_of, lasts, move_lasts}
use p2p_thief.Endgame.Reach.{SameCells}
use p2p_thief.Endgame.Certified.{
  survives_cop, PassesAll, lock_cost, certified_move_sound, certified_move_complete,
}
use p2p_thief.Endgame.Escape.{Outlasts, move_lasts-Outlasts}

All-contains {ℓ κ} :
    {A : Type ℓ} ⦃e : Equality A⦄ (P : A → Type κ) (xs : List A) (a : A)
    → All P xs
    → contains a xs ≡ true
    → P a
unfolding contains
All-contains P [] a h here = absurd (cc)
All-contains P (x ∷ xs) a (p, h) here = elim (Bool-cases (a == x)) [
  | inl same ↦ subst P (sym ((==_iff a x).0 same)) p
  | inr other ↦ All-contains P xs a h (ground arith)
]

less_one : (n : ℕ) → suc n - 1 ≡ n
less_one n = omega arith

positive : (z : ℤ) → pos 1 ≤ℤ z → (n : ℕ) × (z ≡ pos (suc n))
positive (pos zero) h = absurd (omega (arith, h))
positive (pos (suc n)) h = (n, refl)
positive (negsuc n) h = absurd (omega (arith, h))

ends_at :
    (threshold : ℤ) (turns n : ℕ)
    → threshold -ℤ pos turns ≡ pos (suc n)
    → threshold ≡ pos (turns + suc n)
ends_at threshold turns n h = ground (arith, -ℤ_parts threshold (pos turns), h)

module _ (F : Floats) (late : ℕ → Bool) (c : SurvivalCertificate F) (engine : GameEngine F)
    (values : List (List F.Float)) where
  abbrev pub support : List Cell
  support = support_cells F values c.settings.support_mass_threshold

  abbrev pub remaining : ℤ
  remaining = engine.rules.survival_threshold -ℤ pos engine.turns_completed

  abbrev pub quota : ℤ
  quota = engine.rules.max_barriers -ℤ pos (length engine.board.barriers)

  -- The tests before the search: the switch, a sharp support, and a horizon that covers the game.
  abbrev pub IsInScope : Type 0
  IsInScope =
      (c.settings.enabled ≡ true)
      × (1 ≤ length support)
      × (pos (length support) ≤ℤ c.settings.max_support_cells)
      × (pos 1 ≤ℤ remaining)
      × (remaining ≤ℤ c.settings.max_horizon_turns)

  lock-chosen :
      (c' : SurvivalCertificate F) (m : Move)
      → lock F late c engine (some values) ≡ (c', some (move m))
      → IsInScope
        × (certified_move F c.settings.node_cap late engine (pos_part remaining) quota support
            ≡ some m)
  unfolding lock
  lock-chosen c' m h = ground arith

  lock-returns :
      (m : Move)
      → IsInScope
      → certified_move F c.settings.node_cap late engine (pos_part remaining) quota support ≡ some m
      → lock F late c engine (some values)
        ≡ (record c { certified = c.certified + 1 }, some (move m))
  unfolding lock
  lock-returns m scope found = ground (arith, found)

  chosen_for :
      (cells : List Cell) (m : Move)
      → 1 ≤ length cells
      → ((n : ℕ) → late n ≡ false)
      → pos (lock_cost (pos_part remaining) cells) ≤ℤ c.settings.node_cap
      → PassesAll (survives_cop F engine (pos_part remaining) quota) cells m
      → (m' : Move) × (certified_move F c.settings.node_cap late engine
            (pos_part remaining)
            quota
            cells
          ≡ some m')
  chosen_for [] m some_cell timely room passes = absurd (omega arith)
  chosen_for (cop ∷ cells) m some_cell timely room passes =
      certified_move_complete F c.settings.node_cap late engine (pos_part remaining) quota cop cells
        m timely room passes

  -- At the start the search sees the engine's own board.
  same_cells : SameCells engine.board (view_of engine.board [])
  unfolding is_passable contains
  same_cells cell = refl

  survives_cop-Outlasts :
      (n : ℕ) (m : Move)
      → engine.outcome ≡ ongoing
      → engine.next_actor ≡ thief
      → remaining ≡ pos (suc n)
      → survives_cop F engine (pos_part remaining) quota engine.positions.of_police m ≡ true
      → Outlasts F engine m
  survives_cop-Outlasts n m on turn clock h =
      move_lasts-Outlasts F engine.board n m [] quota engine on turn
        (record {
          cells = same_cells;
          left = refl;
          clock = ends_at engine.rules.survival_threshold engine.turns_completed n clock;
        })
        (subst (λ (d : ℕ). survives_at d (suc n) ≡ true) (less_one n)
          (subst (λ (r : ℕ). survives_at (r - 1) r ≡ true) (ap pos_part clock) h))
    where
      survives_at : ℕ → ℕ → Bool
      survives_at d r =
          move_lasts engine.board (lasts engine.board d) r m engine.positions.of_thief
            engine.positions.of_police [] quota

  -- While the game is on and it is the thief's turn, a move that `lock` returns wins by survival: if
  -- the cop stands on one of the cells where the belief puts `support_mass_threshold` or more, the engine
  -- takes the move, and whatever moves and barriers the engine then grants the cop, the thief has an
  -- answer after each, until the engine's outcome is survival.
  pub lock-Outlasts :
      (c' : SurvivalCertificate F) (m : Move)
      → engine.outcome ≡ ongoing
      → engine.next_actor ≡ thief
      → contains engine.positions.of_police support ≡ true
      → lock F late c engine (some values) ≡ (c', some (move m))
      → Outlasts F engine m
  lock-Outlasts c' m on turn there h =
      let ((_, _, _, ahead, _), found) = lock-chosen c' m h in
      let (n, clock) = positive remaining ahead in
      survives_cop-Outlasts n m on turn clock (
        All-contains (λ cop. survives_cop F engine (pos_part remaining) quota cop m ≡ true) support
          engine.positions.of_police
          (certified_move_sound F c.settings.node_cap late engine (pos_part remaining) quota support
            m found)
          there)

  -- With no deadline and a node cap of `lock_cost` or more, `lock` returns a move exactly when its tests
  -- pass and some move passes the plain recursion for every cell of the support: the memo changes no
  -- verdict.
  pub lock_iff :
      ((n : ℕ) → late n ≡ false)
      → pos (lock_cost (pos_part remaining) support) ≤ℤ c.settings.node_cap
      → ((c' : SurvivalCertificate F) × (m : Move) × (lock F late c engine (some values)
            ≡ (c', some (move m))))
        ↔ (IsInScope
            × (m : Move) × PassesAll (survives_cop F engine (pos_part remaining) quota) support m)
  lock_iff timely room = (
    λ (c', m, h).
        let (scope, found) = lock-chosen c' m h in
        (
          scope,
          m,
          certified_move_sound F c.settings.node_cap late engine (pos_part remaining) quota support
              m found,
        ),
    λ (scope, m, passes).
        let (m', found) = chosen_for support m scope.1 timely room passes in
        (record c { certified = c.certified + 1 }, m', lock-returns m' scope found),
  )
