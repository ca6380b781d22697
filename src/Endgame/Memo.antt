-- ===== src/Endgame/Memo.antt =====
-- The search of strategy/endgame.py with its memo against the recursion without it.
use p2p_thief.Prelude.{
  ℕ, zero, suc, ◌+◌, ◌%◌, ◌≤◌, ◌≡◌, ◌⊎◌, refl, sym, ap, subst, ◌*◌, ◌∙◌, inl, inr,
}
use p2p_thief.Prelude.{Bool, true, false, not, ◌&&◌, ◌||◌, if◌then◌else◌, arith, Bool-cases}
use p2p_thief.Prelude.{
  List, [], ◌∷◌, all, any, length, All, Option, none, some, some_inj, if_true, if_false,
}
use p2p_thief.Prelude.{◌==◌, leb, eqb, eqb_iff}
use p2p_thief.Prelude.Int.{ℤ, pos, ◌-ℤ◌, ltb_ℤ, ◌<ℤ◌, int_laws}
use p2p_thief.Primitives.{Cell, cell_equality, eqb_cell_iff, Move, applied_to}
use p2p_thief.Board.{Board, in_bounds}
use p2p_thief.Endgame.{
  Key, eqb_key, eqb_cells, Search, Step, pure, ◌>>=◌, ◌>>◌, recall, Deeper, tick, moves_met,
  walls_met, move_met, some_move, remembered, survives, is_passable, is_surrounded, with_wall,
  all_moves, is_stay, wall_cells,
}
use p2p_thief.Endgame.Plain.{
  Verdicts, view_of, move_answered, wall_answered, move_lasts, lasts, total, move_cost, cost,
}

eqb_cells-eq : (a b : List Cell) → eqb_cells a b ≡ true → a ≡ b
eqb_cells-eq [] [] h = refl
eqb_cells-eq [] (d ∷ ds) h = cc
eqb_cells-eq (c ∷ cs) [] h = cc
eqb_cells-eq (c ∷ cs) (d ∷ ds) h = ground (arith, eqb_cell_iff c d, eqb_cells-eq cs ds)

eqb_key-eq : (a b : Key) → eqb_key a b ≡ true → a ≡ b
eqb_key-eq a b h = ground (
  arith,
  eqb_cell_iff a.thief b.thief,
  eqb_cell_iff a.cop b.cop,
  eqb_cells-eq a.extra b.extra,
  eqb_iff a.remaining b.remaining,
)

pub length-with_wall : (w : Cell) (cs : List Cell) → length (with_wall w cs) ≡ suc (length cs)
unfolding with_wall
length-with_wall w [] = refl
length-with_wall w (c ∷ cs) = ground (arith, length-with_wall w cs)

-- `budget` is the quota of walls at the start of the search.
module _ (node_cap : ℤ) (late : ℕ → Bool) (board : Board) (budget : ℤ) where
  -- What the memo should say of a key: the quota that is left is the budget less the walls placed.
  abbrev pub value_of : Key → Bool
  value_of k = lasts board k.remaining k.thief k.cop k.extra (budget -ℤ pos (length k.extra))

  abbrev pub IsSound : List (Key × Bool) → Type 0
  IsSound memo = All (λ entry. entry.1 ≡ value_of entry.0) memo

  -- A budget error happens only past the deadline or after more states than `cost`.
  abbrev pub Tells : {A : Type 0} → ℕ → A → Search → Option (A × Search) → Type 0
  Tells cost verdict s none = ((n : ℕ) → late n ≡ false) → node_cap <ℤ pos (s.nodes + cost)
  Tells cost verdict s (some (b, s')) =
      (b ≡ verdict) × IsSound s'.memo × (s'.nodes ≤ s.nodes + cost)

  abbrev pub Computes : {A : Type 0} → ℕ → A → Step A → Type 0
  Computes cost verdict step = (s : Search) → IsSound s.memo → Tells cost verdict s (step s)

  pub pure-Computes : {A : Type 0} (c : ℕ) (b : A) → Computes c b (pure b)
  pure-Computes c b s sound = (refl, sound, omega arith)

  Tells-weaken :
      {A : Type 0} (c c' : ℕ) (b : A) (s : Search) (r : Option (A × Search))
      → c ≤ c'
      → Tells c b s r
      → Tells c' b s r
  Tells-weaken c c' b s none le t = λ timely. omega (arith, t timely)
  Tells-weaken c c' b s (some (b', s')) le t = (t.0, t.1, omega (arith, t.2))

  pub Computes-weaken :
      {A : Type 0} (c c' : ℕ) (b : A) (m : Step A) → c ≤ c' → Computes c b m → Computes c' b m
  Computes-weaken c c' b m le h s sound = Tells-weaken c c' b s (m s) le (h s sound)

  -- The second half of a step that began at `s` and is now at `s'`.
  Tells-after :
      {A : Type 0} (c d : ℕ) (b : A) (s s' : Search) (r : Option (A × Search))
      → s'.nodes ≤ s.nodes + c
      → Tells d b s' r
      → Tells (c + d) b s r
  Tells-after c d b s s' none le t = λ timely. omega (arith, t timely)
  Tells-after c d b s s' (some (b', s'')) le t = (t.0, t.1, omega (arith, t.2))

  bind-Tells :
      {A B : Type 0} (c d : ℕ) (x : A) (y : B) (after : A → Step B)
      → Computes d y (after x)
      → (s : Search) (r : Option (A × Search)) → Tells c x s r
      → Tells (c + d) y s (elim r [ none ↦ none | some (a, s') ↦ after a s' ])
  bind-Tells c d x y after h s none t = λ timely. omega (arith, t timely)
  bind-Tells c d x y after h s (some (a, s')) (e, sound, le) =
      subst (λ z. Tells (c + d) y s (after z s')) (sym e)
        (Tells-after c d y s s' (after x s') le (h s' sound))

  pub bind-Computes :
      {A B : Type 0} (c d : ℕ) (x : A) (y : B) (m : Step A) (after : A → Step B)
      → Computes c x m
      → Computes d y (after x)
      → Computes (c + d) y (m >>= after)
  bind-Computes c d x y m after h k s sound = bind-Tells c d x y after k s (m s) (h s sound)

  -- Python's `and` and `or`, as the loops spell them.
  module _ (c d : ℕ) (x y : Bool) (rest : Step Bool) (then_rest : Computes d y rest) where
    continue_if :
        (s : Search) (r : Option (Bool × Search))
        → Tells c x s r
        → Tells
            (c + d)
            (x && y)
            s
            (elim r [ none ↦ none | some (b, s') ↦ (if b then rest else pure false) s' ])
    continue_if s none t = λ timely. omega (arith, t timely)
    continue_if s (some (true, s')) (e, sound, le) =
        rw (← e) (Tells-after c d y s s' (rest s') le (then_rest s' sound))
    continue_if s (some (false, s')) (e, sound, le) = rw (← e) (refl, sound, omega (arith, le))

    continue_unless :
        (s : Search) (r : Option (Bool × Search))
        → Tells c x s r
        → Tells
            (c + d)
            (x && y)
            s
            (elim r [ none ↦ none | some (b, s') ↦ (if not b then pure false else rest) s' ])
    continue_unless s none t = continue_if s none t
    continue_unless s (some (true, s')) t = continue_if s (some (true, s')) t
    continue_unless s (some (false, s')) t = continue_if s (some (false, s')) t

    stop_if :
        (s : Search) (r : Option (Bool × Search))
        → Tells c x s r
        → Tells
            (c + d)
            (x || y)
            s
            (elim r [ none ↦ none | some (b, s') ↦ (if b then pure true else rest) s' ])
    stop_if s none t = λ timely. omega (arith, t timely)
    stop_if s (some (true, s')) (e, sound, le) = rw (← e) (refl, sound, omega (arith, le))
    stop_if s (some (false, s')) (e, sound, le) =
        rw (← e) (Tells-after c d y s s' (rest s') le (then_rest s' sound))

  -- Early returns.
  module _ (c : ℕ) (y : Bool) (rest : Step Bool) (then_rest : Computes c y rest) where
    refuse_if : (t : Bool) → Computes c (not t && y) (if t then pure false else rest)
    refuse_if true = pure-Computes c false
    refuse_if false = then_rest

    accept_if : (t : Bool) → Computes c (t || y) (if t then pure true else rest)
    accept_if true = pure-Computes c true
    accept_if false = then_rest

    only_if : (t : Bool) → Computes c (not t || y) (if t then rest else pure true)
    only_if true = then_rest
    only_if false = pure-Computes c true

  over_cap :
      (n : ℕ) (b : Bool)
      → (ltb_ℤ node_cap (pos n) || b && late n) ≡ true
      → ((m : ℕ) → late m ≡ false)
      → node_cap <ℤ pos n
  over_cap n b h timely = ground (arith, timely n)

  tick-cases :
      (s : Search)
      → ((tick node_cap late s ≡ none)
          × (((m : ℕ) → late m ≡ false) → node_cap <ℤ pos (s.nodes + 1)))
        ⊎ (tick node_cap late s ≡ some (tt, record s { nodes = s.nodes + 1 }))
  unfolding tick
  tick-cases s =
      let n = s.nodes + 1 in
      elim (Bool-cases (ltb_ℤ node_cap (pos n) || eqb (n % 64) 0 && late n)) [
        | inl over ↦ inl (rw over, over_cap n (eqb (n % 64) 0) over)
        | inr under ↦ inr (rw under)
      ]

  -- Counting a state.
  tick-Computes :
      (c : ℕ) (b : Bool) (m : Step Bool)
      → Computes c b m
      → Computes (1 + c) b (tick node_cap late >> m)
  tick-Computes c b m h s sound =
      let goes_on = λ (r : Option (Unit {0} × Search)).
        Tells (1 + c) b s (elim r [ none ↦ none | some (_, s') ↦ m s' ]) in
      let s' : Search = record s { nodes = s.nodes + 1 } in
      elim (tick-cases s) [
        | inl (e, over) ↦ subst goes_on (sym e) (λ timely. omega (arith, over timely))
        | inr e ↦ subst goes_on (sym e) (Tells-after 1 c b s s' (m s') (omega arith) (h s' sound))
      ]

  -- A verdict of the recursion that the search one turn deeper computes.
  abbrev pub Agrees : ℕ → Deeper → Verdicts → Type 0
  Agrees c deeper verdicts =
      (thief cop : Cell) (extra : List Cell) (quota : ℤ)
      → quota ≡ budget -ℤ pos (length extra)
      → Computes c (verdicts thief cop extra quota) (deeper thief cop extra quota)

  module _ (c : ℕ) (deeper : Deeper) (verdicts : Verdicts) (agrees : Agrees c deeper verdicts)
      (landed cop : Cell) (extra : List Cell) (quota : ℤ)
      (spent : quota ≡ budget -ℤ pos (length extra)) where
    moves_met-Computes :
        (ms : List Move)
        → Computes
            (total ms c)
            (all (move_answered board verdicts landed cop extra quota) ms)
            (moves_met board deeper landed cop extra quota ms)
    unfolding moves_met
    moves_met-Computes [] s sound = pure-Computes 0 true s sound
    moves_met-Computes (m ∷ ms) s sound =
        let target = applied_to m cop in
        let ih = moves_met-Computes ms in
        elim (Bool-cases (not (is_stay m) && not (is_passable (view_of board extra) target))) [
          | inl blocked ↦
              rw (blocked, moves_met)
                (Computes-weaken (total ms c) (c + total ms c) _ _ (omega arith) ih s sound)
          | inr free ↦
              rw (free, moves_met)
                (elim (Bool-cases (target == landed)) [
                  | inl hit ↦ rw hit (pure-Computes (c + total ms c) false s sound)
                  | inr missed ↦ rw missed (
                      continue_if c (total ms c) (verdicts landed target extra quota) _ _ ih s _
                        (agrees landed target extra quota spent s sound))
                ])
        ]

    less_one : (wall : Cell) → quota -ℤ pos 1 ≡ budget -ℤ pos (length (with_wall wall extra))
    less_one wall = rw (spent, length-with_wall) (omega int_laws)

    walls_met-Computes :
        (walls : List Cell)
        → Computes
            (total walls c)
            (all (wall_answered board verdicts landed cop extra quota) walls)
            (walls_met board deeper landed cop extra quota walls)
    unfolding walls_met
    walls_met-Computes [] s sound = pure-Computes 0 true s sound
    walls_met-Computes (wall ∷ walls) s sound =
        let walled = with_wall wall extra in
        let ih = walls_met-Computes walls in
        let no_cost = pure-Computes (c + total walls c) false s sound in
        elim (Bool-cases (not (in_bounds board wall && is_passable (view_of board extra) wall))) [
          | inl blocked ↦
              rw (blocked, walls_met)
                (Computes-weaken (total walls c) (c + total walls c) _ _ (omega arith) ih s sound)
          | inr free ↦
              rw (free, walls_met)
                (elim (Bool-cases (wall == landed)) [
                  | inl hit ↦ rw hit no_cost
                  | inr missed ↦
                      rw missed (elim (Bool-cases (is_surrounded (view_of board walled) landed)) [
                        | inl enclosed ↦ rw enclosed no_cost
                        | inr open_side ↦ rw open_side (
                            continue_if c (total walls c)
                              (verdicts landed cop walled (quota -ℤ pos 1)) _ _ ih s _
                              (agrees landed cop walled (quota -ℤ pos 1) (less_one wall) s sound))
                      ])
                ])
        ]

  module _ (c : ℕ) (deeper : Deeper) (verdicts : Verdicts) (agrees : Agrees c deeper verdicts)
      (remaining : ℕ) (m : Move) where
    pub move_met-Computes :
        Agrees
          (move_cost c)
          (move_met node_cap late board deeper remaining m)
          (move_lasts board verdicts remaining m)
    unfolding move_met move_lasts
    move_met-Computes thief cop extra quota spent =
        let landed = applied_to m thief in
        let moves = moves_met-Computes c deeper verdicts agrees landed cop extra quota spent in
        let walls = walls_met-Computes c deeper verdicts agrees landed cop extra quota spent in
        tick-Computes (5 * c + 5 * c) _ _ (
          refuse_if (5 * c + 5 * c) _ _
            (refuse_if (5 * c + 5 * c) _ _
              (accept_if (5 * c + 5 * c) _ _
                (λ s sound.
                  Tells-weaken (total all_moves c + total (wall_cells cop) c) (5 * c + 5 * c) _ s _
                    (omega arith)
                    (continue_unless (total all_moves c) (total (wall_cells cop) c)
                      (all (move_answered board verdicts landed cop extra quota) all_moves)
                      (not (ltb_ℤ (pos 0) quota)
                        || all (wall_answered board verdicts landed cop extra quota)
                            (wall_cells cop))
                      _
                      (only_if (total (wall_cells cop) c) _ _ (walls (wall_cells cop))
                        (ltb_ℤ (pos 0) quota))
                      s _ (moves all_moves s sound)))
                (leb remaining 1))
              (landed == cop || is_surrounded (view_of board extra) landed))
            (not (is_stay m) && not (is_passable (view_of board extra) landed)))

  some_move-Computes :
      (c : ℕ) (test : Move → Step Bool) (verdict : Move → Bool)
      → ((m : Move) → Computes c (verdict m) (test m))
      → (ms : List Move) → Computes (total ms c) (any verdict ms) (some_move test ms)
  unfolding some_move
  some_move-Computes c test verdict h [] = pure-Computes 0 false
  some_move-Computes c test verdict h (m ∷ ms) = λ s sound.
      stop_if c (total ms c) (verdict m) _ _ (some_move-Computes c test verdict h ms) s _
        (h m s sound)

  recall_sound :
      (key : Key) (memo : List (Key × Bool)) (b : Bool)
      → IsSound memo
      → recall key memo ≡ some b
      → b ≡ value_of key
  unfolding recall
  recall_sound key [] b sound found = cc
  recall_sound key ((k, v) ∷ memo) b (e, sound) found = elim (Bool-cases (eqb_key key k)) [
    | inl same ↦
        some_inj (sym found ∙ if_true (eqb_key key k) (some v) (recall key memo) same)
        ∙ e
        ∙ ap value_of (sym (eqb_key-eq key k same))
    | inr other ↦
        recall_sound key memo b sound
          (sym (if_false (eqb_key key k) (some v) (recall key memo) other) ∙ found)
  ]

  stored :
      (c : ℕ) (key : Key) (s : Search) (r : Option (Bool × Search))
      → Tells c (value_of key) s r
      → Tells c (value_of key) s (elim r [
        | none ↦ none
        | some (b, s') ↦ some (b, record s' { memo = (key, b) ∷ s'.memo })
      ])
  stored c key s none t = t
  stored c key s (some (b, s')) t = (t.0, (t.0, t.1), t.2)

  looked_up :
      (c : ℕ) (key : Key) (s : Search) (searched : Option (Bool × Search)) (found : Option Bool)
      → IsSound s.memo
      → recall key s.memo ≡ found
      → Tells c (value_of key) s searched
      → Tells c (value_of key) s (elim found [ some cached ↦ some (cached, s) | none ↦ searched ])
  looked_up c key s searched none sound e t = t
  looked_up c key s searched (some b) sound e t =
      (recall_sound key s.memo b sound e, sound, omega arith)

  remembered-Computes :
      (c : ℕ) (key : Key) (value : Step Bool)
      → Computes c (value_of key) value
      → Computes c (value_of key) (remembered key value)
  unfolding remembered
  remembered-Computes c key value h s sound =
      looked_up c key s _ (recall key s.memo) sound refl (stored c key s (value s) (h s sound))

  pub survives-Computes : (n : ℕ) → Agrees (cost n) (survives node_cap late board n) (lasts board n)
  unfolding survives lasts cost
  survives-Computes zero thief cop extra quota spent = pure-Computes 0 true
  survives-Computes (suc n) thief cop extra quota spent =
      let test = λ (m : Move).
        move_met node_cap late board (survives node_cap late board n) (suc n) m thief cop extra
          quota in
      let key : Key = record { thief = thief; cop = cop; extra = extra; remaining = suc n } in
      let e : lasts board (suc n) thief cop extra quota ≡ value_of key =
        ap (lasts board (suc n) thief cop extra) spent in
      subst (λ v. Computes (cost (suc n)) v (remembered key (some_move test all_moves))) (sym e)
        (remembered-Computes (cost (suc n)) key (some_move test all_moves) (
          subst (λ v. Computes (cost (suc n)) v (some_move test all_moves)) e
            (λ s sound.
              Tells-weaken (total all_moves (move_cost (cost n))) (cost (suc n)) _ s _ (omega arith)
                (some_move-Computes (move_cost (cost n)) test _
                  (λ m.
                    move_met-Computes (cost n) (survives node_cap late board n) (lasts board n)
                      (survives-Computes n) (suc n) m thief cop extra quota spent)
                  all_moves s sound))))
