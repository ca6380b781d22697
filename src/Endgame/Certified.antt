-- ===== src/Endgame/Certified.antt =====
-- `SurvivalCertificate.lock` of strategy/endgame.py: the moves that it keeps for every cell of the
-- support, and the move that it returns.
use p2p_thief.Prelude.{ℕ, ◌+◌, ◌-◌, ◌*◌, ◌≡◌, refl, sym, subst, ◌∙◌}
use p2p_thief.Prelude.{Bool, true, false, ◌&&◌, if◌then◌else◌, arith}
use p2p_thief.Prelude.{List, [], ◌∷◌, All, Option, none, some, some_inj, contains}
use p2p_thief.Prelude.{Equality, ==_iff, contains_self, ltb, passing, contains-passing}
use p2p_thief.Prelude.Int.{ℤ, pos, ◌≤ℤ◌, int_laws}
use p2p_thief.Primitives.{Cell, Move, north, south, east, west, stay}
use p2p_thief.Scent.Float.{Floats}
use p2p_thief.Engine.{GameEngine}
use p2p_thief.Endgame.{
  Search, pure, survives, move_survives, all_moves, move_equality, common, is_empty, rank,
  first_ranked, narrowed, chosen, safe_moves, certify, certified_move,
}
use p2p_thief.Endgame.Plain.{lasts, move_lasts, total, move_cost, cost}
use p2p_thief.Endgame.Memo.{
  Tells, Computes, pure-Computes, Computes-weaken, bind-Computes, move_met-Computes,
  survives-Computes,
}

module _ {ℓ} {A : Type ℓ} ⦃e : Equality A⦄ where
  contains-common :
      (a : A) (xs safe : List A) → contains a (common xs safe) ≡ (contains a xs && contains a safe)
  unfolding contains common
  contains-common a [] safe = refl
  contains-common a (x ∷ xs) safe = ground (arith, contains-common a xs safe, ==_iff a x)

  contains-either :
      (t : Bool) (a x y : A) (xs : List A)
      → contains a ((if t then y else x) ∷ xs) ≡ true
      → contains a (x ∷ y ∷ xs) ≡ true
  unfolding contains
  contains-either t a x y xs h = ground arith

first_ranked-contains :
    (best : Move) (ms : List Move) → contains (first_ranked best ms) (best ∷ ms) ≡ true
unfolding first_ranked
first_ranked-contains best [] = contains_self best []
first_ranked-contains best (m ∷ ms) =
    contains-either (ltb (rank m) (rank best)) (first_ranked best (m ∷ ms)) best m ms
      (first_ranked-contains (if ltb (rank m) (rank best) then m else best) ms)

pub contains-all_moves : (m : Move) → contains m all_moves ≡ true
unfolding contains
contains-all_moves north = refl
contains-all_moves south = refl
contains-all_moves east = refl
contains-all_moves west = refl
contains-all_moves stay = refl

not_empty-kept {ℓ} :
    {A : Type ℓ} (xs : List Move) (rest : Option A) (r : A)
    → (if is_empty xs then none else rest) ≡ some r
    → rest ≡ some r
not_empty-kept [] rest r h = cc
not_empty-kept (x ∷ xs) rest r h = h

kept-not_empty {ℓ} :
    {A : Type ℓ} (xs : List Move) (m : Move) (rest : Option A)
    → contains m xs ≡ true
    → (if is_empty xs then none else rest) ≡ rest
unfolding contains
kept-not_empty [] m rest h = cc
kept-not_empty (x ∷ xs) m rest h = refl

-- The loop of `lock` with a test for each cell in place of the search.
module _ (test : Cell → Move → Bool) where
  unfoldable pub kept : Option (List Move) → List Cell → Option (Option (List Move))
  kept certified [] = some certified
  kept certified (cop ∷ support) =
      let now = narrowed certified (passing (test cop) all_moves) in
      let rest = kept (some now) support in if is_empty now then none else rest

  -- The moves that pass at every cell of the support.
  abbrev pub PassesAll : List Cell → Move → Type 0
  PassesAll support m = All (λ cop. test cop m ≡ true) support

  kept_sound :
      (certified : List Move) (support : List Cell) (left : List Move) (m : Move)
      → kept (some certified) support ≡ some (some left)
      → contains m left ≡ true
      → (contains m certified ≡ true) × PassesAll support m
  unfolding kept
  kept_sound certified [] left m h here = (rw (some_inj (some_inj h)) here, tt)
  kept_sound certified (cop ∷ support) left m h here =
      let safe = passing (test cop) all_moves in
      let (among, passes) =
        kept_sound (common certified safe) support left m
          (not_empty-kept (common certified safe) (kept (some (common certified safe)) support)
            (some left) h)
          here in
      ground
        (arith, contains-common m certified safe, contains-passing (test cop) m all_moves, passes)

  kept_complete :
      (certified : List Move) (support : List Cell) (m : Move)
      → contains m certified ≡ true
      → PassesAll support m
      → (left : List Move) × (kept (some certified) support ≡ some (some left))
        × (contains m left ≡ true)
  unfolding kept
  kept_complete certified [] m here passes = (certified, refl, here)
  kept_complete certified (cop ∷ support) m here (pass, passes) =
      let safe = passing (test cop) all_moves in
      let among : contains m (common certified safe) ≡ true = ground (
        arith,
        contains-common m certified safe,
        contains-passing (test cop) m all_moves,
        contains-all_moves m,
      ) in
      let (left, e, inside) = kept_complete (common certified safe) support m among passes in
      (left, kept-not_empty _ m _ among ∙ e, inside)

  kept_none_sound :
      (support : List Cell) (left : List Move) (m : Move)
      → kept none support ≡ some (some left)
      → contains m left ≡ true
      → PassesAll support m
  unfolding kept
  kept_none_sound [] left m h here = cc
  kept_none_sound (cop ∷ support) left m h here =
      let safe = passing (test cop) all_moves in
      let (among, passes) = kept_sound safe support left m (not_empty-kept safe _ _ h) here in
      (ground (arith, contains-passing (test cop) m all_moves, among), passes)

  kept_none_complete :
      (cop : Cell) (support : List Cell) (m : Move)
      → PassesAll (cop ∷ support) m
      → (left : List Move) × (kept none (cop ∷ support) ≡ some (some left))
        × (contains m left ≡ true)
  unfolding kept
  kept_none_complete cop support m (pass, passes) =
      let safe = passing (test cop) all_moves in
      let among : contains m safe ≡ true =
        ground (arith, contains-passing (test cop) m all_moves, contains-all_moves m) in
      let (left, e, inside) = kept_complete safe support m among passes in
      (left, kept-not_empty safe m _ among ∙ e, inside)

abbrev unsearched : Search
unsearched = record { memo = []; nodes = 0 }

-- The states that `lock` visits at most.
abbrev pub lock_cost : ℕ → List Cell → ℕ
lock_cost remaining support = total support (5 * move_cost (cost (remaining - 1)))

module _ (F : Floats) (engine : GameEngine F) (remaining : ℕ) (quota : ℤ) where
  -- The recursion's verdict on a move at the start of the search.
  abbrev pub survives_cop : Cell → Move → Bool
  survives_cop cop m =
      move_lasts engine.board (lasts engine.board (remaining - 1)) remaining m
        engine.positions.of_thief cop [] quota

module _ (F : Floats) (node_cap : ℤ) (late : ℕ → Bool) (engine : GameEngine F) (remaining : ℕ)
    (quota : ℤ) where
  abbrev verdict_of : Cell → Move → Bool
  verdict_of = survives_cop F engine remaining quota

  safe_moves-Computes :
      (cop : Cell) (ms : List Move)
      → Computes node_cap late engine.board quota
          (total ms (move_cost (cost (remaining - 1))))
          (passing (verdict_of cop) ms)
          (safe_moves F node_cap late engine remaining cop quota ms)
  unfolding safe_moves passing move_survives
  safe_moves-Computes cop [] = pure-Computes node_cap late engine.board quota 0 []
  safe_moves-Computes cop (m ∷ ms) =
      let c = move_cost (cost (remaining - 1)) in
      let deeper = survives node_cap late engine.board (remaining - 1) in
      let verdicts = lasts engine.board (remaining - 1) in
      let others = total ms c in
      bind-Computes node_cap late engine.board quota c others (verdict_of cop m) _ _ _
        (move_met-Computes node_cap late engine.board quota (cost (remaining - 1)) deeper verdicts
          (survives-Computes node_cap late engine.board quota (remaining - 1)) remaining m
          engine.positions.of_thief cop [] quota (omega int_laws))
        (Computes-weaken node_cap late engine.board quota (others + 0) others _ _ (omega arith) (
          bind-Computes node_cap late engine.board quota others 0 (passing (verdict_of cop) ms) _ _
            _ (safe_moves-Computes cop ms) (pure-Computes node_cap late engine.board quota 0 _)))

  stop_or :
      (c : ℕ) (t : Bool) (v : Option (Option (List Move)))
      (rest : Search → Option (Option (Option (List Move)) × Search))
      → Computes node_cap late engine.board quota c v rest
      → Computes node_cap late engine.board quota c
          (if t then none else v)
          (if t then pure none else rest)
  stop_or c true v rest h = pure-Computes node_cap late engine.board quota c none
  stop_or c false v rest h = h

  certify-Computes :
      (certified : Option (List Move)) (support : List Cell)
      → Computes node_cap late engine.board quota
          (lock_cost remaining support)
          (kept verdict_of certified support)
          (certify F node_cap late engine remaining quota certified support)
  unfolding certify kept
  certify-Computes certified [] = pure-Computes node_cap late engine.board quota 0 (some certified)
  certify-Computes certified (cop ∷ support) =
      let each = 5 * move_cost (cost (remaining - 1)) in
      let safe = passing (verdict_of cop) all_moves in
      let now = narrowed certified safe in
      bind-Computes node_cap late engine.board quota each (lock_cost remaining support) safe _ _ _
        (Computes-weaken node_cap late engine.board quota
          (total all_moves (move_cost (cost (remaining - 1)))) each safe _ (omega arith)
          (safe_moves-Computes cop all_moves))
        (stop_or (lock_cost remaining support) (is_empty now) _ _
          (certify-Computes (some now) support))

  certify-Tells :
      (support : List Cell)
      → Tells node_cap late engine.board quota
          (lock_cost remaining support)
          (kept verdict_of none support)
          unsearched
          (certify F node_cap late engine remaining quota none support unsearched)
  certify-Tells support = certify-Computes none support unsearched tt

  chosen-kept :
      (c : ℕ) (s : Search) (v : Option (Option (List Move)))
      (r : Option (Option (Option (List Move)) × Search)) (m : Move)
      → Tells node_cap late engine.board quota c v s r
      → chosen r ≡ some m
      → (left : List Move) × (v ≡ some (some left)) × (contains m left ≡ true)
  unfolding chosen
  chosen-kept c s v none m t h = cc
  chosen-kept c s v (some (none, s')) m t h = cc
  chosen-kept c s v (some (some none, s')) m t h = cc
  chosen-kept c s v (some (some (some []), s')) m t h = cc
  chosen-kept c s v (some (some (some (n ∷ ns)), s')) m (e, _, _) h = (
    n ∷ ns,
    sym e,
    subst (λ k. contains k (n ∷ ns) ≡ true) (some_inj h) (first_ranked-contains n ns),
  )

  kept-chosen :
      (c : ℕ) (s : Search) (left : List Move) (m : Move)
      (r : Option (Option (Option (List Move)) × Search))
      → ((n : ℕ) → late n ≡ false)
      → pos (s.nodes + c) ≤ℤ node_cap
      → contains m left ≡ true
      → Tells node_cap late engine.board quota c (some (some left)) s r
      → (m' : Move) × (chosen r ≡ some m')
  unfolding chosen contains
  kept-chosen c s left m none timely room here t = absurd (omega (arith, t timely))
  kept-chosen c s left m (some (none, s')) timely room here t = absurd (ground arith)
  kept-chosen c s left m (some (some none, s')) timely room here t = absurd (ground arith)
  kept-chosen c s left m (some (some (some []), s')) timely room here t = absurd (ground arith)
  kept-chosen c s left m (some (some (some (n ∷ ns)), s')) timely room here t =
      (first_ranked n ns, refl)

  -- A certified move lasts against the cop on every cell of the support.
  pub certified_move_sound :
      (support : List Cell) (m : Move)
      → certified_move F node_cap late engine remaining quota support ≡ some m
      → PassesAll (survives_cop F engine remaining quota) support m
  unfolding certified_move
  certified_move_sound support m h =
      let (left, e, here) =
        chosen-kept (lock_cost remaining support) unsearched _ _ m (certify-Tells support) h in
      kept_none_sound verdict_of support left m e here

  pub certified_move_complete :
      (cop : Cell) (support : List Cell) (m : Move)
      → ((n : ℕ) → late n ≡ false)
      → pos (lock_cost remaining (cop ∷ support)) ≤ℤ node_cap
      → PassesAll (survives_cop F engine remaining quota) (cop ∷ support) m
      → (m' : Move) × (certified_move F node_cap late engine remaining quota (cop ∷ support)
          ≡ some m')
  unfolding certified_move
  certified_move_complete cop support m timely room passes =
      let (left, e, here) = kept_none_complete verdict_of cop support m passes in
      kept-chosen (lock_cost remaining (cop ∷ support)) unsearched left m _ timely
        (omega (arith, room)) here
        (subst
          (λ v.
            Tells node_cap late engine.board quota (lock_cost remaining (cop ∷ support)) v
              unsearched
              (certify F node_cap late engine remaining quota none (cop ∷ support) unsearched))
          e (certify-Tells (cop ∷ support)))
