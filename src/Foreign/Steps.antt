-- ===== src/Foreign/Steps.antt =====
-- src/p2p_thief/wire/audit_foreign.py: what is derivable from the reveals of a foreign schema, the count
-- of the steps and the movement between the revealed positions.
use p2p_thief.Prelude.{
  ℕ, zero, suc, ◌+◌, Bool, true, false, not, ◌&&◌, ◌==◌, List, [], ◌∷◌, Option, none, some,
}
use p2p_thief.Prelude.{Result, ok, ◌>>=◌, length, ltb, if◌then◌else◌}
use p2p_thief.Prelude.Int.{ℤ, pos, ℤ_equality, leb_ℤ, ltb_ℤ, ◌-ℤ◌, ◌+ℤ◌, abs}
use p2p_thief.Primitives.{Cell}
use p2p_thief.Json.{Json, Members, number, array, object, no_items, item, member_get, or_null}
use p2p_thief.Foreign.{LiveRecord, payload_step}

-- `_step_of`: an integer that is no `bool`.
abbrev pub int_step : Json → Option ℤ
int_step (number n) = some n
int_step _ = none

unfoldable pub step_of : LiveRecord → Result (Option ℤ)
step_of r = payload_step r.payload >>= λ v. ok (int_step v)

abbrev pub cons_some {ℓ} : {A : Type ℓ} → Option A → List A → List A
cons_some none xs = xs
cons_some (some x) xs = x ∷ xs

-- The readable steps, in the order of the records.
unfoldable pub steps_of : List LiveRecord → Result (List ℤ)
steps_of [] = ok []
steps_of (r ∷ rs) = do step ← step_of r; rest ← steps_of rs; ok (cons_some step rest)

abbrev pub positive_steps : List ℤ → List ℤ
positive_steps [] = []
positive_steps (n ∷ ns) = let rest = positive_steps ns in if leb_ℤ (pos 1) n then n ∷ rest else rest

-- `sorted`
abbrev pub insert_int : ℤ → List ℤ → List ℤ
insert_int n [] = n ∷ []
insert_int n (m ∷ ms) = let rest = insert_int n ms in if leb_ℤ n m then n ∷ m ∷ ms else m ∷ rest

abbrev pub sort_ints : List ℤ → List ℤ
sort_ints [] = []
sort_ints (n ∷ ns) = insert_int n (sort_ints ns)

-- `list(range(k, k + n))`
abbrev pub range : ℕ → ℕ → List ℤ
range k zero = []
range k (suc n) = pos k ∷ range (suc k) n

abbrev pub same_ints : List ℤ → List ℤ → Bool
same_ints [] [] = true
same_ints (n ∷ ns) (m ∷ ms) = n == m && same_ints ns ms
same_ints _ _ = false

abbrev pub counts : List ℤ → Bool
counts steps =
    let playing = sort_ints (positive_steps steps) in same_ints playing (range 1 (length playing))

unfoldable pub continuity_ok : List LiveRecord → Result Bool
continuity_ok rs = steps_of rs >>= λ steps. ok (counts steps)

-- A record whose step is readable, which has a mapping for its payload.
abbrev pub Stepped : Type 0
Stepped = ℤ × Members

abbrev pub stepped_of : Option Json → Option Stepped
stepped_of (some (object m)) = elim (int_step (or_null (member_get "step" m))) [
  | none ↦ none
  | some n ↦ some (n, m)
]
stepped_of _ = none

-- The records in the order of their steps; equal steps keep their order.
abbrev pub insert_stepped : Stepped → List Stepped → List Stepped
insert_stepped e [] = e ∷ []
insert_stepped e (f ∷ fs) =
    let rest = insert_stepped e fs in if leb_ℤ e.0 f.0 then e ∷ f ∷ fs else f ∷ rest

abbrev pub insert_some : Option Stepped → List Stepped → List Stepped
insert_some none es = es
insert_some (some e) es = insert_stepped e es

unfoldable pub by_step : List LiveRecord → Result (List Stepped)
by_step [] = ok []
by_step (r ∷ rs) = do
  step ← step_of r
  rest ← by_step rs
  ok (insert_some (stepped_of r.payload) rest)

-- A position of two integers that are no `bool`.
abbrev pub int_position : Json → Option Cell
int_position (array (item (number row) (item (number col) no_items))) = some (row, col)
int_position _ = none

abbrev pub on_board : ℤ → Cell → Bool
on_board grid (row, col) =
    (leb_ℤ (pos 0) row && ltb_ℤ row grid) && (leb_ℤ (pos 0) col && ltb_ℤ col grid)

-- One record of the track: none is added without a position, and one off the board ends the loop.
abbrev pub seen : ℤ → ℤ → Option Cell → Option (List (ℤ × Cell)) → Option (List (ℤ × Cell))
seen grid step none rest = rest
seen grid step (some cell) none = none
seen grid step (some cell) (some track) =
    if on_board grid cell then some ((step, cell) ∷ track) else none

-- The loop that collects the track, and stops at a position that is off the board.
abbrev pub track_of : ℤ → List Stepped → Option (List (ℤ × Cell))
track_of grid [] = some []
track_of grid ((step, m) ∷ es) =
    seen grid step (int_position (or_null (member_get "position" m))) (track_of grid es)

abbrev pub distance : Cell → Cell → ℕ
distance (a, b) (c, d) = abs (c -ℤ a) + abs (d -ℤ b)

-- The loop over the pairs of neighbours in the track.
abbrev pub adjacent_ok : List (ℤ × Cell) → Bool
adjacent_ok [] = true
adjacent_ok (a ∷ []) = true
adjacent_ok ((step_a, cell_a) ∷ (step_b, cell_b) ∷ track) =
    not (step_b == step_a +ℤ pos 1 && ltb 1 (distance cell_a cell_b))
    && adjacent_ok ((step_b, cell_b) ∷ track)

unfoldable pub movement_ok : List LiveRecord → ℤ → Result Bool
movement_ok rs grid = do
  es ← by_step rs
  ok (elim (track_of grid es) [ none ↦ false | some track ↦ adjacent_ok track ])
