-- ===== src/Resume/Kept.antt =====
-- What a snapshot of wire/hidden_resume.py relies on, kept by every half-turn of the hidden wire.
use p2p_thief.Prelude.{ℕ, ◌≡◌, refl, sym, ap, subst, ◌∙◌, inl, inr, Bool, true, false, not, ◌&&◌}
use p2p_thief.Prelude.{
  List, [], ◌∷◌, ◌++◌, Option, none, some, ◌==◌, if◌then◌else◌, if_true, if_false, Bool-cases,
}
use p2p_thief.Prelude.{ok, raise_if, bind-eq-ok, then-eq-ok, ok_inj, arith}
use p2p_thief.Prelude.{All, length, value_error, rival_breach_error, game_rule_error}
use p2p_thief.Prelude.Int.{pos, leb_ℤ}
use p2p_thief.Primitives.{Cell, Role, rival, police, thief, role_equality}
use p2p_thief.Board
use p2p_thief.Board.{Board, is_passable, in_bounds, is_barrier, add_barrier}
use p2p_thief.Board.Laws
use p2p_thief.Board.Laws.{add_barrier-ok, add_barrier-IsValid, new-IsValid}
use p2p_thief.Rules.{RuleSet}
use p2p_thief.Scent
use p2p_thief.Scent.{ScentField}
use p2p_thief.Scent.Float.{Floats}
use p2p_thief.Protocol.{Action, move, barrier}
use p2p_thief.OwnState.{
  OwnState, absorb, note_rival_barrier, note_rival_half_turn, close_full_turn, own_turn,
  absorb_turn, i_am_captured, wire_turn, wire_play, new,
}
use p2p_thief.OwnState.Actions.{apply_own_action-move, apply_own_action-barrier, own_turn-ok}
use p2p_thief.Resume.{replay_scent}
use p2p_thief.Resume.Smell.{IsPlainGrid, IsPositive, absorb-IsPlainGrid, blank_rows-IsPlainGrid}

new_shape :
    (n : ℕ) (b : Board) → Board.new (pos n) ≡ ok b → b ≡ record { grid_size = pos n; barriers = [] }
unfolding Board.new
new_shape n b h = ground arith

module _ (F : Floats) where
  replay_scent-append :
      (field : ScentField F) (cells : List Cell) (c : Cell)
      → replay_scent F field (cells ++ (c ∷ [])) ≡ Scent.update F (replay_scent F field cells) c
  unfolding replay_scent
  replay_scent-append field [] c = refl
  replay_scent-append field (d ∷ cells) c = replay_scent-append (Scent.update F field d) cells c

  -- A state as `OwnState.__init__` leaves it, on a grid of side `g`.
  pub record IsFresh (g : ℕ) (fresh : OwnState F) : Type 0 where
    pub board : fresh.board ≡ record { grid_size = pos g; barriers = [] }
    pub boundary_cells : fresh.boundary_cells ≡ []
    pub rival_size : fresh.rival_scent.grid_size ≡ pos g

  -- A state that a snapshot holds all of, for a peer that starts again from `fresh`.
  pub record Resumable (g : ℕ) (fresh s : OwnState F) : Type 0 where
    pub role : s.role ≡ fresh.role
    pub rules : s.rules ≡ fresh.rules
    pub outcome : s.outcome ≡ fresh.outcome
    pub size : s.board.grid_size ≡ pos g
    pub valid : Laws.IsValid s.board
    pub scent : s.own_scent ≡ replay_scent F fresh.own_scent s.boundary_cells
    pub rival_size : s.rival_scent.grid_size ≡ pos g
    pub rival_plain : IsPlainGrid F g s.rival_scent.grid

  module _ (g : ℕ) (fresh : OwnState F) where
    close_full_turn-Resumable :
        (s : OwnState F) → Resumable g fresh s → Resumable g fresh (close_full_turn F s)
    unfolding close_full_turn
    close_full_turn-Resumable s k = record {
      role = k.role;
      rules = k.rules;
      outcome = k.outcome;
      size = k.size;
      valid = k.valid;
      scent =
          ap (λ f. Scent.update F f s.cell) k.scent
          ∙ sym (replay_scent-append fresh.own_scent s.boundary_cells s.cell);
      rival_size = k.rival_size;
      rival_plain = k.rival_plain;
    }

    -- A board with a barrier more.
    grown-Resumable :
        (s : OwnState F) (c : Cell) (b : Board) (to_move : Role)
        → add_barrier s.board c ≡ ok b
        → Resumable g fresh s
        → Resumable g fresh (record s { board = b; next_actor = to_move })
    grown-Resumable s c b to_move added k =
        let (grown, _, _) = add_barrier-ok s.board c b added in
        record {
          role = k.role;
          rules = k.rules;
          outcome = k.outcome;
          size = ap (λ (x : Board). x.grid_size) grown ∙ k.size;
          valid = add_barrier-IsValid s.board c b added k.valid;
          scent = k.scent;
          rival_size = k.rival_size;
          rival_plain = k.rival_plain;
        }

    moved-Resumable :
        (s : OwnState F) (c : Cell) (to_move : Role)
        → Resumable g fresh s
        → Resumable g fresh (record s { cell = c; next_actor = to_move })
    moved-Resumable s c to_move k = record {
      role = k.role;
      rules = k.rules;
      outcome = k.outcome;
      size = k.size;
      valid = k.valid;
      scent = k.scent;
      rival_size = k.rival_size;
      rival_plain = k.rival_plain;
    }

    ticked-Resumable :
        (s : OwnState F) (ticks : Bool)
        → Resumable g fresh s
        → Resumable g fresh (if ticks then close_full_turn F s else s)
    ticked-Resumable s true k = close_full_turn-Resumable s k
    ticked-Resumable s false k = k

    own_turn-Resumable :
        (s : OwnState F) (a : Action) (s' : OwnState F) (placed : Option Cell)
        → own_turn F s a ≡ ok (s', placed)
        → Resumable g fresh s
        → Resumable g fresh s'
    own_turn-Resumable s (move m) s' placed h k =
        let (acted, acts, made) = own_turn-ok F s (move m) s' placed h in
        let (_, _, cell, there) = apply_own_action-move F s m acted placed acts in
        subst (Resumable g fresh) (sym made) (
          ticked-Resumable acted (s.role == thief && not (i_am_captured F acted))
            (subst (Resumable g fresh) (sym there) (moved-Resumable s cell (rival s.role) k)))
    own_turn-Resumable s (barrier c) s' placed h k =
        let (acted, acts, made) = own_turn-ok F s (barrier c) s' placed h in
        let (_, _, _, _, b, added, there) = apply_own_action-barrier F s c acted placed acts in
        subst (Resumable g fresh) (sym made) (
          ticked-Resumable acted (s.role == thief && not (i_am_captured F acted))
            (subst (Resumable g fresh) (sym there) (grown-Resumable s c b (rival s.role) added k)))

    note_rival_barrier-Resumable :
        (s : OwnState F) (c : Cell) (s' : OwnState F)
        → note_rival_barrier F s c ≡ ok s'
        → Resumable g fresh s
        → Resumable g fresh s'
    unfolding note_rival_barrier
    note_rival_barrier-Resumable s c s' h k =
        let (_, rest) = then-eq-ok (raise_if (not (in_bounds s.board c)) game_rule_error) _ h in
        elim (Bool-cases (is_barrier s.board c)) [
          | inl old ↦
              subst (Resumable g fresh)
                (ok_inj (sym (if_true (is_barrier s.board c) _ _ old) ∙ rest)) k
          | inr new ↦
              let (_, adds) =
                then-eq-ok
                  (raise_if (leb_ℤ s.rules.max_barriers (pos (length s.board.barriers)))
                    rival_breach_error)
                  _ (sym (if_false (is_barrier s.board c) _ _ new) ∙ rest) in
              let (b, added, made) = bind-eq-ok (add_barrier s.board c) _ adds in
              subst (Resumable g fresh) (ok_inj made) (grown-Resumable s c b s.next_actor added k)
        ]

    heard-Resumable :
        (s : OwnState F) (to_move : Role) (smell : List (Cell × F.Float))
        → IsPositive F smell
        → Resumable g fresh s
        → Resumable g fresh
            (record s { next_actor = to_move; rival_scent = absorb F s.rival_scent smell })
    unfolding absorb
    heard-Resumable s to_move smell positive k = record {
      role = k.role;
      rules = k.rules;
      outcome = k.outcome;
      size = k.size;
      valid = k.valid;
      scent = k.scent;
      rival_size = k.rival_size;
      rival_plain = absorb-IsPlainGrid F g s.rival_scent smell k.rival_size positive;
    }

    absorb_turn-Resumable :
        (s : OwnState F) (placed : Option Cell) (smell : List (Cell × F.Float)) (conceded : Bool)
        (s' : OwnState F)
        → absorb_turn F s placed smell conceded ≡ ok s'
        → IsPositive F smell
        → Resumable g fresh s
        → Resumable g fresh s'
    unfolding absorb_turn note_rival_half_turn
    absorb_turn-Resumable s placed smell conceded s' h positive k =
        let (walled, noted, rest) =
          bind-eq-ok (elim placed [ none ↦ ok s | some cell ↦ note_rival_barrier F s cell ]) _ h in
        let heard : OwnState F = record walled {
          rival_scent = absorb F walled.rival_scent smell;
        } in
        let (passed, token, made) = bind-eq-ok (note_rival_half_turn F heard) _ rest in
        let (_, taken) = then-eq-ok (raise_if (heard.next_actor == heard.role) _) _ token in
        subst (Resumable g fresh) (ok_inj made) (
          ticked-Resumable passed (passed.role == police && not conceded) (
            subst (Resumable g fresh) (ok_inj taken) (
              heard-Resumable walled walled.role smell positive
                (noted-Resumable placed walled noted))))
      where
        noted-Resumable :
            (p : Option Cell) (walled : OwnState F)
            → elim p [ none ↦ ok s | some cell ↦ note_rival_barrier F s cell ] ≡ ok walled
            → Resumable g fresh walled
        noted-Resumable none walled noted = subst (Resumable g fresh) (ok_inj noted) k
        noted-Resumable (some cell) walled noted =
            note_rival_barrier-Resumable s cell walled noted k

  -- The terms and the turns of a game, as wire_play takes them.
  abbrev pub Turns : Type 0
  Turns = List (Role × Action × List (Cell × F.Float))

  -- Every message carries the scent as `serialize_scent` writes it: positive values only.
  abbrev pub SmellsPositive : Turns → Type 0
  SmellsPositive = All (λ turn. IsPositive F turn.2)

  module _ (g : ℕ) (c0 t0 : OwnState F) where
    wire_turn-Resumable :
        (c t : OwnState F) (who : Role) (a : Action) (smell : List (Cell × F.Float))
        (both : OwnState F × OwnState F)
        → wire_turn F c t who a smell ≡ ok both
        → IsPositive F smell
        → Resumable g c0 c × Resumable g t0 t
        → Resumable g c0 both.0 × Resumable g t0 both.1
    unfolding wire_turn
    wire_turn-Resumable c t police a smell both h positive (kc, kt) =
        let (acted, turned, rest) = bind-eq-ok (own_turn F c a) _ h in
        let (heard, hears, made) = bind-eq-ok (absorb_turn F t acted.1 smell false) _ rest in
        subst (λ (b : OwnState F × OwnState F). Resumable g c0 b.0 × Resumable g t0 b.1)
          (ok_inj made)
          (
            own_turn-Resumable g c0 c a acted.0 acted.1 turned kc,
            absorb_turn-Resumable g t0 t acted.1 smell false heard hears positive kt,
          )
    wire_turn-Resumable c t thief a smell both h positive (kc, kt) =
        let (acted, turned, rest) = bind-eq-ok (own_turn F t a) _ h in
        let conceded = i_am_captured F acted.0 in
        let (heard, hears, made) = bind-eq-ok (absorb_turn F c acted.1 smell conceded) _ rest in
        subst (λ (b : OwnState F × OwnState F). Resumable g c0 b.0 × Resumable g t0 b.1)
          (ok_inj made)
          (
            absorb_turn-Resumable g c0 c acted.1 smell conceded heard hears positive kc,
            own_turn-Resumable g t0 t a acted.0 acted.1 turned kt,
          )

    pub wire_play-Resumable :
        (turns : Turns) (c t c' t' : OwnState F)
        → wire_play F c t turns ≡ ok (c', t')
        → SmellsPositive turns
        → Resumable g c0 c × Resumable g t0 t
        → Resumable g c0 c' × Resumable g t0 t'
    wire_play-Resumable [] c t c' t' h positive k =
        subst (λ (b : OwnState F × OwnState F). Resumable g c0 b.0 × Resumable g t0 b.1) (ok_inj h)
          k
    wire_play-Resumable ((who, a, smell) ∷ turns) c t c' t' h (p, positive) k =
        let (both, turned, rest) = bind-eq-ok (wire_turn F c t who a smell) _ h in
        wire_play-Resumable turns both.0 both.1 c' t' rest positive
          (wire_turn-Resumable c t who a smell both turned p k)

  -- A state just made can be resumed from itself.
  pub new-IsFresh :
      (role : Role) (n : ℕ) (start : Cell) (rules : RuleSet) (center decay : F.Float) (k : ℕ)
      (s : OwnState F)
      → new F role (pos n) start rules center decay k ≡ ok s
      → IsFresh n s × Resumable n s s
  unfolding new replay_scent
  new-IsFresh role n start rules center decay k s h =
      let (b, made, rest) = bind-eq-ok (Board.new (pos n)) _ h in
      let (_, more) = then-eq-ok (raise_if (not (is_passable b start)) value_error) _ rest in
      let (field, _, done) = bind-eq-ok (Scent.new F (pos n) center decay k) _ more in
      let shape = new_shape n b made in
      let (valid, bare) = new-IsValid (pos n) b made in
      subst (λ x. IsFresh n x × Resumable n x x) (ok_inj done)
        (
          record { board = shape; boundary_cells = refl; rival_size = refl },
          record {
            role = refl;
            rules = refl;
            outcome = refl;
            size = ap (λ (x : Board). x.grid_size) shape;
            valid = valid;
            scent = refl;
            rival_size = refl;
            rival_plain = blank_rows-IsPlainGrid F n;
          },
        )
