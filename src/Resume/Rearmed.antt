-- ===== src/Resume/Rearmed.antt =====
-- A restarted peer of the hidden wire, armed from its last snapshot.
use p2p_thief.Prelude.{ℕ, ◌≡◌, refl, sym, ap, subst, ◌∙◌, List, [], ◌++◌, ◌==◌}
use p2p_thief.Prelude.{ok, length, if◌then◌else◌, ==_refl, text_equality}
use p2p_thief.Prelude.Int.{ℤ, pos}
use p2p_thief.Primitives.{Cell, Role, police, thief, rival, role_equality}
use p2p_thief.Board.{is_barrier}
use p2p_thief.Rules.{RuleSet}
use p2p_thief.Scent.Float.{Floats}
use p2p_thief.OwnState.{OwnState, absorb, new, wire_play}
use p2p_thief.OwnState.Game.{mover}
use p2p_thief.Hidden.{Runtime}
use p2p_thief.Resume.{
  restore_barriers, sorted_cells, serialize_scent, digest, build_own, build_snapshot, rearm_own,
  rearm, export_state, restore_state,
}
use p2p_thief.Resume.Cells.{
  restored, restore_barriers-restored, contains-restored, length-restored, sorted_cells-restored,
}
use p2p_thief.Resume.Smell.{absorb-serialize_scent}
use p2p_thief.Resume.Kept.{
  IsFresh, Resumable, Turns, SmellsPositive, wire_play-Resumable, new-IsFresh,
}
use Prim.Native.String.{String}

token_back : (role a : Role) → (if a == role then role else rival role) ≡ a
token_back police police = refl
token_back police thief = refl
token_back thief police = refl
token_back thief thief = refl

module _ (F : Floats) where
  -- What a runtime and the one armed from its snapshot share. The barriers are the same cells.
  pub record Resumes (rt rt' : Runtime F) : Type 0 where
    pub own : rt'.own ≡ record rt.own { board = rt'.own.board }
    pub grid_size : rt'.own.board.grid_size ≡ rt.own.board.grid_size
    pub barriers : (c : Cell) → is_barrier rt'.own.board c ≡ is_barrier rt.own.board c
    pub placed : length rt'.own.board.barriers ≡ length rt.own.board.barriers
    pub exchange : export_state rt'.exchange ≡ export_state rt.exchange
    pub my_step : rt'.my_step ≡ rt.my_step
    pub their_step : rt'.their_step ≡ rt.their_step
    pub last_sent : rt'.last_sent ≡ rt.last_sent
    pub pending_claim_response : rt'.pending_claim_response ≡ rt.pending_claim_response

module _ (F : Floats) (digest_of : ℤ → Cell → List Cell → String) where
  -- The own state that comes back: the barriers in another order.
  abbrev comes_back : OwnState F → OwnState F
  comes_back s = record s {
    board = record { grid_size = s.board.grid_size; barriers = restored s.board.barriers };
  }

  module _ (g : ℕ) (fresh s : OwnState F) (start : IsFresh F g fresh)
      (k : Resumable F g fresh s) where
    scent_back : absorb F fresh.rival_scent (serialize_scent F s.rival_scent.grid) ≡ s.rival_scent
    scent_back =
        absorb-serialize_scent F g fresh.rival_scent s.rival_scent.grid start.rival_size
          k.rival_plain
        ∙ ap (λ (n : ℤ). record { grid_size = n; grid = s.rival_scent.grid })
            (start.rival_size ∙ sym k.rival_size)

    barriers_back :
        restore_barriers (sorted_cells s.board.barriers) fresh.board
        ≡ ok (record { grid_size = s.board.grid_size; barriers = restored s.board.barriers })
    barriers_back =
        ap (restore_barriers (sorted_cells s.board.barriers))
          (start.board ∙ ap (λ (n : ℤ). record { grid_size = n; barriers = [] }) (sym k.size))
        ∙ restore_barriers-restored s.board k.valid

    rearm_own-comes_back : rearm_own F digest_of fresh (build_own F digest_of s) ≡ ok (comes_back s)
    unfolding rearm_own build_own
    rearm_own-comes_back =
        let token : (if s.next_actor == s.role then fresh.role else rival fresh.role)
            ≡ s.next_actor =
          rw (← k.role) (token_back s.role s.next_actor) in
        let cells : fresh.boundary_cells ++ s.boundary_cells ≡ s.boundary_cells =
          ap (λ (b : List Cell). b ++ s.boundary_cells) start.boundary_cells in
        rw (barriers_back, scent_back, token, cells, ← k.scent, ← k.role, ← k.rules, ← k.outcome)
          refl

  module _ (g : ℕ) (rt0 rt : Runtime F) (step : ℤ) (start : IsFresh F g rt0.own)
      (k : Resumable F g rt0.own rt.own) where
    same_digest : digest F digest_of (comes_back rt.own) ≡ digest F digest_of rt.own
    unfolding digest
    same_digest =
        ap (digest_of rt.own.board.grid_size rt.own.cell)
          (sorted_cells-restored rt.own.board.barriers)

    rearmed : Runtime F
    rearmed = record rt0 {
      own = comes_back rt.own;
      my_step = rt.my_step;
      their_step = rt.their_step;
      exchange = restore_state rt0.exchange (export_state rt.exchange);
      last_sent = rt.last_sent;
      pending_claim_response = rt.pending_claim_response;
    }

    rearm-rearmed : rearm F digest_of rt0 (build_snapshot F digest_of rt step) ≡ ok (rearmed, step)
    unfolding rearm build_snapshot rearmed
    rearm-rearmed =
        rw
          (
            rearm_own-comes_back g rt0.own rt.own start k,
            same_digest,
            ==_refl (digest F digest_of rt.own),
          )
          refl

    rearmed-Resumes : Resumes F rt rearmed
    unfolding rearmed is_barrier export_state restore_state
    rearmed-Resumes = record {
      own = refl;
      grid_size = refl;
      barriers = λ c. contains-restored c rt.own.board.barriers;
      placed = length-restored rt.own.board.barriers;
      exchange = refl;
      my_step = refl;
      their_step = refl;
      last_sent = refl;
      pending_claim_response = refl;
    }

  -- A peer that crashed after any half-turns of a game and starts again from the same terms is armed
  -- from its snapshot without an error, at the half-turn of the snapshot. It has the own state that it
  -- had, with the same barriers in another order; the sealed records of both sides and the consumed
  -- keys; the step counters, the last message and the claim response. This holds if each message
  -- carries positive scent values only.
  pub rearm-wire_play :
      (g : ℕ) (cop robber : Cell) (rules : RuleSet) (center decay : F.Float) (kernel : ℕ)
      (c t c' t' : OwnState F) (turns : Turns F) (who : Role) (rt0 rt : Runtime F) (step : ℤ)
      → new F police (pos g) cop rules center decay kernel ≡ ok c
      → new F thief (pos g) robber rules center decay kernel ≡ ok t
      → wire_play F c t turns ≡ ok (c', t')
      → SmellsPositive F turns
      → rt0.own ≡ mover F c t who
      → rt.own ≡ mover F c' t' who
      → (rt' : Runtime F) × (rearm F digest_of rt0 (build_snapshot F digest_of rt step)
          ≡ ok (rt', step))
        × Resumes F rt rt'
  rearm-wire_play g cop robber rules center decay kernel c t c' t' turns who rt0 rt step hc ht
        played positive fresh now =
      let (cop_start, cop_kept) = new-IsFresh F police g cop rules center decay kernel c hc in
      let (thief_start, thief_kept) = new-IsFresh F thief g robber rules center decay kernel t ht in
      let (kept_c, kept_t) =
        wire_play-Resumable F g c t turns c t c' t' played positive (cop_kept, thief_kept) in
      arm who fresh now cop_start thief_start kept_c kept_t
    where
      arm :
          (w : Role)
          → rt0.own ≡ mover F c t w
          → rt.own ≡ mover F c' t' w
          → IsFresh F g c
          → IsFresh F g t
          → Resumable F g c c'
          → Resumable F g t t'
          → (rt' : Runtime F) × (rearm F digest_of rt0 (build_snapshot F digest_of rt step)
              ≡ ok (rt', step))
            × Resumes F rt rt'
      arm police fresh now start_c start_t kept_c kept_t =
          let start = subst (IsFresh F g) (sym fresh) start_c in
          let kept : Resumable F g rt0.own rt.own =
            subst (Resumable F g rt0.own) (sym now)
              (subst (λ x. Resumable F g x c') (sym fresh) kept_c) in
          (
            rearmed g rt0 rt step start kept,
            rearm-rearmed g rt0 rt step start kept,
            rearmed-Resumes g rt0 rt step start kept,
          )
      arm thief fresh now start_c start_t kept_c kept_t =
          let start = subst (IsFresh F g) (sym fresh) start_t in
          let kept : Resumable F g rt0.own rt.own =
            subst (Resumable F g rt0.own) (sym now)
              (subst (λ x. Resumable F g x t') (sym fresh) kept_t) in
          (
            rearmed g rt0 rt step start kept,
            rearm-rearmed g rt0 rt step start kept,
            rearmed-Resumes g rt0 rt step start kept,
          )
