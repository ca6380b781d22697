-- ===== src/Codec/Built.antt =====
-- The messages that a peer builds.
use p2p_thief.Prelude.{
  ◌≡◌, refl, false, Bool-cases, subst, ap, ◌∙◌, Option, some, ok, dict_get, contains, text_equality,
  ==_iff, ◌==◌, inl, inr,
}
use p2p_thief.Prelude.Int.{ℤ, pos, ◌≤ℤ◌}
use p2p_thief.Primitives.{Role}
use p2p_thief.Json.{Json, Dict, Members}
use p2p_thief.Sealing.{role_value}
use p2p_thief.Codec.{build_turn_message, parse_turn_message, normalised}
use p2p_thief.Codec.Accepts.{IsCell, IsResponse, IsWin, NullOr}
use p2p_thief.Json.{number, infinite}
use p2p_thief.Codec.Checked.{IsTurnMessage, parse_turn_message-Settles}
use Prim.Native.String.{String}

module _ (int_of_text : String → Option ℤ) (step : ℤ) (sender : Role)
    (hint commit timestamp : String) (smell_grid : Members)
    (barrier_placed capture_claim claim_response win_claim : Json) where
  abbrev pub built : Dict
  built =
      build_turn_message step (role_value sender) hint smell_grid commit timestamp barrier_placed
        capture_claim claim_response win_claim

  built-IsTurnMessage :
      pos 1 ≤ℤ step
      → NullOr IsCell barrier_placed
      → NullOr IsCell capture_claim
      → NullOr IsResponse claim_response
      → NullOr IsWin win_claim
      → IsTurnMessage int_of_text built step
  unfolding build_turn_message contains dict_get
  built-IsTurnMessage n b c r w = record {
    known = (
      inl refl,
      (
        inl refl,
        (
          inl refl,
          (inl refl, (inl refl, (inl refl, (inr refl, (inr refl, (inr refl, (inr refl, tt))))))),
        ),
      ),
    );
    required = ((_, refl), ((_, refl), ((_, refl), ((_, refl), ((_, refl), ((_, refl), tt))))));
    numbered = refl;
    holds = record {
      sender = (sender, refl);
      positive = n;
      texts = ((hint, refl), (commit, refl));
      smell_grid = (smell_grid, refl);
      barrier_placed = b;
      capture_claim = c;
      claim_response = r;
      win_claim = w;
    };
  }

  -- A property of a key, by its name or from its not being that name.
  unless :
      (key : String) (P : String → Type 0) (name : String)
      → P name
      → ((name == key) ≡ false → P key)
      → P key
  unless key P name here away = elim (Bool-cases (name == key)) [
    | inl e ↦ subst P ((==_iff name key).0 e) here
    | inr e ↦ away e
  ]

  same_keys : (key : String) → dict_get key (normalised int_of_text built step) ≡ dict_get key built
  unfolding build_turn_message dict_get
  same_keys key =
      let by =
        unless key (λ k. dict_get k (normalised int_of_text built step) ≡ dict_get k built) in
      by "step" refl λ a. by "sender" refl λ b. by "hint" refl λ c. by "smell_grid" refl λ d.
        by "commit" refl λ e. by "timestamp" refl λ f. by "barrier_placed" refl λ g.
          by "capture_claim" refl λ h.
            by "claim_response" refl
              λ i. by "win_claim" refl λ j. rw (a, b, c, d, e, f, g, h, i, j) refl

  -- A message that a peer builds from a step of at least 1, cells, an answer and a claim of the right
  -- shapes is accepted by the other, and each key reads there as it was built.
  pub parse_turn_message-built :
      pos 1 ≤ℤ step
      → NullOr IsCell barrier_placed
      → NullOr IsCell capture_claim
      → NullOr IsResponse claim_response
      → NullOr IsWin win_claim
      → (q : Dict) × (parse_turn_message int_of_text built ≡ ok q)
        × ((key : String) → dict_get key q ≡ dict_get key built)
  unfolding dict_get build_turn_message
  parse_turn_message-built n b c r w = elim (parse_turn_message-Settles int_of_text built) [
    | inl (inl (q, e, (k, m, made))) ↦ (
      q,
      e,
      λ key.
          ap (dict_get key) made
          ∙ ap (λ i. dict_get key (normalised int_of_text built i)) (read k m.numbered)
          ∙ same_keys key,
    )
    | inr (e, (known, (required, endless))) ↦ absurd (finite endless)
    | inl (inr (e, bad)) ↦
        absurd (bad (normalised int_of_text built step) (step, built-IsTurnMessage n b c r w, refl))
  ]
    where
      read : (k : ℤ) → some step ≡ some k → k ≡ step
      read k h = cc

      finite : number step ≡ infinite → ⊥
      finite h = cc
