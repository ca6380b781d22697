-- ===== src/Foreign/Clean.antt =====
-- Which of the values received in an audit hash to their own commits.
use p2p_thief.Prelude.{some_inj}
use p2p_thief.Prelude.{true, ◌≡◌, refl, sym, ◌∙◌, ap, subst, inl, inr, ◌↔◌, List, [], ◌∷◌}
use p2p_thief.Prelude.{
  none, some, Option-cases, ==_iff, ok, bind-eq-ok, Bool-cases, arith, text_equality, All,
}
use p2p_thief.Json.{Json, text}
use p2p_thief.Foreign.{
  JsonHashing, Form, Reveal, read_reveal, material, announces, reveal_clean, commit_clean,
  all_clean, logged_step,
}
use Prim.Native.String.{String}

module _ (H : JsonHashing) (form : Form) where
  -- The commit of a reveal is the digest of its payload and nonce under the declared construction.
  unfoldable pub IsClean : Reveal → Type 0
  IsClean r = (m : String) × (material H form r ≡ some m) × (r.commit ≡ text (H.sha256_hex m))

  -- The same for a value as it is received.
  pub record IsCleanRecord (j : Json) : Type 0 where
    pub reveal : Reveal
    pub keys : read_reveal j ≡ some reveal
    pub clean : IsClean reveal

  pub announces_iff : (v : Json) (d : String) → (announces v d ≡ true) ↔ (v ≡ text d)
  announces_iff (text t) d = (λ h. ap text ((==_iff t d).0 h), λ e. (==_iff t d).1 (ground arith))
  announces_iff _ d = (λ h. absurd (ground arith), λ e. absurd (ground arith))

  pub reveal_clean_iff : (r : Reveal) → (reveal_clean H form r ≡ true) ↔ IsClean r
  unfolding IsClean
  reveal_clean_iff r = elim (Option-cases (material H form r)) [
    | inl lost ↦
        rw (lost, reveal_clean) (λ h. absurd (ground arith), λ (m, e, c). absurd (ground arith))
    | inr (m, e) ↦
        rw (e, reveal_clean)
          (
            λ h. (m, refl, (announces_iff r.commit (H.sha256_hex m)).0 h),
            λ (k, same, c).
                (announces_iff r.commit (H.sha256_hex m)).1
                  (c ∙ ap (λ x. text (H.sha256_hex x)) (sym (some_inj same))),
          )
  ]

  pub commit_clean_iff : (j : Json) → (commit_clean H form j ≡ true) ↔ IsCleanRecord j
  unfolding commit_clean
  commit_clean_iff j = elim (Option-cases (read_reveal j)) [
    | inl lost ↦
        rw (lost, commit_clean)
          (λ h. absurd (ground arith), λ c. absurd (unread (sym lost ∙ c.keys)))
    | inr (r, e) ↦
        rw (e, commit_clean)
          (
            λ h. record { reveal = r; keys = e; clean = (reveal_clean_iff r).0 h },
            λ c. (reveal_clean_iff r).1 (subst IsClean (some_inj (sym c.keys ∙ e)) c.clean),
          )
  ]
    where
      unread : {r : Reveal} → none ≡ some r → ⊥
      unread h = cc

  pub all_clean_iff : (rs : List Json) → (all_clean H form rs ≡ ok true) ↔ All IsCleanRecord rs
  unfolding all_clean
  all_clean_iff [] = (λ _. tt, λ _. refl)
  all_clean_iff (r ∷ rs) = elim (Bool-cases (commit_clean H form r)) [
    | inl good ↦ rw good (
      λ h. ((commit_clean_iff r).0 good, (all_clean_iff rs).0 h),
      λ (c, cs). (all_clean_iff rs).1 cs,
    )
    | inr bad ↦ rw bad (
      λ h. let (s, e, raised) = bind-eq-ok (logged_step r) _ h in absurd (ground arith),
      λ (c, cs). absurd (ground (arith, (commit_clean_iff r).1 c)),
    )
  ]
