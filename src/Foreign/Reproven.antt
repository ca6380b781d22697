-- ===== src/Foreign/Reproven.antt =====
-- What the first tier of the audit has checked when it verifies, and when it does.
use p2p_thief.Prelude.{Bool, true, false, ◌≡◌, refl, ◌∙◌, ap, subst, inl, inr, List, [], ◌∷◌}
use p2p_thief.Prelude.{
  some, Option-cases, Result, ok, bind-eq-ok, ok_inj, arith, text_equality, dict_get, All,
  if◌then◌else◌,
}
use p2p_thief.Json.{Json, text}
use p2p_thief.Crypto.{Verdict, verified_ok, tampered}
use p2p_thief.Foreign.{
  JsonHashing, Form, LiveRecord, Reveal, all_clean, index_reveals, merge_reveals, verify_reveals,
}
use Prim.Native.String.{String}
use p2p_thief.Foreign.Clean.{IsClean, IsCleanRecord, all_clean_iff}
use p2p_thief.Foreign.Index.{Indexed, Reveals, index_reveals_lem, index_reveals-origin}

module _ (H : JsonHashing) (form : Form) where
  -- Each live record is filled in from a clean reveal of its own commit.
  abbrev pub Reopened : List LiveRecord → List LiveRecord → Type 0
  Reopened [] [] = Unit {0}
  Reopened (l ∷ ls) (a ∷ rest) =
      ((r : Reveal) × IsClean H form r
        × (r.commit ≡ text l.commit)
        × (a ≡ record l { payload = some r.payload; nonce = some r.nonce }))
      × Reopened ls rest
  Reopened _ _ = ⊥

  merge_reveals_iff :
      (found : List (String × Reveal)) (live : List LiveRecord)
      → Indexed H form found
      → ((after : List LiveRecord)
          → merge_reveals found live ≡ (verified_ok, after)
          → Reopened live after × All (λ l. (r : Reveal) × (dict_get l.commit found ≡ some r)) live)
        × (All (λ l. (r : Reveal) × (dict_get l.commit found ≡ some r)) live
            → (after : List LiveRecord) × (merge_reveals found live ≡ (verified_ok, after)))
  unfolding merge_reveals
  merge_reveals_iff found [] indexed =
      (λ after h. (subst (Reopened []) (ends h) tt, tt), λ _. ([], refl))
    where
      ends :
          {after : List LiveRecord}
          → ◌≡◌ {A = Verdict × List LiveRecord} (verified_ok, []) (verified_ok, after)
          → [] ≡ after
      ends h = cc
  merge_reveals_iff found (l ∷ ls) indexed = elim (Option-cases (dict_get l.commit found)) [
    | inl lost ↦
        rw (lost, merge_reveals)
          (λ after h. absurd (ground arith), λ (found_at, all). absurd (ground arith))
    | inr (r, e) ↦
        let (at, clean) = indexed l.commit r e in
        let (sound, complete) = merge_reveals_iff found ls indexed in
        rw (e, merge_reveals)
          (
            λ after h.
                let (reopened, all) = sound (merge_reveals found ls).1 (paired (ap (λ x. x.0) h)) in
                (
                  subst (Reopened (l ∷ ls)) (ap (λ x. x.1) h) ((r, clean, at, refl), reopened),
                  ((r, refl), all),
                ),
            λ (found_at, all).
                let (after, m) = complete all in
                (
                  _,
                  ap (λ x. (x.0, record l { payload = some r.payload; nonce = some r.nonce } ∷ x.1))
                      m,
                ),
          )
  ]
    where
      paired :
          {v : Verdict} {rest : List LiveRecord}
          → v ≡ verified_ok
          → ◌≡◌ {A = Verdict × List LiveRecord} (v, rest) (verified_ok, rest)
      paired h = rw h refl

  -- What a verified tier rests on: each reveal is clean, and each live commit is that of a reveal.
  pub record IsReproven (live : List LiveRecord) (revealed : List Json) : Type 0 where
    pub clean : All (IsCleanRecord H form) revealed
    pub anchored : All (λ l. Reveals l.commit revealed) live

  nothing : Indexed H form []
  unfolding dict_get
  nothing c r h = absurd (ground arith)

  module _ (live : List LiveRecord) (revealed : List Json) where
    abbrev index : List (String × Reveal)
    index = index_reveals revealed []

    anchored :
        (ls : List LiveRecord)
        → All (λ l. (r : Reveal) × (dict_get l.commit index ≡ some r)) ls
        → All (λ l. Reveals l.commit revealed) ls
    unfolding dict_get
    anchored [] h = tt
    anchored (l ∷ ls) ((r, e), h) = (
      elim (index_reveals-origin revealed [] l.commit r e) [
        | inl there ↦ there
        | inr before ↦ absurd (ground arith)
      ],
      anchored ls h,
    )

    found-All :
        All (IsCleanRecord H form) revealed
        → (ls : List LiveRecord) → All (λ l. Reveals l.commit revealed) ls
        → All (λ l. (r : Reveal) × (dict_get l.commit index ≡ some r)) ls
    found-All clean [] h = tt
    found-All clean (l ∷ ls) (here, h) = (
      (index_reveals_lem H form revealed [] clean nothing).1 l.commit (inr here),
      found-All clean ls h,
    )

    -- The first tier verifies exactly when every reveal hashes to its own commit under the declared
    -- construction and every commit received live is that of a reveal. Each live record is then filled
    -- in with a payload and a nonce that hash to the commit it was received with, and is else unchanged.
    pub verify_reveals_iff :
        ((after : List LiveRecord)
          → verify_reveals H live revealed form ≡ ok (verified_ok, after)
          → IsReproven live revealed × Reopened live after)
        × (IsReproven live revealed
            → (after : List LiveRecord) × (verify_reveals H live revealed form
                ≡ ok (verified_ok, after)))
    unfolding verify_reveals
    verify_reveals_iff = (
      λ after h.
          let (c, checked, rest) = bind-eq-ok (all_clean H form revealed) _ h in
          let (passed, merged) = split c after rest in
          let clean = (all_clean_iff H form revealed).0 (checked ∙ ap ok passed) in
          let (reopened, found) =
            (merge_reveals_iff index live (index_reveals_lem H form revealed [] clean nothing).0).0
              after merged in
          (record { clean = clean; anchored = anchored live found }, reopened),
      λ w.
          let (after, merged) =
            (merge_reveals_iff index live
                (index_reveals_lem H form revealed [] w.clean nothing).0).1
              (found-All w.clean live w.anchored) in
          (after, rw ((all_clean_iff H form revealed).1 w.clean) (ap ok merged)),
    )
      where
        split :
            (c : Bool) (after : List LiveRecord)
            → ◌≡◌ {A = Result (Verdict × List LiveRecord)}
                (ok (if c then merge_reveals index live else (tampered, live)))
                (ok (verified_ok, after))
            → (c ≡ true) × (merge_reveals index live ≡ (verified_ok, after))
        split true after h = (refl, ok_inj h)
        split false after h = absurd (ground arith)
