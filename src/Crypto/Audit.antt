-- ===== src/Crypto/Audit.antt =====
-- What an audit that verifies has checked.
use p2p_thief.Prelude.{Bool, true, false, ◌≡◌, refl, sym, ◌∙◌, inl, inr, ◌↔◌, List, [], ◌∷◌}
use p2p_thief.Prelude.{Option, none, some, Result, ok, err, Bool-cases, arith, length, suc, ap}
use p2p_thief.Prelude.{==_iff, ==_refl, text_equality, eqb, ok_inj, bind-eq-ok}
use p2p_thief.Json.{Dict}
use p2p_thief.Crypto.{Hashing, RivalRecord, Verdict, verified_ok, tampered, commit_hash}
use p2p_thief.Crypto.{verify_commit, verify_record, audit_loop, audit_records}
use Prim.Native.String.{String}

module _ (H : Hashing) where
  -- The nonce opens the record's commitment.
  pub record Opens (r : RivalRecord) (nonce : String) : Type 0 where
    pub payload : Dict
    pub revealed : r.payload ≡ some payload
    pub hashed : commit_hash H payload nonce ≡ ok r.commit

  -- As many nonces as records, and each opens its own.
  abbrev pub AllOpen : List RivalRecord → List String → Type 0
  AllOpen [] [] = Unit {0}
  AllOpen (r ∷ rs) (n ∷ ns) = Opens r n × AllOpen rs ns
  AllOpen _ _ = ⊥

  verify_commit-true :
      (p : Dict) (n c : String) → verify_commit H p n c ≡ ok true → commit_hash H p n ≡ ok c
  unfolding verify_commit
  verify_commit-true p n c h =
      let (hash, hashed, same) = bind-eq-ok (commit_hash H p n) _ h in
      hashed ∙ ap ok ((==_iff hash c).0 (ok_inj same))

  verify_record-Opens : (r : RivalRecord) (n : String) → verify_record H r n ≡ true → Opens r n
  unfolding verify_record
  verify_record-Opens r n h = go r.payload refl
    where
      opened :
          (p : Dict) (v : Result Bool)
          → r.payload ≡ some p
          → verify_commit H p n r.commit ≡ v
          → Opens r n
      opened p (err e) q w = absurd (ground arith)
      opened p (ok false) q w = absurd (ground arith)
      opened p (ok true) q w = record {
        payload = p;
        revealed = q;
        hashed = verify_commit-true p n r.commit w;
      }

      go : (o : Option Dict) → r.payload ≡ o → Opens r n
      go none e = absurd (ground arith)
      go (some p) e = opened p (verify_commit H p n r.commit) e refl

  Opens-verify_record : (r : RivalRecord) (n : String) → Opens r n → verify_record H r n ≡ true
  unfolding verify_record verify_commit
  Opens-verify_record r n o =
      rw (o.revealed, verify_record) (rw (o.hashed, verify_commit) (==_refl r.commit))

  audit_loop-AllOpen :
      (rs : List RivalRecord) (ns : List String)
      → length rs ≡ length ns
      → (audit_loop H rs ns ≡ verified_ok) ↔ AllOpen rs ns
  unfolding audit_loop
  audit_loop-AllOpen [] [] e = (λ _. tt, λ _. refl)
  audit_loop-AllOpen [] (n ∷ ns) e = absurd (omega arith)
  audit_loop-AllOpen (r ∷ rs) [] e = absurd (omega arith)
  audit_loop-AllOpen (r ∷ rs) (n ∷ ns) e =
      let rest = audit_loop-AllOpen rs ns (omega arith) in
      (
        λ h. (verify_record-Opens r n (ground arith), rest.0 (ground arith)),
        λ (o, os). rw (Opens-verify_record r n o) (rest.1 os),
      )

  AllOpen-length :
      (rs : List RivalRecord) (ns : List String) → AllOpen rs ns → length rs ≡ length ns
  AllOpen-length [] [] h = refl
  AllOpen-length [] (n ∷ ns) h = absurd h
  AllOpen-length (r ∷ rs) [] h = absurd h
  AllOpen-length (r ∷ rs) (n ∷ ns) h = ap suc (AllOpen-length rs ns h.1)

  -- The audit verifies exactly when the nonces are as many as the records and each one opens the
  -- commitment of its own record; in every other case the verdict is that of tampering.
  pub audit_records_iff :
      (rs : List RivalRecord) (ns : List String)
      → ((audit_records H rs ns ≡ verified_ok) ↔ AllOpen rs ns)
        × ((audit_records H rs ns ≡ tampered) ↔ (¬ AllOpen rs ns))
  unfolding audit_records
  audit_records_iff rs ns = elim (Bool-cases (eqb (length rs) (length ns))) [
    | inl even ↦
        let each = audit_loop-AllOpen rs ns (ground arith) in
        rw even (
          (each.0, each.1),
          (
            λ h all. verdict_apart (sym (each.1 all) ∙ h),
            λ none_opens. refused (audit_loop H rs ns) (λ h. none_opens (each.0 h)),
          ),
        )
    | inr odd ↦ rw odd (
      (λ h. absurd (verdict_apart (sym h)), λ all. absurd (uneven all odd)),
      (λ _ all. uneven all odd, λ _. refl),
    )
  ]
    where
      verdict_apart : verified_ok ≡ tampered → ⊥
      verdict_apart h = cc

      refused : (v : Verdict) → (v ≡ verified_ok → ⊥) → v ≡ tampered
      refused verified_ok h = absurd (h refl)
      refused tampered h = refl

      uneven : AllOpen rs ns → eqb (length rs) (length ns) ≡ false → ⊥
      uneven all odd = let e = AllOpen-length rs ns all in ground arith
