-- ===== src/Foreign/Index.antt =====
-- The index of the revealed records by their commits.
use p2p_thief.Prelude.{true, false, ◌≡◌, refl, sym, ◌∙◌, ap, subst, ◌⊎◌, inl, inr, List, [], ◌∷◌}
use p2p_thief.Prelude.{
  some, Option-cases, ◌==◌, ==_iff, Bool-cases, arith, text_equality, dict_get, dict_set,
  dict_get-set, All, if◌then◌else◌,
}
use p2p_thief.Json.{Json, text}
use p2p_thief.Foreign.{
  JsonHashing, Form, Reveal, read_reveal, with_commit, set_under, index_reveals,
}
use Prim.Native.String.{String}
use p2p_thief.Foreign.Clean.{IsClean, IsCleanRecord}
use p2p_thief.Prelude.{some_inj}

named : {c d : String} → text c ≡ text d → c ≡ d
named h = cc

-- A received value whose commit is `c`.
abbrev pub Reveals : String → List Json → Type 0
Reveals c [] = ⊥
Reveals c (j ∷ js) = ((r : Reveal) × (read_reveal j ≡ some r) × (r.commit ≡ text c)) ⊎ Reveals c js

-- What the index finds under a commit has come from a reveal or was there.
pub set_under-origin :
    (v : Json) (r : Reveal) (found : List (String × Reveal)) (c : String) (s : Reveal)
    → dict_get c (set_under v r found) ≡ some s
    → (v ≡ text c) ⊎ (dict_get c found ≡ some s)
set_under-origin (text d) r found c s h = elim (Bool-cases (d == c)) [
  | inl same ↦ inl (ap text ((==_iff d c).0 same))
  | inr differ ↦ inr (sym (dict_get-set d c r found ∙ rw differ refl) ∙ h)
]
set_under-origin _ r found c s h = inr h

pub index_reveals-origin :
    (js : List Json) (found : List (String × Reveal)) (c : String) (s : Reveal)
    → dict_get c (index_reveals js found) ≡ some s
    → Reveals c js ⊎ (dict_get c found ≡ some s)
index_reveals-origin [] found c s h = inr h
index_reveals-origin (j ∷ js) found c s h =
    elim (index_reveals-origin js (with_commit (read_reveal j) found) c s h) [
      | inl later ↦ inl (inr later)
      | inr here ↦ elim (Option-cases (read_reveal j)) [
        | inl lost ↦ inr (sym (ap (λ o. dict_get c (with_commit o found)) lost) ∙ here)
        | inr (r, keys) ↦
            let at = sym (ap (λ o. dict_get c (with_commit o found)) keys) ∙ here in
            elim (set_under-origin r.commit r found c s at) [
              | inl e ↦ inl (inl (r, keys, e))
              | inr before ↦ inr before
            ]
      ]
    ]

module _ (H : JsonHashing) (form : Form) where
  -- Every reveal of the index is clean and stands under its own commit.
  abbrev pub Indexed : List (String × Reveal) → Type 0
  Indexed found =
      (c : String) (r : Reveal) → dict_get c found ≡ some r → (r.commit ≡ text c) × IsClean H form r

  pub with_commit-Indexed :
      (r : Reveal) (found : List (String × Reveal))
      → IsClean H form r
      → Indexed found
      → (c : String) × (r.commit ≡ text c)
        × (with_commit (some r) found ≡ dict_set c r found)
        × Indexed (dict_set c r found)
  unfolding IsClean
  with_commit-Indexed r found (m, hashed, e) indexed =
      let c = H.sha256_hex m in
      (
        c,
        e,
        ap (λ v. set_under v r found) e,
        λ d s h. put d s c (Bool-cases (c == d)) e (sym (dict_get-set c d r found) ∙ h),
      )
    where
      put :
          (d : String) (s : Reveal) (c : String)
          → ((c == d) ≡ true) ⊎ ((c == d) ≡ false)
          → r.commit ≡ text c
          → (if c == d then some r else dict_get d found) ≡ some s
          → (s.commit ≡ text d) × IsClean H form s
      put d s c (inl same) at h =
          let one : r ≡ s = ground arith in
          subst (λ t. (t.commit ≡ text d) × IsClean H form t) one
            (at ∙ ap text ((==_iff c d).0 same), (m, hashed, e))
      put d s c (inr differ) at h = indexed d s (ground arith)

  -- The index after a run: it is well formed, and finds each commit that it had or that a reveal has.
  pub index_reveals_lem :
      (js : List Json) (found : List (String × Reveal))
      → All (IsCleanRecord H form) js
      → Indexed found
      → Indexed (index_reveals js found)
        × ((c : String)
            → ((r : Reveal) × (dict_get c found ≡ some r)) ⊎ Reveals c js
            → (r : Reveal) × (dict_get c (index_reveals js found) ≡ some r))
  index_reveals_lem [] found clean indexed =
      (indexed, λ c e. elim e [ inl h ↦ h | inr h ↦ absurd h ])
  index_reveals_lem (j ∷ js) found (cl, clean) indexed =
      let (c, at, set, ok_set) = with_commit-Indexed cl.reveal found cl.clean indexed in
      let moved : with_commit (read_reveal j) found ≡ dict_set c cl.reveal found =
        ap (λ o. with_commit o found) cl.keys ∙ set in
      let (well, finds) = index_reveals_lem js (dict_set c cl.reveal found) clean ok_set in
      subst
        (λ f.
          Indexed (index_reveals js f)
          × ((d : String)
              → ((r : Reveal) × (dict_get d found ≡ some r)) ⊎ Reveals d (j ∷ js)
              → (r : Reveal) × (dict_get d (index_reveals js f) ≡ some r)))
        (sym moved) (well, λ d e. finds d (kept c at d e))
    where
      there :
          (c d : String) (r : Reveal)
          → (dict_get d found ≡ some r) ⊎ (c ≡ d)
          → (s : Reveal) × (dict_get d (dict_set c cl.reveal found) ≡ some s)
      there c d r h = elim (Bool-cases (c == d)) [
        | inl same ↦ (cl.reveal, dict_get-set c d cl.reveal found ∙ rw same refl)
        | inr differ ↦ (r, dict_get-set c d cl.reveal found ∙ ground (arith, ==_iff c d))
      ]

      kept :
          (c : String)
          → cl.reveal.commit ≡ text c
          → (d : String) → ((r : Reveal) × (dict_get d found ≡ some r)) ⊎ Reveals d (j ∷ js)
          → ((r : Reveal) × (dict_get d (dict_set c cl.reveal found) ≡ some r)) ⊎ Reveals d js
      kept c at d (inl (r, h)) = inl (there c d r (inl h))
      kept c at d (inr (inr h)) = inr h
      kept c at d (inr (inl (r, keys, e))) = inl (
          there c d r
            (inr (named (sym at ∙ ap (λ x. x.commit) (some_inj (sym cl.keys ∙ keys)) ∙ e))))
