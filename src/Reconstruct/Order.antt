-- ===== src/Reconstruct/Order.antt =====
-- The order in which the audit replays the reveals.
use p2p_thief.Prelude.{◌≡◌, refl, true, false, List, [], ◌∷◌, arith, Bool-cases, inl, inr}
use p2p_thief.Prelude.{◌⊎◌, ok, ◌>>=◌, bind-eq-ok, ok_inj, Option, none, some}
use p2p_thief.Prelude.Int.{ℤ_equality, ◌<ℤ◌, ltb_ℤ}
use p2p_thief.Prelude.{◌==◌, ==_iff}
use p2p_thief.Primitives.{Role, role_equality, thief, police}
use p2p_thief.Prelude.{subst, sym, ap, ◌++◌, ◌∙◌}
use p2p_thief.Primitives.{Cell}
use p2p_thief.Reconstruct.{
  Revealed, AuditRecord, Entry, is_before, insert_entry, entries, verify_declared,
}

-- An earlier step, or at the same step not the cop before the thief.
abbrev pub Precedes : Revealed → Revealed → Type 0
Precedes a b = (a.step <ℤ b.step) ⊎ ((a.step ≡ b.step) × ((a.role ≡ thief) ⊎ (b.role ≡ police)))

-- Each entry precedes the next.
abbrev pub IsOrdered : List Entry → Type 0
IsOrdered [] = Unit {0}
IsOrdered (e ∷ []) = Unit {0}
IsOrdered (e ∷ f ∷ es) = Precedes e.0 f.0 × IsOrdered (f ∷ es)

not_thief : (r : Role) → (r == thief) ≡ false → r ≡ police
not_thief police h = refl
not_thief thief h = absurd (ground arith)

is_before-Precedes : (a b : Revealed) → is_before a b ≡ true → Precedes a b
is_before-Precedes a b h = elim (Bool-cases (ltb_ℤ a.step b.step)) [
  | inl earlier ↦ inl (ground arith)
  | inr not_earlier ↦
      let same : (a.step == b.step) ≡ true = ground arith in
      inr (
        (==_iff a.step b.step).0 same,
        elim (Bool-cases (a.role == thief)) [
          | inl first ↦ inl ((==_iff a.role thief).0 first)
          | inr cop ↦ inr (not_thief b.role (ground arith))
        ],
      )
]

is_before-total : (a b : Revealed) → is_before a b ≡ false → Precedes b a
is_before-total a b h = is_before-Precedes b a (ground arith)

insert_entry-IsOrdered :
    (e : Entry) (es : List Entry) → IsOrdered es → IsOrdered (insert_entry e es)
insert_entry-IsOrdered e [] ordered = tt
insert_entry-IsOrdered e (f ∷ []) ordered = elim (Bool-cases (is_before e.0 f.0)) [
  | inl first ↦ rw first (is_before-Precedes e.0 f.0 first, tt)
  | inr later ↦ rw later (is_before-total e.0 f.0 later, tt)
]
insert_entry-IsOrdered e (f ∷ g ∷ es) (step, ordered) = elim (Bool-cases (is_before e.0 f.0)) [
  | inl first ↦ rw first (is_before-Precedes e.0 f.0 first, (step, ordered))
  | inr later ↦ rw later (elim (Bool-cases (is_before e.0 g.0)) [
    | inl next ↦ rw next (is_before-total e.0 f.0 later, (is_before-Precedes e.0 g.0 next, ordered))
    | inr beyond ↦
        let rest = insert_entry-IsOrdered e (g ∷ es) ordered in
        let unfolded : insert_entry e (g ∷ es) ≡ g ∷ insert_entry e es = rw beyond refl in
        rw beyond (step, subst IsOrdered unfolded rest)
  ])
]

-- The longer list is the shorter one with `e` put in somewhere.
pub record Inserts (e : Entry) (shorter longer : List Entry) : Type 0 where
  pub front : List Entry
  pub back : List Entry
  pub before : shorter ≡ front ++ back
  pub after : longer ≡ front ++ (e ∷ back)

insert_entry-Inserts : (e : Entry) (es : List Entry) → Inserts e es (insert_entry e es)
insert_entry-Inserts e [] = record { front = []; back = []; before = refl; after = refl }
insert_entry-Inserts e (f ∷ es) = elim (Bool-cases (is_before e.0 f.0)) [
  | inl first ↦ rw first (record { front = []; back = f ∷ es; before = refl; after = refl })
  | inr later ↦
      let rest = insert_entry-Inserts e es in
      rw later (record {
        front = f ∷ rest.front;
        back = rest.back;
        before = ap (λ l. f ∷ l) rest.before;
        after = ap (λ l. f ∷ l) rest.after;
      })
]

-- The entries are those of the records that have a payload, each with the claim its live declaration
-- made, and no others.
abbrev pub Gathers : List AuditRecord → List Entry → Type 0
Gathers [] es = es ≡ []
Gathers (r ∷ rs) es = elim r.payload as (λ o. Type 0) [
  | none ↦ Gathers rs es
  | some p ↦
      (claim : Option Cell) × (rest : List Entry) × (verify_declared p r.declared ≡ ok claim)
      × Inserts (p, claim) rest es
      × Gathers rs rest
]

-- The entries that the audit replays are exactly those of the records with an untyped payload, once
-- each, and stand in the order of the game: by step, and the thief first at equal steps.
pub entries-IsOrdered :
    (rs : List AuditRecord) (es : List Entry) → entries rs ≡ ok es → IsOrdered es × Gathers rs es
unfolding entries
entries-IsOrdered [] es h = rw (← ok_inj h) (tt, refl)
entries-IsOrdered (r ∷ rs) es h = go (λ rest. entries-IsOrdered rs rest) r.payload refl
  where
    go :
        ((rest : List Entry) → entries rs ≡ ok rest → IsOrdered rest × Gathers rs rest)
        → (o : Option Revealed) → r.payload ≡ o
        → IsOrdered es × Gathers (r ∷ rs) es
    go ih none e =
        let skips : entries (r ∷ rs) ≡ entries rs = rw (entries, e) refl in
        let (ordered, gathered) = ih es (sym skips ∙ h) in (ordered, rw (Gathers, e) gathered)
    go ih (some p) e =
        let takes : entries (r ∷ rs) ≡ (
            verify_declared p r.declared >>= λ claim.
            entries rs >>= λ rest. ok (insert_entry (p, claim) rest)) =
          rw (entries, e) refl in
        let (claim, declared, more) = bind-eq-ok (verify_declared p r.declared) _ (sym takes ∙ h) in
        let (rest, gathers, made) = bind-eq-ok (entries rs) _ more in
        let (ordered, gathered) = ih rest gathers in
        let same = ok_inj made in
        (
          subst IsOrdered same (insert_entry-IsOrdered (p, claim) rest ordered),
          rw (Gathers, e)
              (
                claim,
                rest,
                declared,
                subst (Inserts (p, claim) rest) same (insert_entry-Inserts (p, claim) rest),
                gathered,
              ),
        )
