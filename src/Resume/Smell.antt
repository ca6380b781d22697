-- ===== src/Resume/Smell.antt =====
-- The sparse scent of wire/codec.py against the field that it is taken from.
use p2p_thief.Prelude.{
  ℕ, zero, suc, ◌+◌, ◌≤◌, ◌<◌, ◌≡◌, ◌⊎◌, inl, inr, refl, sym, ap, subst, ◌∙◌, true,
}
use p2p_thief.Prelude.{
  ◌&&◌, arith, List, [], ◌∷◌, ◌++◌, length, length-append, All, All-replicate, replicate, get_or,
}
use p2p_thief.Prelude.{if_true, if_false, Bool-cases}
use p2p_thief.Prelude.Int.{ℤ, pos, pos_part, leb_ℤ, ltb_ℤ}
use p2p_thief.Primitives.{Cell}
use p2p_thief.Scent.Float.{Floats}
use p2p_thief.OwnState.{ReceivedScent, absorb, absorb_entry, absorb_entries, blank_rows, put_at}
use p2p_thief.Resume.{serialize_row, serialize_rows, serialize_scent}

module _ {ℓ} {A : Type ℓ} where
  put_at-middle :
      (xs : List A) (x y : A) (ys : List A) → put_at (xs ++ (x ∷ ys)) (length xs) y ≡ xs ++ (y ∷ ys)
  put_at-middle [] x y ys = refl
  put_at-middle (z ∷ xs) x y ys = ap (λ (r : List A). z ∷ r) (put_at-middle xs x y ys)

  get_or-middle : (xs : List A) (x d : A) (ys : List A) → get_or (xs ++ (x ∷ ys)) (length xs) d ≡ x
  get_or-middle [] x d ys = refl
  get_or-middle (z ∷ xs) x d ys = get_or-middle xs x d ys

snoc {ℓ} :
    {A : Type ℓ} (xs : List A) (v : A) (ys : List A) → (xs ++ (v ∷ [])) ++ ys ≡ xs ++ (v ∷ ys)
snoc [] v ys = refl
snoc (x ∷ xs) v ys = ap (λ (r : List _). x ∷ r) (snoc xs v ys)

module _ (F : Floats) where
  open F use {Float, zero_float, ltf}

  absorb_entries-append :
      (g : ℤ) (es fs : List (Cell × Float)) (fresh : List (List Float))
      → absorb_entries F g (es ++ fs) fresh ≡ absorb_entries F g fs (absorb_entries F g es fresh)
  unfolding absorb_entries
  absorb_entries-append g [] fs fresh = refl
  absorb_entries-append g ((cell, v) ∷ es) fs fresh =
      absorb_entries-append g es fs (absorb_entry F g cell v fresh)

  -- A value that the wire carries, or the zero that it leaves out.
  abbrev pub IsPlain : Float → Type 0
  IsPlain v = (ltf zero_float v ≡ true) ⊎ (v ≡ zero_float)

  absorb_entry-middle :
      (g : ℕ) (above below : List (List Float)) (before : List Float) (old v : Float)
      (rest : List Float)
      → length above < g
      → length before < g
      → absorb_entry F
          (pos g)
          (pos (length above), pos (length before))
          v
          (above ++ ((before ++ (old ∷ rest)) ∷ below))
        ≡ above ++ ((before ++ (v ∷ rest)) ∷ below)
  unfolding absorb_entry
  absorb_entry-middle g above below before old v rest high wide =
      let row = before ++ (old ∷ rest) in
      if_true
        (leb_ℤ (pos 0) (pos (length above))
          && ltb_ℤ (pos (length above)) (pos g)
          && (leb_ℤ (pos 0) (pos (length before)) && ltb_ℤ (pos (length before)) (pos g)))
        _ _ (ground arith)
      ∙ ap (λ r. put_at (above ++ (row ∷ below)) (length above) (put_at r (length before) v))
          (get_or-middle above row [] below)
      ∙ put_at-middle above row (put_at row (length before) v) below
      ∙ ap (λ r. above ++ (r ∷ below)) (put_at-middle before old v rest)

  -- The entries of one row, put into a grid whose row has its first values already.
  absorb_row :
      (g : ℕ) (above below : List (List Float)) (before : List Float) (vs : List Float)
      → length above < g
      → length before + length vs ≤ g
      → All IsPlain vs
      → absorb_entries F
          (pos g)
          (serialize_row F (length above) (length before) vs)
          (above ++ ((before ++ replicate (length vs) zero_float) ∷ below))
        ≡ above ++ ((before ++ vs) ∷ below)
  unfolding absorb_entries serialize_row
  absorb_row g above below before [] high wide plain = refl
  absorb_row g above below before (v ∷ vs) high wide (p, plain) =
      let zeros = replicate (length vs) zero_float in
      let one_more : length (before ++ (v ∷ [])) ≡ length before + 1 =
        length-append before (v ∷ []) in
      let later : absorb_entries F (pos g) (serialize_row F (length above) (length before + 1) vs)
            (above ++ ((before ++ (v ∷ zeros)) ∷ below))
          ≡ above ++ ((before ++ (v ∷ vs)) ∷ below) =
        rw (one_more, snoc before v zeros, snoc before v vs) at
          (absorb_row g above below (before ++ (v ∷ [])) vs high (omega (arith, one_more)) plain) in
      elim p [
        | inl some_scent ↦
            ap
              (λ es.
                absorb_entries F (pos g) es (above ++ ((before ++ (zero_float ∷ zeros)) ∷ below)))
              (if_true (ltf zero_float v) _ _ some_scent)
            ∙ ap (absorb_entries F (pos g) (serialize_row F (length above) (length before + 1) vs))
                (absorb_entry-middle g above below before zero_float v zeros high (omega arith))
            ∙ later
        | inr none_here ↦
            ap
              (λ es.
                absorb_entries F (pos g) es (above ++ ((before ++ (zero_float ∷ zeros)) ∷ below)))
              (if_false (ltf zero_float v) _ _
                (ap (ltf zero_float) none_here ∙ F.ltf_irrefl zero_float))
            ∙ ap
                (λ w.
                  absorb_entries F (pos g) (serialize_row F (length above) (length before + 1) vs)
                    (above ++ ((before ++ (w ∷ zeros)) ∷ below)))
                (sym none_here)
            ∙ later
      ]

  -- A square grid of plain values.
  abbrev pub IsPlainRow : ℕ → List Float → Type 0
  IsPlainRow g row = (length row ≡ g) × All IsPlain row

  pub record IsPlainGrid (g : ℕ) (grid : List (List Float)) : Type 0 where
    pub side : length grid ≡ g
    pub rows : All (IsPlainRow g) grid

  absorb_rows :
      (g : ℕ) (above rows : List (List Float))
      → length above + length rows ≤ g
      → All (IsPlainRow g) rows
      → absorb_entries F
          (pos g)
          (serialize_rows F (length above) rows)
          (above ++ replicate (length rows) (replicate g zero_float))
        ≡ above ++ rows
  unfolding absorb_entries serialize_rows
  absorb_rows g above [] high plain = refl
  absorb_rows g above (row ∷ rows) high ((wide, p), plain) =
      let below = replicate (length rows) (replicate g zero_float) in
      let one_more : length (above ++ (row ∷ [])) ≡ length above + 1 =
        length-append above (row ∷ []) in
      let first : absorb_entries F (pos g) (serialize_row F (length above) 0 row)
            (above ++ (replicate g zero_float ∷ below))
          ≡ above ++ (row ∷ below) =
        rw wide at (absorb_row g above below [] row (omega arith) (omega arith) p) in
      let later : absorb_entries F (pos g) (serialize_rows F (length above + 1) rows)
            (above ++ (row ∷ below))
          ≡ above ++ (row ∷ rows) =
        rw (one_more, snoc above row below, snoc above row rows) at
          (absorb_rows g (above ++ (row ∷ [])) rows (omega (arith, one_more)) plain) in
      absorb_entries-append (pos g) (serialize_row F (length above) 0 row)
        (serialize_rows F (length above + 1) rows) _
      ∙ ap (absorb_entries F (pos g) (serialize_rows F (length above + 1) rows)) first
      ∙ later

  -- The receiver of a sparse scent has the grid that it was taken from.
  pub absorb-serialize_scent :
      (g : ℕ) (s : ReceivedScent F) (grid : List (List Float))
      → s.grid_size ≡ pos g
      → IsPlainGrid g grid
      → absorb F s (serialize_scent F grid) ≡ record s { grid = grid }
  unfolding absorb serialize_scent
  absorb-serialize_scent g s grid size plain = rw size (
      ap {B = ReceivedScent F} (λ rows. record { grid_size = pos g; grid = rows })
        (ap
            (λ (n : ℕ).
              absorb_entries F (pos g) (serialize_rows F 0 grid)
                (replicate n (replicate g zero_float)))
            (sym plain.side)
          ∙ absorb_rows g [] grid (omega (arith, plain.side)) plain.rows))

  All-put_at {κ} :
      {A : Type 0} (P : A → Type κ) (xs : List A) (i : ℕ) (a : A)
      → All P xs
      → P a
      → All P (put_at xs i a)
  All-put_at P [] i a ps p = tt
  All-put_at P (x ∷ xs) zero a (q, ps) p = (p, ps)
  All-put_at P (x ∷ xs) (suc i) a (q, ps) p = (q, All-put_at P xs i a ps p)

  length-put_at : {A : Type 0} (xs : List A) (i : ℕ) (a : A) → length (put_at xs i a) ≡ length xs
  length-put_at [] i a = refl
  length-put_at (x ∷ xs) zero a = refl
  length-put_at (x ∷ xs) (suc i) a = ap suc (length-put_at xs i a)

  -- The scent of a message has positive values only, as `serialize_scent` writes it.
  abbrev pub IsPositive : List (Cell × Float) → Type 0
  IsPositive = All (λ e. ltf zero_float e.1 ≡ true)

  All-get_or {κ} :
      {A : Type 0} (P : A → Type κ) (xs : List A) (i : ℕ) (d : A)
      → All P xs
      → i < length xs
      → P (get_or xs i d)
  All-get_or P [] i d ps h = absurd (omega arith)
  All-get_or P (x ∷ xs) zero d (p, ps) h = p
  All-get_or P (x ∷ xs) (suc i) d (p, ps) h = All-get_or P xs i d ps (omega arith)

  All-replicate-zeros : (n : ℕ) → All IsPlain (replicate n zero_float)
  All-replicate-zeros n = All-replicate IsPlain n zero_float (inr refl)

  length-replicate : {A : Type 0} (n : ℕ) (a : A) → length (replicate n a) ≡ n
  length-replicate zero a = refl
  length-replicate (suc n) a = ap suc (length-replicate n a)

  pub blank_rows-IsPlainGrid : (g : ℕ) → IsPlainGrid g (blank_rows F (pos g))
  blank_rows-IsPlainGrid g = record {
    side = length-replicate g (replicate g zero_float);
    rows =
        All-replicate (IsPlainRow g) g (replicate g zero_float)
          (length-replicate g zero_float, All-replicate-zeros g);
  }

  absorb_entry-IsPlainGrid :
      (g : ℕ) (cell : Cell) (v : Float) (fresh : List (List Float))
      → ltf zero_float v ≡ true
      → IsPlainGrid g fresh
      → IsPlainGrid g (absorb_entry F (pos g) cell v fresh)
  unfolding absorb_entry
  absorb_entry-IsPlainGrid g (row, col) v fresh p plain =
      elim (Bool-cases
        (leb_ℤ (pos 0) row && ltb_ℤ row (pos g) && (leb_ℤ (pos 0) col && ltb_ℤ col (pos g)))) [
          | inl inside ↦
              let old = get_or fresh (pos_part row) [] in
              let (wide, values) =
                All-get_or (IsPlainRow g) fresh (pos_part row) [] plain.rows
                  (ground (arith, plain.side)) in
              let new = put_at old (pos_part col) v in
              subst (IsPlainGrid g) (sym (if_true _ _ fresh inside)) (record {
                side = length-put_at fresh (pos_part row) new ∙ plain.side;
                rows = All-put_at (IsPlainRow g) fresh (pos_part row) new plain.rows (
                  length-put_at old (pos_part col) v ∙ wide,
                  All-put_at IsPlain old (pos_part col) v values (inl p),
                );
              })
          | inr outside ↦ subst (IsPlainGrid g) (sym (if_false _ _ fresh outside)) plain
        ]

  absorb_entries-IsPlainGrid :
      (g : ℕ) (es : List (Cell × Float)) (fresh : List (List Float))
      → IsPositive es
      → IsPlainGrid g fresh
      → IsPlainGrid g (absorb_entries F (pos g) es fresh)
  unfolding absorb_entries
  absorb_entries-IsPlainGrid g [] fresh positive plain = plain
  absorb_entries-IsPlainGrid g ((cell, v) ∷ es) fresh (p, positive) plain =
      absorb_entries-IsPlainGrid g es (absorb_entry F (pos g) cell v fresh) positive
        (absorb_entry-IsPlainGrid g cell v fresh p plain)

  pub absorb-IsPlainGrid :
      (g : ℕ) (s : ReceivedScent F) (es : List (Cell × Float))
      → s.grid_size ≡ pos g
      → IsPositive es
      → IsPlainGrid g (absorb F s es).grid
  unfolding absorb
  absorb-IsPlainGrid g s es size positive =
      rw size
        (absorb_entries-IsPlainGrid g es (blank_rows F (pos g)) positive (blank_rows-IsPlainGrid g))
