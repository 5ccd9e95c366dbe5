-- ===== src/Sidecar/Rows.antt =====
-- Tables with a text primary key: SELECT, INSERT and UPDATE of one row by its key.
use gaudere_agent.Prelude.{
  ℕ, ◌+◌, ◌≤◌, ◌≡◌, sym, ap, ◌∙◌, inl, inr, Bool, true, ◌&&◌, Option, none, some, List, [], ◌∷◌,
  arith, if◌then◌else◌, is_some, Bool-cases,
}
use gaudere_agent.Text.{Text, eqb}
use gaudere_agent.Text.Laws.{eqb_iff}

module _ {A : Type 0} (key : A → Text) where
  -- SELECT … WHERE key=?1. The key is primary, so there is one such row at most.
  unfoldable pub find_row : Text → List A → Option A
  find_row k [] = none
  find_row k (a ∷ rows) = if eqb (key a) k then some a else find_row k rows

  -- UPDATE … WHERE key=?1, all other columns taken from `a`
  unfoldable pub set_row : A → List A → List A
  set_row a [] = []
  set_row a (b ∷ rows) = if eqb (key b) (key a) then a ∷ rows else b ∷ set_row a rows

  pub find_row_key : (k : Text) (rows : List A) (a : A) → find_row k rows ≡ some a → key a ≡ k
  unfolding find_row
  find_row_key k [] a h = cc
  find_row_key k (b ∷ rows) a h = elim (Bool-cases (eqb (key b) k)) [
    | inl e ↦ ground (arith, eqb_iff (key b) k)
    | inr n ↦ find_row_key k rows a (ground arith)
  ]

  pub find_row_again :
      (k : Text) (rows : List A) (a : A) → find_row k rows ≡ some a → find_row (key a) rows ≡ some a
  find_row_again k rows a h = ap (λ x. find_row x rows) (find_row_key k rows a h) ∙ h

  pub find_row-set_row :
      (k : Text) (a : A) (rows : List A)
      → find_row k (set_row a rows)
        ≡ (if eqb (key a) k && is_some (find_row k rows) then some a else find_row k rows)
  unfolding find_row set_row
  find_row-set_row k a [] = ground arith
  find_row-set_row k a (b ∷ rows) = ground (
    arith,
    eqb_iff (key b) (key a),
    eqb_iff (key a) k,
    eqb_iff (key b) k,
    find_row-set_row k a rows,
  )

module _ {A : Type 0} where
  -- The first row that passes a test: a SELECT by columns that a UNIQUE index covers.
  unfoldable pub find_where : (A → Bool) → List A → Option A
  find_where p [] = none
  find_where p (a ∷ rows) = if p a then some a else find_where p rows

  -- The sum of a weight over the rows.
  unfoldable pub tally : (A → ℕ) → List A → ℕ
  tally w [] = 0
  tally w (a ∷ rows) = w a + tally w rows

  pub tally-find_row :
      (key : A → Text) (w : A → ℕ) (k : Text) (a : A) (rows : List A)
      → find_row key k rows ≡ some a
      → w a ≤ tally w rows
  unfolding find_row tally
  tally-find_row key w k a [] h = cc
  tally-find_row key w k a (b ∷ rows) h = elim (Bool-cases (eqb (key b) k)) [
    | inl e ↦ let same : b ≡ a = ground arith in rw (sym same) (omega arith)
    | inr n ↦ omega (arith, tally-find_row key w k a rows (ground arith))
  ]

  -- An UPDATE of one row changes the sum by the weights of that row.
  pub tally-set_row :
      (key : A → Text) (w : A → ℕ) (a old : A) (rows : List A)
      → find_row key (key a) rows ≡ some old
      → tally w (set_row key a rows) + w old ≡ tally w rows + w a
  unfolding find_row set_row tally
  tally-set_row key w a old [] h = cc
  tally-set_row key w a old (b ∷ rows) h = elim (Bool-cases (eqb (key b) (key a))) [
    | inl e ↦ let same : b ≡ old = ground arith in rw e (rw (sym same) (omega arith))
    | inr n ↦ rw n (omega (arith, tally-set_row key w a old rows (ground arith)))
  ]

  -- How many rows pass a test.
  abbrev pub count : (A → Bool) → List A → ℕ
  count p rows = tally (λ a. if p a then 1 else 0) rows

  -- Where no row passes a test, none is counted.
  pub count-find_where :
      (p : A → Bool) (rows : List A) → find_where p rows ≡ none → count p rows ≡ 0
  unfolding find_where tally
  count-find_where p [] h = omega arith
  count-find_where p (a ∷ rows) h = elim (Bool-cases (p a)) [
    | inl e ↦ ground arith
    | inr n ↦ rw n (omega (arith, count-find_where p rows (ground arith)))
  ]

  -- A new row does not break the uniqueness of a test that no row passed, or that it fails.
  pub count-insert :
      (p : A → Bool) (a : A) (rows : List A)
      → (p a ≡ true → find_where p rows ≡ none)
      → count p rows ≤ 1
      → count p (a ∷ rows) ≤ 1
  unfolding tally
  count-insert p a rows f h = elim (Bool-cases (p a)) [
    | inl e ↦ rw e (omega (arith, count-find_where p rows (f e)))
    | inr n ↦ rw n (omega (arith, h))
  ]

  -- Nor does an UPDATE that makes no row pass it.
  pub count-set_row :
      (key : A → Text) (p : A → Bool) (a old : A) (rows : List A)
      → find_row key (key a) rows ≡ some old
      → (p a ≡ true → p old ≡ true)
      → count p rows ≤ 1
      → count p (set_row key a rows) ≤ 1
  count-set_row key p a old rows e f h = elim (Bool-cases (p a)) [
    | inl y ↦
        let sum = rw (y, f y) at (tally-set_row key (λ x. if p x then 1 else 0) a old rows e) in
        omega (arith, sum, h)
    | inr n ↦
        let sum = rw n at (tally-set_row key (λ x. if p x then 1 else 0) a old rows e) in
        omega (arith, sum, h)
  ]
