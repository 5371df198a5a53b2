-- ===== src/Prelude/TableLaws.antt =====
-- Laws of the queries on tables.
use Prim.Native.Nat.{◌+◌}
use mathlib.Core.Path.{◌≡◌, refl, sym, ap, ap₂, ◌∙◌}
use mathlib.Core.Logic.{inl, inr}
use mathlib.Core.Bool.{Bool, true, false}
use mathlib.Core.Option.{Option, none, some}
use mathlib.Core.List.{List, [], ◌∷◌}
use native.Mathlib.Omega.{arith}
use augur_node.Prelude.Tests.{if◌then◌else◌, Bool-cases, Option-cases}
use augur_node.Prelude.Tables.{first_where, update_where, delete_where, count_where, insert_row}

-- The row that a first match becomes under an update.
abbrev pub updated {ℓ} : {R : Type ℓ} → (R → Bool) → (R → R) → Option R → Option R
updated p f none = none
updated p f (some r) = some (if p r then f r else r)

abbrev pub first_or {ℓ} : {R : Type ℓ} → Option R → Option R → Option R
first_or none o = o
first_or (some r) o = some r

module _ {ℓ} {R : Type ℓ} where
  -- An update that keeps the tested columns keeps which row is found first.
  pub first-update :
      (q p : R → Bool) (f : R → R) (rows : List R)
      → ((r : R) → q (f r) ≡ q r)
      → first_where q (update_where p f rows) ≡ updated p f (first_where q rows)
  unfolding first_where update_where
  first-update q p f [] k = refl
  first-update q p f (r ∷ rows) k = elim (Bool-cases (p r)) [
    | inl e ↦ rw e (
        rw (k r) (elim (Bool-cases (q r)) [
          | inl h ↦ rw h (rw e)
          | inr h ↦ rw h (first-update q p f rows k)
        ]))
    | inr e ↦
        rw e (elim (Bool-cases (q r)) [
          | inl h ↦ rw h (rw e)
          | inr h ↦ rw h (first-update q p f rows k)
        ])
  ]

  pub first-insert :
      (q : R → Bool) (r : R) (rows : List R)
      → first_where q (insert_row r rows)
        ≡ first_or (first_where q rows) (if q r then some r else none)
  unfolding first_where insert_row
  first-insert q r [] = refl
  first-insert q r (x ∷ rows) = elim (Bool-cases (q x)) [
    | inl h ↦ rw h
    | inr h ↦ rw h (first-insert q r rows)
  ]

  pub first_satisfies :
      (q : R → Bool) (rows : List R) {r : R} → first_where q rows ≡ some r → q r ≡ true
  unfolding first_where
  first_satisfies q [] h = cc
  first_satisfies q (x ∷ rows) h = elim (Bool-cases (q x)) [
    | inl e ↦ subst_some (rw e at h) e
    | inr e ↦ first_satisfies q rows (rw e at h)
  ]
    where
      subst_some : {a b : R} → some a ≡ some b → q a ≡ true → q b ≡ true
      subst_some p k = cc

  -- An update reaches the row that its own test finds, and no row of a test apart from its own.
  pub updated_same :
      (p : R → Bool) (f : R → R) (rows : List R) {r : R}
      → first_where p rows ≡ some r
      → updated p f (first_where p rows) ≡ some (f r)
  updated_same p f rows {r} h = rw h (rw (first_satisfies p rows h) refl)

  pub updated_other :
      (q p : R → Bool) (f : R → R) (rows : List R)
      → ((r : R) → q r ≡ true → p r ≡ false)
      → updated p f (first_where q rows) ≡ first_where q rows
  updated_other q p f rows k = elim (Option-cases (first_where q rows)) [
    | inl h ↦ rw h
    | inr (r, h) ↦ rw h (rw (k r (first_satisfies q rows h)) refl)
  ]

  -- With no match, nothing is updated or deleted.
  pub update_none :
      (p : R → Bool) (f : R → R) (rows : List R)
      → first_where p rows ≡ none
      → update_where p f rows ≡ rows
  unfolding first_where update_where
  update_none p f [] h = refl
  update_none p f (r ∷ rows) h = elim (Bool-cases (p r)) [
    | inl e ↦ cc (rw e at h)
    | inr e ↦ rw e (ap (◌∷◌ r) (update_none p f rows (rw e at h)))
  ]

  pub delete_none :
      (p : R → Bool) (rows : List R) → first_where p rows ≡ none → delete_where p rows ≡ rows
  unfolding first_where delete_where
  delete_none p [] h = refl
  delete_none p (r ∷ rows) h = elim (Bool-cases (p r)) [
    | inl e ↦ cc (rw e at h)
    | inr e ↦ rw e (ap (◌∷◌ r) (delete_none p rows (rw e at h)))
  ]

  pub delete-insert :
      (p : R → Bool) (r : R) (rows : List R)
      → p r ≡ true
      → delete_where p (insert_row r rows) ≡ delete_where p rows
  unfolding insert_row delete_where
  delete-insert p r [] h = rw h
  delete-insert p r (x ∷ rows) h = elim (Bool-cases (p x)) [
    | inl e ↦ rw e (delete-insert p r rows h)
    | inr e ↦ rw e (ap (◌∷◌ x) (delete-insert p r rows h))
  ]

  pub count_where-insert :
      (p : R → Bool) (r : R) (rows : List R)
      → count_where p (insert_row r rows) ≡ count_where p rows + (if p r then 1 else 0)
  unfolding count_where insert_row
  count_where-insert p r [] = omega arith
  count_where-insert p r (x ∷ rows) = omega (arith, count_where-insert p r rows)

  pub first-delete :
      (q p : R → Bool) (rows : List R)
      → ((r : R) → q r ≡ true → p r ≡ false)
      → first_where q (delete_where p rows) ≡ first_where q rows
  unfolding first_where delete_where
  first-delete q p [] k = refl
  first-delete q p (r ∷ rows) k = elim (Bool-cases (q r)) [
    | inl h ↦ rw (h, k r h) (rw h)
    | inr h ↦ rw h (elim (Bool-cases (p r)) [
      | inl e ↦ rw e (first-delete q p rows k)
      | inr e ↦ rw e (rw h (first-delete q p rows k))
    ])
  ]

  pub none-delete : (p : R → Bool) (rows : List R) → first_where p (delete_where p rows) ≡ none
  unfolding first_where delete_where
  none-delete p [] = refl
  none-delete p (r ∷ rows) = elim (Bool-cases (p r)) [
    | inl e ↦ rw e (none-delete p rows)
    | inr e ↦ rw e (rw e (none-delete p rows))
  ]

pub count_zero-first {ℓ} :
    {R : Type ℓ} (p : R → Bool) (rows : List R) → count_where p rows ≡ 0 → first_where p rows ≡ none
unfolding count_where first_where
count_zero-first p [] h = refl
count_zero-first p (r ∷ rows) h = elim (Bool-cases (p r)) [
  | inl e ↦ absurd (omega (arith, rw e at h))
  | inr e ↦ rw e (count_zero-first p rows (omega (arith, rw e at h)))
]

some_of {ℓ} : {R : Type ℓ} {x y : R} → some x ≡ some y → x ≡ y
some_of q = cc

-- Two updates of the only row that a test finds, the second of which takes back the first.
pub updates-undone {ℓ} :
    {R : Type ℓ} (p : R → Bool) (f g : R → R) (rows : List R) {c : R}
    → ((r : R) → p (f r) ≡ p r)
    → first_where p rows ≡ some c
    → count_where p rows ≡ 1
    → g (f c) ≡ c
    → update_where p g (update_where p f rows) ≡ rows
unfolding first_where count_where update_where
updates-undone p f g [] k h n e = cc
updates-undone p f g (r ∷ rows) {c} k h n e = elim (Bool-cases (p r)) [
  | inl t ↦
      let no_more = count_zero-first p rows (omega (arith, rw t at n)) in
      let same = some_of (rw t at h) in
      rw t (
        rw (update_none p f rows no_more, k r ∙ t)
          (ap₂ (◌∷◌) (ap (λ x. g (f x)) same ∙ e ∙ sym same) (update_none p g rows no_more)))
  | inr t ↦
      rw t
        (rw t (ap (◌∷◌ r) (updates-undone p f g rows k (rw t at h) (omega (arith, rw t at n)) e)))
]
