-- ===== src/Table/Rows.antt =====
-- Rows of a table, and what holds of each row, when rows are added and updated.
use mathlib.Core.Path.{subst}
use billing_recovery_executi.Common.{
  ℕ, zero, suc, Bool, true, false, none, some, List, [], ◌∷◌, ◌++◌, ◌≡◌, refl, inl, inr, Bool-cases,
  arith, if◌then◌else◌,
}
use billing_recovery_executi.Table.Query.{select, column, update, get_elem?, All}

module _ {A : Type 0} where
  abbrev pub IsRow : A → List A → Type 0
  IsRow a t = (i : ℕ) × (get_elem? t i ≡ some a)

  get_elem?-append :
      (t u : List A) (i : ℕ) (a : A) → get_elem? t i ≡ some a → get_elem? (t ++ u) i ≡ some a
  get_elem?-append [] u i a h = cc
  get_elem?-append (b ∷ t) u zero a h = h
  get_elem?-append (b ∷ t) u (suc i) a h = get_elem?-append t u i a h

  pub IsRow-append : (t u : List A) (a : A) → IsRow a t → IsRow a (t ++ u)
  IsRow-append t u a (i, h) = (i, get_elem?-append t u i a h)

  pub get_elem?-column :
      {B : Type 0} (f : A → B) (t : List A) (i : ℕ)
      → get_elem? t i ≡ none
      → get_elem? (column f t) i ≡ none
  get_elem?-column f [] i h = refl
  get_elem?-column f (a ∷ t) zero h = cc
  get_elem?-column f (a ∷ t) (suc i) h = get_elem?-column f t i h

  -- A row of SELECT ... WHERE p is a row of the table that satisfies p.
  pub IsRow-select :
      (p : A → Bool) (t : List A) (i : ℕ) (a : A)
      → get_elem? (select p t) i ≡ some a
      → IsRow a t × (p a ≡ true)
  IsRow-select p [] i a h = cc
  IsRow-select p (b ∷ t) i a h = elim (Bool-cases (p b)) [
    | inl e ↦
        kept_row i (λ j. IsRow-select p t j a) e
          (subst (λ c. get_elem? (if c then b ∷ select p t else select p t) i ≡ some a) e h)
    | inr e ↦
        let ((j, k), m) =
          IsRow-select p t i a
            (subst (λ c. get_elem? (if c then b ∷ select p t else select p t) i ≡ some a) e h) in
        ((suc j, k), m)
  ]
    where
      kept_row :
          (i : ℕ)
          → ((j : ℕ) → get_elem? (select p t) j ≡ some a → IsRow a t × (p a ≡ true))
          → p b ≡ true
          → get_elem? (b ∷ select p t) i ≡ some a
          → IsRow a (b ∷ t) × (p a ≡ true)
      kept_row zero ih e h = ((zero, h), ground arith)
      kept_row (suc i) ih e h = let ((j, k), m) = ih i h in ((suc j, k), m)

  module _ (P : A → Type 0) where
    pub All-append : (t : List A) (a : A) → All P t → P a → All P (t ++ a ∷ [])
    All-append [] a h k = (k, tt)
    All-append (b ∷ t) a h k = (h.0, All-append t a h.1 k)

    touched_row : (b : Bool) (f : A → A) (a : A) → P a → P (f a) → P (if b then f a else a)
    touched_row true f a h k = k
    touched_row false f a h k = h

    pub All-update :
        (p : A → Bool) (f : A → A) (t : List A)
        → ((a : A) → P a → P (f a))
        → All P t
        → All P (update p f t)
    All-update p f [] k h = tt
    All-update p f (a ∷ t) k h = (touched_row (p a) f a h.0 (k a h.0), All-update p f t k h.1)

  pub All-map : {P Q : A → Type 0} (t : List A) → ((a : A) → P a → Q a) → All P t → All Q t
  All-map [] k h = tt
  All-map (a ∷ t) k h = (k a h.0, All-map t k h.1)
