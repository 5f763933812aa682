-- ===== src/Table/Sorting.antt =====
-- ORDER BY. SQL leaves open how rows are put that no key tells apart, so sorting is an interface: what
-- it documents is that the rows are the same, as often, and that none stands after one that it comes
-- before.
use billing_recovery_executi.Common.{
  ℕ, Bool, true, false, List, [], ◌∷◌, ◌≡◌, arith, ltb, ◌&&◌, ◌||◌, not,
}
use billing_recovery_executi.Table.Query.{count, All}

module _ {A : Type 0} where
  -- `before a b` says that the keys put `a` before `b`.
  pub record IsWeakOrder (before : A → A → Bool) : Type 0 where
    pub asymm : (a b : A) → before a b ≡ true → before b a ≡ false
    pub negatively_trans :
        (a b c : A) → before a b ≡ false → before b c ≡ false → before a c ≡ false

  abbrev pub IsOrdered : (A → A → Bool) → List A → Type 0
  IsOrdered before [] = Unit
  IsOrdered before (a ∷ t) = All (λ b. before b a ≡ false) t × IsOrdered before t

  -- Every test holds of as many rows.
  abbrev pub SameRows : List A → List A → Type 0
  SameRows t u = (p : A → Bool) → count p t ≡ count p u

  -- Ascending by one key, descending by one key, and ascending by two.
  abbrev pub ascending : (A → ℕ) → A → A → Bool
  ascending key a b = ltb (key a) (key b)

  abbrev pub descending : (A → ℕ) → A → A → Bool
  descending key a b = ltb (key b) (key a)

  abbrev pub ascending_then : (A → ℕ) → (A → ℕ) → A → A → Bool
  ascending_then key tie a b =
      ltb (key a) (key b) || not (ltb (key b) (key a)) && ltb (tie a) (tie b)

  pub ascending-IsWeakOrder : (key : A → ℕ) → IsWeakOrder (ascending key)
  ascending-IsWeakOrder key = record {
    asymm = λ a b h. ground arith;
    negatively_trans = λ a b c h k. ground arith;
  }

  pub descending-IsWeakOrder : (key : A → ℕ) → IsWeakOrder (descending key)
  descending-IsWeakOrder key = record {
    asymm = λ a b h. ground arith;
    negatively_trans = λ a b c h k. ground arith;
  }

  pub ascending_then-IsWeakOrder : (key tie : A → ℕ) → IsWeakOrder (ascending_then key tie)
  ascending_then-IsWeakOrder key tie = record {
    asymm = λ a b h. ground arith;
    negatively_trans = λ a b c h k. ground arith;
  }

pub record Sorter : Type 1 where
  pub order_by : {A : Type 0} → (A → A → Bool) → List A → List A
  pub same_rows : {A : Type 0} (before : A → A → Bool) (t : List A) → SameRows (order_by before t) t
  pub ordered :
      {A : Type 0} (before : A → A → Bool) (t : List A)
      → IsWeakOrder before
      → IsOrdered before (order_by before t)
